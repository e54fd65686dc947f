-- ===== src/Spoke/Terminal/Screen.antt =====
-- spoke/tui.py: the screen, a scrolling region above a divider and up to five input rows. What is
-- written is the list of its code points; modes of the terminal device are not modelled, and its
-- size comes from the operating system.
pub mod Drawn
pub mod Laws
use moot.Common.{
  ℕ, zero, suc, ◌+◌, ◌-◌, min, max, Bool, true, false, Option, none, some, List, [], ◌∷◌, ◌++◌,
  codes, numeral, ltb, leb, eqb, length, get_elem?, is_empty, if◌then◌else◌,
}
use moot.Spoke.Terminal.{Unicode}
use moot.Spoke.Terminal.Width.{
  cell_width, clip_cells, wrap_rows, cursor_row_col, display_form, display_pos,
}
use moot.Spoke.Terminal.Editor.{Editor}

abbrev pub prompt : List ℕ
prompt = 0x203A ∷ 0x20 ∷ []

abbrev pub max_input_rows : ℕ
max_input_rows = 5

-- "enter: send · alt-enter: newline"
abbrev pub divider_hint : List ℕ
divider_hint = codes "enter: send " ++ 0xB7 ∷ [] ++ codes " alt-enter: newline"

abbrev pub rule_char : ℕ
rule_char = 0x2500

pub record Screen : Type 0 where
  pub color : Bool
  pub out : List ℕ
  pub injected_size : Option (ℕ × ℕ)
  pub status : List ℕ
  pub cols : ℕ
  pub rows : ℕ
  pub footer_rows : ℕ
  pub cursor : ℕ × ℕ
  pub window_top : ℕ

-- an injected size wins over the size of the terminal
unfoldable pub query_size : Option (ℕ × ℕ) → ℕ × ℕ → ℕ × ℕ
query_size injected actual = elim injected [ none ↦ actual | some size ↦ size ]

unfoldable pub new_screen : Bool → Option (ℕ × ℕ) → ℕ × ℕ → Screen
unfolding query_size
new_screen color injected actual = record {
  color = color;
  out = [];
  injected_size = injected;
  status = [];
  cols = (query_size injected actual).0;
  rows = (query_size injected actual).1;
  footer_rows = 2;
  cursor = (0, 0);
  window_top = 0;
}

unfoldable pub region_bottom : Screen → ℕ
region_bottom s = max 1 (s.rows - s.footer_rows)

unfoldable pub divider_row : Screen → ℕ
divider_row s = region_bottom s + 1

unfoldable pub write : List ℕ → Screen → Screen
write text s = record s { out = s.out ++ text }

-- an escape sequence
unfoldable pub csi : List ℕ → List ℕ
csi s = 0x1B ∷ 0x5B ∷ s

unfoldable pub dim : Screen → List ℕ → List ℕ
unfolding csi
dim s text = if s.color then csi (codes "2m") ++ text ++ csi (codes "0m") else text

unfoldable pub red : Screen → List ℕ → List ℕ
unfolding csi
red s text = if s.color then csi (codes "31m") ++ text ++ csi (codes "0m") else text

-- "\x1b[{row};{col}H"
unfoldable pub move_to : ℕ → ℕ → List ℕ
unfolding csi
move_to row col = csi (codes (numeral row) ++ codes ";" ++ codes (numeral col) ++ codes "H")

-- "\x1b[1;{bottom}r"
unfoldable pub set_region : ℕ → List ℕ
unfolding csi
set_region bottom = csi (codes "1;" ++ codes (numeral bottom) ++ codes "r")

unfoldable pub clear_line : List ℕ
unfolding csi
clear_line = csi (codes "2K")

unfoldable pub clear_below : List ℕ
unfolding csi
clear_below = csi (codes "J")

unfoldable pub repeat : ℕ → ℕ → List ℕ
repeat ch zero = []
repeat ch (suc n) = ch ∷ repeat ch n

unfoldable pub input_row : Screen → ℕ
input_row s = divider_row s + 1 + s.cursor.0

unfoldable pub input_col : Screen → ℕ
input_col s = s.cursor.1 + 1

unfoldable pub cup_input : Screen → Screen
unfolding input_row input_col
cup_input s = write (move_to (input_row s) (input_col s)) s

unfoldable pub window : ℕ → ℕ → ℕ → ℕ → ℕ
window window_top visual_rows input_rows abs_row =
    let top = min window_top (visual_rows - input_rows) in
    if ltb abs_row top
    then abs_row
    else if leb (top + input_rows) abs_row
    then abs_row - input_rows + 1
    else top

unfoldable pub grow : ℕ → Screen → Screen
grow needed s =
    let s1 = write (move_to (region_bottom s) 1 ++ repeat 0x0A (needed - s.footer_rows)) s in
    let t = record s1 { footer_rows = needed } in
    write (move_to (divider_row t) 1 ++ clear_below) (write (set_region (region_bottom t)) t)

unfoldable pub shrink : ℕ → Screen → Screen
shrink needed s =
    let t = record s { footer_rows = needed } in
    let s1 = write (set_region (region_bottom t)) t in
    let s2 = write (move_to (divider_row s) 1 ++ clear_below) s1 in
    write (csi (codes (numeral (s.footer_rows - needed)) ++ codes "T")) s2

unfoldable pub adjust_height : ℕ → Screen → Screen
unfolding grow shrink
adjust_height needed s = if ltb s.footer_rows needed then grow needed s else shrink needed s

module _ (u : Unicode) where
  -- the line of the divider, before it is dimmed
  unfoldable pub divider_line : Screen → List ℕ
  unfolding repeat
  divider_line s =
      let hint = clip_cells u (if is_empty s.status then divider_hint else s.status) (s.cols - 2) in
      if leb (cell_width u hint + 2) s.cols
      then repeat rule_char (s.cols - cell_width u hint - 1) ++ hint ++ rule_char ∷ []
      else repeat rule_char s.cols

  unfoldable pub divider : Screen → List ℕ
  divider s = dim s (divider_line s)

  -- `for i in range(input_rows)`, from `i` on, `n` rows still to draw
  unfoldable pub draw_rows : List (List ℕ) → ℕ → ℕ → ℕ → Screen → Screen
  draw_rows visual top i zero s = s
  draw_rows visual top i (suc n) s =
      let content : List ℕ = elim (get_elem? visual (top + i)) [ none ↦ [] | some row ↦ row ] in
      let t = write (move_to (divider_row s + 1 + i) 1 ++ clear_line ++ content) s in
      draw_rows visual top (i + 1) n t

  -- A terminal has a column, where the source would come to column -1.
  unfoldable pub draw_footer : List ℕ → ℕ → Screen → Screen
  draw_footer disp pos s =
      let s1 = write (move_to (divider_row s) 1 ++ clear_below) s in
      let s2 = write (divider s1) s1 in
      let visual = wrap_rows u (prompt ++ disp) s.cols in
      let (abs_row, abs_col) = cursor_row_col u (prompt ++ disp) (length prompt + pos) s.cols in
      let input_rows = s.footer_rows - 1 in
      let top = window s.window_top (length visual) input_rows abs_row in
      let s3 = draw_rows visual top 0 input_rows (record s2 { window_top = top }) in
      cup_input (record s3 { cursor = (abs_row - top, min abs_col (s.cols - 1)) })

  unfoldable pub needed_rows : Screen → List ℕ → ℕ
  needed_rows s disp = 1 + min max_input_rows (length (wrap_rows u (prompt ++ disp) s.cols))

  unfoldable pub redraw_footer : Editor → Screen → Screen
  redraw_footer e s =
      let disp = display_form e.buf in
      let needed = needed_rows s disp in
      let t = if eqb needed s.footer_rows then s else adjust_height needed s in
      draw_footer disp (display_pos e.buf e.pos) t

  unfoldable pub set_status : List ℕ → Screen → Screen
  set_status text s =
      let s1 = record s { status = text } in
      let s2 = write (move_to (divider_row s) 1 ++ clear_line) s1 in
      cup_input (write (divider s2) s2)

  -- without the modes of the device
  unfoldable pub setup : Screen → Screen
  setup s =
      let s1 = write (csi (codes "2J") ++ csi (codes "H")) s in
      let s2 = write (set_region (region_bottom s1)) s1 in
      draw_footer [] 0 (write (csi (codes "?2004h")) s2)

unfoldable pub teardown : Screen → Screen
teardown s =
    let s1 = write (csi (codes "r") ++ csi (codes "?2004l")) s in
    write (move_to s.rows 1 ++ 0x0A ∷ []) s1

unfoldable pub write_lines : List (List ℕ) → Screen → Screen
write_lines [] s = s
write_lines (line ∷ lines) s = write_lines lines (write (clear_line ++ line ++ 0x0A ∷ []) s)

unfoldable pub print_lines : List (List ℕ) → Screen → Screen
print_lines [] s = s
print_lines (line ∷ lines) s =
    cup_input (write_lines (line ∷ lines) (write (move_to (region_bottom s) 1) s))

unfoldable pub note : List ℕ → Screen → Screen
note text s = print_lines (dim s text ∷ []) s

unfoldable pub error : List ℕ → Screen → Screen
error text s = print_lines (red s text ∷ []) s

unfoldable pub clear : Screen → Screen
clear s = write (csi (codes "2J")) s

unfoldable pub resize : Option (ℕ × ℕ) → ℕ × ℕ → Screen → Screen
unfolding query_size
resize size actual s =
    let (cols, rows) = query_size size actual in
    let t = record s { injected_size = size; cols = cols; rows = rows } in
    write (move_to (divider_row s) 1 ++ clear_below) (write (set_region (region_bottom t)) t)
