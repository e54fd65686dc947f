-- ===== src/Spoke/Terminal/Width.antt =====
-- spoke/tui.py: display widths, wrapping into rows, the place of the cursor, the drawn form.
pub mod Laws
pub mod Drawn
use moot.Common.{
  ℕ, zero, suc, ◌+◌, ◌-◌, Bool, true, false, ◌&&◌, ◌||◌, List, [], ◌∷◌, ◌++◌, ltb, leb, eqb, ◌==◌,
  length, take, if◌then◌else◌,
}
use moot.Spoke.Terminal.{Unicode}

abbrev pub line_feed : ℕ
line_feed = 10

-- regional indicators, and the widths W and F
unfoldable pub is_wide : Unicode → ℕ → Bool
is_wide u o =
    (leb 0x1F1E6 o && leb o 0x1F1FF) || (u.east_asian_width o == "W" || u.east_asian_width o == "F")

unfoldable pub char_width : Unicode → ℕ → ℕ
char_width u ch = if u.combining ch then 0 else if is_wide u ch then 2 else 1

unfoldable pub cell_width : Unicode → List ℕ → ℕ
cell_width u [] = 0
cell_width u (ch ∷ text) = char_width u ch + cell_width u text

-- the variables of the loop of `wrap_rows`
pub record Wrap : Type 0 where
  pub rows : List (List ℕ)
  pub row : List ℕ
  pub row_width : ℕ

unfoldable pub break_row : Wrap → Wrap
break_row w = record { rows = w.rows ++ w.row ∷ []; row = []; row_width = 0 }

unfoldable pub wrap_char : Unicode → ℕ → Wrap → ℕ → Wrap
unfolding break_row char_width
wrap_char u width s ch =
    if eqb ch line_feed
    then break_row s
    else let w = char_width u ch in
      let t = if ltb width (s.row_width + w) then break_row s else s in
      record t { row = t.row ++ ch ∷ []; row_width = t.row_width + w }

unfoldable pub wrap_from : Unicode → ℕ → Wrap → List ℕ → Wrap
wrap_from u width s [] = s
wrap_from u width s (ch ∷ text) = wrap_from u width (wrap_char u width s ch) text

unfoldable pub no_rows : Wrap
no_rows = record { rows = []; row = []; row_width = 0 }

unfoldable pub all_rows : Wrap → List (List ℕ)
all_rows s = s.rows ++ s.row ∷ []

unfoldable pub wrap_rows : Unicode → List ℕ → ℕ → List (List ℕ)
wrap_rows u text width = all_rows (wrap_from u width no_rows text)

abbrev pub ellipsis : ℕ
ellipsis = 0x2026

-- the loop of `clip_cells`: what it keeps
unfoldable pub clip_from : Unicode → ℕ → ℕ → List ℕ → List ℕ
clip_from u cells used [] = []
clip_from u cells used (ch ∷ text) =
    let w = char_width u ch in
    let kept = clip_from u cells (used + w) text in
    if ltb (cells - 1) (used + w) then [] else ch ∷ kept

-- Every call clamps `cells` at 0 from below.
unfoldable pub clip_cells : Unicode → List ℕ → ℕ → List ℕ
clip_cells u text cells =
    if leb (cell_width u text) cells
    then text
    else if leb cells 0
    then []
    else clip_from u cells 0 text ++ ellipsis ∷ []

unfoldable pub move_cursor : Unicode → ℕ → ℕ × ℕ → ℕ → ℕ × ℕ
move_cursor u width (row, col) ch =
    if eqb ch line_feed
    then (row + 1, 0)
    else let w = char_width u ch in if ltb width (col + w) then (row + 1, w) else (row, col + w)

unfoldable pub cursor_from : Unicode → ℕ → ℕ × ℕ → List ℕ → ℕ × ℕ
cursor_from u width at [] = at
cursor_from u width at (ch ∷ text) = cursor_from u width (move_cursor u width at ch) text

unfoldable pub cursor_row_col : Unicode → List ℕ → ℕ → ℕ → ℕ × ℕ
cursor_row_col u text pos width = cursor_from u width (0, 0) (take pos text)

-- Caret notation for the controls below 0x20 but the line feed, and for DEL; U+FFFD for those from
-- 0x80 on.
unfoldable pub display_char : ℕ → List ℕ
display_char o =
    if eqb o line_feed
    then o ∷ []
    else if ltb o 0x20
    then 0x5E ∷ (o + 0x40) ∷ []
    else if eqb o 0x7F
    then 0x5E ∷ 0x3F ∷ []
    else if leb 0x80 o && leb o 0x9F
    then 0xFFFD ∷ []
    else o ∷ []

unfoldable pub display_form : List ℕ → List ℕ
display_form [] = []
display_form (ch ∷ text) = display_char ch ++ display_form text

unfoldable pub display_pos : List ℕ → ℕ → ℕ
display_pos text pos = length (display_form (take pos text))
