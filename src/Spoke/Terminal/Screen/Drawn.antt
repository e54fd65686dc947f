-- ===== src/Spoke/Terminal/Screen/Drawn.antt =====
-- What drawing the footer writes: the divider, the input rows and the move to the cursor.
use moot.Common.{
  ℕ, zero, suc, ◌+◌, ◌-◌, min, ◌≡◌, refl, ◌∙◌, sym, ap, Bool, none, some, List, get_elem?, [], ◌++◌,
  arith, length,
}
use mathlib.Core.List.{append_assoc, append-nil}
use moot.Spoke.Terminal.{Unicode}
use moot.Spoke.Terminal.Width.{wrap_rows, cursor_row_col}
use moot.Spoke.Terminal.Screen.{
  Screen, prompt, region_bottom, divider_row, write, input_row, input_col, cup_input, divider_line,
  divider, window, draw_rows, draw_footer, move_to, clear_below, clear_line, dim,
}

-- What drawing the footer leaves as it is.
pub record IsSame (s t : Screen) : Type 0 where
  pub footer : t.footer_rows ≡ s.footer_rows
  pub rows : t.rows ≡ s.rows
  pub cols : t.cols ≡ s.cols
  pub top : t.window_top ≡ s.window_top
  pub color : t.color ≡ s.color
  pub status : t.status ≡ s.status

write-IsSame : (text : List ℕ) (s t : Screen) → IsSame (write text s) t → IsSame s t
unfolding write
write-IsSame text s t v = record {
  footer = v.footer;
  rows = v.rows;
  cols = v.cols;
  top = v.top;
  color = v.color;
  status = v.status;
}

-- The rows of a text from `top + i` on, each in a row of the terminal from `base + i` on that is
-- cleared first; a row past the text is left empty.
abbrev pub input_lines : List (List ℕ) → ℕ → ℕ → ℕ → ℕ → List ℕ
input_lines visual base top i zero = []
input_lines visual base top i (suc n) =
    (move_to (base + i) 1
      ++ clear_line
      ++ (elim (get_elem? visual (top + i)) as (λ _. List ℕ) [ none ↦ [] | some row ↦ row ]))
    ++ input_lines visual base top (i + 1) n

reassociate : (a b c d e : List ℕ) → (((a ++ b) ++ c) ++ d) ++ e ≡ a ++ (b ++ (c ++ (d ++ e)))
reassociate a b c d e =
    append_assoc ((a ++ b) ++ c) d e
    ∙ append_assoc (a ++ b) c (d ++ e)
    ∙ append_assoc a b (c ++ (d ++ e))

module _ (u : Unicode) where
  pub draw_rows-IsSame :
      (visual : List (List ℕ)) (top i n : ℕ) (s : Screen) → IsSame s (draw_rows u visual top i n s)
  unfolding draw_rows
  draw_rows-IsSame visual top i zero s = record {
    footer = refl;
    rows = refl;
    cols = refl;
    top = refl;
    color = refl;
    status = refl;
  }
  draw_rows-IsSame visual top i (suc n) s =
      write-IsSame _ s _ (draw_rows-IsSame visual top (i + 1) n _)

  -- A footer as it is written: the divider, below it a row for each input row, and last of all the
  -- move to where the screen has its cursor.
  abbrev pub footer_text : List (List ℕ) → Screen → List ℕ
  footer_text visual s =
      (move_to (divider_row s) 1 ++ clear_below)
      ++ (divider u s
          ++ (input_lines visual (divider_row s + 1) s.window_top 0 (s.footer_rows - 1)
              ++ move_to (input_row s) (input_col s)))

  out-draw_rows :
      (visual : List (List ℕ)) (top i n : ℕ) (s : Screen)
      → (draw_rows u visual top i n s).out ≡ s.out ++ input_lines visual (divider_row s + 1) top i n
  unfolding draw_rows write divider_row region_bottom
  out-draw_rows visual top i zero s = sym (append-nil s.out)
  out-draw_rows visual top i (suc n) s =
      out-draw_rows visual top (i + 1) n _
      ∙ append_assoc s.out _ (input_lines visual (divider_row s + 1) top (i + 1) n)

  divider_same :
      (s t : Screen)
      → t.cols ≡ s.cols
      → t.color ≡ s.color
      → t.status ≡ s.status
      → divider u t ≡ divider u s
  unfolding divider divider_line dim
  divider_same s t c k v =
      let shape : Bool → List ℕ → ℕ → List ℕ =
        λ color status cols. divider u (record s { color = color; status = status; cols = cols }) in
      ap (λ color. shape color t.status t.cols) k
      ∙ ap (λ status. shape s.color status t.cols) v
      ∙ ap (λ cols. shape s.color s.status cols) c

  -- Drawing the rows and putting the cursor ends a footer that is as the screen then is.
  cup_input-out :
      (visual : List (List ℕ)) (s t : Screen) (before : List ℕ) (at : ℕ × ℕ)
      → IsSame s t
      → t.out
        ≡ ((before ++ (move_to (divider_row s) 1 ++ clear_below)) ++ divider u s)
          ++ input_lines visual (divider_row s + 1) s.window_top 0 (s.footer_rows - 1)
      → (cup_input (record t { cursor = at })).out
        ≡ before ++ footer_text visual (cup_input (record t { cursor = at }))
  unfolding cup_input write divider_row region_bottom
  cup_input-out visual s t before at v e =
      let placed = record t { cursor = at } in
      let move = move_to (input_row placed) (input_col placed) in
      let text : ℕ → List ℕ → ℕ → ℕ → List ℕ = λ row line top footer.
        (move_to row 1 ++ clear_below)
        ++ (line ++ (input_lines visual (row + 1) top 0 (footer - 1) ++ move)) in
      let row : divider_row s ≡ divider_row t = omega (arith, v.rows, v.footer) in
      let line : divider u s ≡ divider u (cup_input placed) =
        sym (divider_same s (cup_input placed) v.cols v.color v.status) in
      ap (λ out. out ++ move) e
      ∙ reassociate before (move_to (divider_row s) 1 ++ clear_below) (divider u s)
          (input_lines visual (divider_row s + 1) s.window_top 0 (s.footer_rows - 1)) move
      ∙ ap (λ n. before ++ text n (divider u s) s.window_top s.footer_rows) row
      ∙ ap (λ d. before ++ text (divider_row t) d s.window_top s.footer_rows) line
      ∙ ap (λ n. before ++ text (divider_row t) (divider u (cup_input placed)) n s.footer_rows)
          (sym v.top)
      ∙ ap (λ n. before ++ text (divider_row t) (divider u (cup_input placed)) t.window_top n)
          (sym v.footer)

  pub out-draw_footer :
      (disp : List ℕ) (pos : ℕ) (s : Screen)
      → (draw_footer u disp pos s).out
        ≡ s.out ++ footer_text (wrap_rows u (prompt ++ disp) s.cols) (draw_footer u disp pos s)
  unfolding draw_footer write divider_row region_bottom
  out-draw_footer disp pos s =
      let s1 = write (move_to (divider_row s) 1 ++ clear_below) s in
      let s2 = write (divider u s1) s1 in
      let at = cursor_row_col u (prompt ++ disp) (length prompt + pos) s.cols in
      let visual = wrap_rows u (prompt ++ disp) s.cols in
      let top = window s.window_top (length visual) (s.footer_rows - 1) at.0 in
      let s3 = record s2 { window_top = top } in
      cup_input-out visual s3 (draw_rows u visual top 0 (s.footer_rows - 1) s3) s.out
        (at.0 - top, min at.1 (s.cols - 1)) (draw_rows-IsSame visual top 0 (s.footer_rows - 1) s3)
        (out-draw_rows visual top 0 (s.footer_rows - 1) s3
          ∙ ap
              (λ line.
                ((s.out ++ (move_to (divider_row s) 1 ++ clear_below)) ++ line)
                ++ input_lines visual (divider_row s + 1) top 0 (s.footer_rows - 1))
              (divider_same s3 s1 refl refl refl))
