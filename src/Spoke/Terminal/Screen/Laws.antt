-- ===== src/Spoke/Terminal/Screen/Laws.antt =====
-- The screen: the footer, the divider and the cursor.
use moot.Common.{
  ℕ, zero, suc, ◌+◌, ◌-◌, min, ◌≤◌, ◌<◌, ◌≡◌, refl, subst, ◌∙◌, sym, List, [], ◌∷◌, ◌++◌, ltb, leb,
  eqb, arith, inl, inr, Bool-cases, length, is_empty, if◌then◌else◌, if_intro, leb→le, eqb_iff,
}
use moot.Spoke.Terminal.{Unicode}
use moot.Spoke.Terminal.Width.{
  char_width, cell_width, clip_cells, wrap_rows, cursor_row_col, display_form, display_pos,
}
use moot.Spoke.Terminal.Width.Laws.{cell_width-append, wrap_rows-some}
use moot.Spoke.Terminal.Editor.{Editor}
use moot.Spoke.Terminal.Screen.Drawn.{IsSame, draw_rows-IsSame, footer_text, out-draw_footer}
use moot.Spoke.Terminal.Screen.{
  Screen, prompt, max_input_rows, divider_hint, rule_char, region_bottom, divider_row, write,
  repeat, input_row, input_col, cup_input, divider_line, divider, window, draw_rows, draw_footer,
  grow, shrink, adjust_height, needed_rows, redraw_footer, move_to, clear_below,
}

-- Scrolling the input rows keeps the cursor's row among them.
window_lem :
    (window_top visual_rows input_rows abs_row : ℕ)
    → 0 < input_rows
    → (window window_top visual_rows input_rows abs_row ≤ abs_row)
      × (abs_row < window window_top visual_rows input_rows abs_row + input_rows)
unfolding window
window_lem t v i a h = ground arith

adjust_height_lem :
    (needed : ℕ) (s : Screen)
    → ((adjust_height needed s).footer_rows ≡ needed)
      × ((adjust_height needed s).rows ≡ s.rows)
      × ((adjust_height needed s).cols ≡ s.cols)
unfolding adjust_height grow shrink write
adjust_height_lem needed s = elim (Bool-cases (ltb s.footer_rows needed)) [
  | inl e ↦ rw e (refl, refl, refl)
  | inr e ↦ rw e (refl, refl, refl)
]

module _ (u : Unicode) where
  cell_width-repeat : (ch n : ℕ) → char_width u ch ≡ 1 → cell_width u (repeat ch n) ≡ n
  unfolding cell_width repeat
  cell_width-repeat ch zero h = refl
  cell_width-repeat ch (suc n) h = omega (arith, cell_width-repeat ch n h)

  -- The divider is exactly as wide as the terminal, whatever the status, if the rule takes
  -- a cell.
  pub divider_line_lem :
      (s : Screen) → char_width u rule_char ≡ 1 → cell_width u (divider_line u s) ≡ s.cols
  unfolding divider_line cell_width
  divider_line_lem s r =
      let hint = clip_cells u (if is_empty s.status then divider_hint else s.status) (s.cols - 2) in
      let n = s.cols - cell_width u hint - 1 in
      if_intro (λ line. cell_width u line ≡ s.cols) (leb (cell_width u hint + 2) s.cols)
        (λ h. measured hint n refl (leb→le (cell_width u hint + 2) s.cols h))
        (λ h. cell_width-repeat rule_char s.cols r)
    where
      measured :
          (hint : List ℕ) (n : ℕ)
          → n ≡ s.cols - cell_width u hint - 1
          → cell_width u hint + 2 ≤ s.cols
          → cell_width u (repeat rule_char n ++ hint ++ rule_char ∷ []) ≡ s.cols
      measured hint n e h = omega (
        arith,
        cell_width-append u (repeat rule_char n ++ hint) (rule_char ∷ []),
        cell_width-append u (repeat rule_char n) hint,
        cell_width-repeat rule_char n r,
      )

  -- The footer at the bottom of the terminal, and the cursor in an input row: in the row and, but
  -- for the last column, in the column of the text where the cursor of the editor is.
  pub record IsPlaced (s : Screen) (row col : ℕ) : Type 0 where
    pub bottom : region_bottom s + s.footer_rows ≡ s.rows
    pub line : input_row s ≡ divider_row s + 1 + (row - s.window_top)
    pub above : s.window_top ≤ row
    pub below : input_row s ≤ s.rows
    pub column : input_col s ≡ min (col + 1) s.cols

  cup_input-IsPlaced :
      (s t : Screen) (row col : ℕ)
      → IsSame s t
      → 2 ≤ s.footer_rows
      → s.footer_rows < s.rows
      → 1 ≤ s.cols
      → (s.window_top ≤ row) × (row < s.window_top + (s.footer_rows - 1))
      → IsPlaced
          (cup_input (record t { cursor = (row - s.window_top, min col (s.cols - 1)) }))
          row
          col
  unfolding cup_input write input_row input_col divider_row region_bottom
  cup_input-IsPlaced s t row col v f r c w = record {
    bottom = omega (arith, v.footer, v.rows);
    line = omega (arith, v.top);
    above = omega (arith, v.top, w.0);
    below = omega (arith, v.footer, v.rows, w.0, w.1);
    column = omega (arith, v.cols);
  }

  draw_footer-IsPlaced :
      (disp : List ℕ) (pos : ℕ) (s : Screen)
      → 2 ≤ s.footer_rows
      → s.footer_rows < s.rows
      → 1 ≤ s.cols
      → IsPlaced
          (draw_footer u disp pos s)
          (cursor_row_col u (prompt ++ disp) (length prompt + pos) s.cols).0
          (cursor_row_col u (prompt ++ disp) (length prompt + pos) s.cols).1
  unfolding draw_footer write
  draw_footer-IsPlaced disp pos s f r c =
      let s1 = write (move_to (divider_row s) 1 ++ clear_below) s in
      let s2 = write (divider u s1) s1 in
      let at = cursor_row_col u (prompt ++ disp) (length prompt + pos) s.cols in
      let visual = wrap_rows u (prompt ++ disp) s.cols in
      let top = window s.window_top (length visual) (s.footer_rows - 1) at.0 in
      let s3 = record s2 { window_top = top } in
      cup_input-IsPlaced s3 (draw_rows u visual top 0 (s.footer_rows - 1) s3) at.0 at.1
        (draw_rows-IsSame u visual top 0 (s.footer_rows - 1) s3) f r c
        (window_lem s.window_top (length visual) (s.footer_rows - 1) at.0 (omega arith))

  footer_rows-draw_footer :
      (disp : List ℕ) (pos : ℕ) (s : Screen)
      → (draw_footer u disp pos s).footer_rows ≡ s.footer_rows
  unfolding draw_footer write cup_input
  footer_rows-draw_footer disp pos s = (draw_rows-IsSame u _ _ 0 (s.footer_rows - 1) _).footer

  redraw_at :
      (s : Screen) (disp : List ℕ) (pos needed : ℕ)
      → max_input_rows + 1 < s.rows
      → 1 ≤ s.cols
      → 2 ≤ needed
      → needed ≤ max_input_rows + 1
      → (t : Screen) → t.footer_rows ≡ needed
      → t.rows ≡ s.rows
      → t.cols ≡ s.cols
      → ((draw_footer u disp pos t).footer_rows ≡ needed)
        × IsPlaced
            (draw_footer u disp pos t)
            (cursor_row_col u (prompt ++ disp) (length prompt + pos) s.cols).0
            (cursor_row_col u (prompt ++ disp) (length prompt + pos) s.cols).1
        × ((before : List ℕ) × ((draw_footer u disp pos t).out
              ≡ before
                ++ footer_text u (wrap_rows u (prompt ++ disp) s.cols) (draw_footer u disp pos t)))
  redraw_at s disp pos needed r c n m t f g k =
      let placed = draw_footer-IsPlaced disp pos t (omega arith) (omega arith) (omega arith) in
      (
        footer_rows-draw_footer disp pos t ∙ f,
        subst
            (λ cols.
              let at = cursor_row_col u (prompt ++ disp) (length prompt + pos) cols in
              IsPlaced (draw_footer u disp pos t) at.0 at.1)
            k placed,
        (
          t.out,
          subst
              (λ cols.
                (draw_footer u disp pos t).out
                ≡ t.out
                  ++ footer_text u (wrap_rows u (prompt ++ disp) cols) (draw_footer u disp pos t))
              k (out-draw_footer u disp pos t),
        ),
      )

  -- On a terminal of more than six rows and at least one column, redrawing the footer of any
  -- editor gives it a divider and as many input rows as the drawn buffer takes, at most five,
  -- fills the terminal from the bottom, and puts the cursor into the input row where the
  -- editor's cursor is in the wrapped text. What is written last is this footer: the divider in its
  -- row, the rows of the wrapped text from the first that is shown, each in its cleared input row,
  -- and the move to the cursor.
  pub redraw_footer-IsPlaced :
      (e : Editor) (s : Screen)
      → max_input_rows + 1 < s.rows
      → 1 ≤ s.cols
      → ((redraw_footer u e s).footer_rows
          ≡ 1 + min max_input_rows (length (wrap_rows u (prompt ++ display_form e.buf) s.cols)))
        × IsPlaced
            (redraw_footer u e s)
            (cursor_row_col u
              (prompt ++ display_form e.buf)
              (length prompt + display_pos e.buf e.pos)
              s.cols).0
            (cursor_row_col u
              (prompt ++ display_form e.buf)
              (length prompt + display_pos e.buf e.pos)
              s.cols).1
        × ((before : List ℕ) × ((redraw_footer u e s).out
              ≡ before
                ++ footer_text u
                    (wrap_rows u (prompt ++ display_form e.buf) s.cols)
                    (redraw_footer u e s)))
  unfolding redraw_footer needed_rows
  redraw_footer-IsPlaced e s r c =
      let disp = display_form e.buf in
      let needed = 1 + min max_input_rows (length (wrap_rows u (prompt ++ disp) s.cols)) in
      let some_row = wrap_rows-some u s.cols (prompt ++ disp) in
      let r' =
        redraw_at s disp (display_pos e.buf e.pos) needed r c (omega (arith, some_row))
          (omega arith) in
      let a = adjust_height_lem needed s in
      elim (Bool-cases (eqb needed s.footer_rows)) [
        | inl e ↦ rw e (r' s (sym ((eqb_iff needed s.footer_rows).0 e)) refl refl)
        | inr e ↦ rw e (r' (adjust_height needed s) a.0 a.1 a.2)
      ]
