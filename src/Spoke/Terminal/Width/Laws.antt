-- ===== src/Spoke/Terminal/Width/Laws.antt =====
-- The rows that a text wraps into, and the place of the cursor among them.
use moot.Common.{
  ℕ, ◌+◌, ◌≤◌, ◌<◌, ◌≡◌, ◌∙◌, refl, ap, sym, Bool, not, List, [], ◌∷◌, ◌++◌, ltb, eqb, arith, inl,
  inr, Bool-cases, length, take, drop, take-append-drop, keep, All, All-concat, length-concat,
  if_intro,
}
use mathlib.Core.Path.{ap₂}
use mathlib.Core.List.{append-nil, append_assoc}
use moot.Spoke.Terminal.{Unicode}
use moot.Spoke.Terminal.Width.{
  line_feed, char_width, cell_width, Wrap, break_row, wrap_char, wrap_from, no_rows, all_rows,
  wrap_rows, move_cursor, cursor_from, cursor_row_col,
}

-- A row takes no more cells than the terminal has.
abbrev pub Fits : Unicode → ℕ → List ℕ → Type 0
Fits u width row = cell_width u row ≤ width

pub joined : List (List ℕ) → List ℕ
joined [] = []
joined (row ∷ rows) = row ++ joined rows

joined-snoc : (rows : List (List ℕ)) (row : List ℕ) → joined (rows ++ row ∷ []) ≡ joined rows ++ row
unfolding joined
joined-snoc [] row = append-nil row
joined-snoc (x ∷ rows) row = rw (joined-snoc rows row) (sym (append_assoc x (joined rows) row))

pub not_feed : ℕ → Bool
not_feed ch = not (eqb ch line_feed)

module _ (u : Unicode) where
  pub cell_width-append :
      (xs ys : List ℕ) → cell_width u (xs ++ ys) ≡ cell_width u xs + cell_width u ys
  unfolding cell_width
  cell_width-append [] ys = omega arith
  cell_width-append (x ∷ xs) ys = omega (arith, cell_width-append xs ys)

  char_width-le : (ch : ℕ) → char_width u ch ≤ 2
  unfolding char_width
  char_width-le ch = ground arith

  module _ (width : ℕ) where
    -- Between two characters.
    record IsWrapped (s : Wrap) : Type 0 where
      measured : s.row_width ≡ cell_width u s.row
      above : All (Fits u width) s.rows
      current : Fits u width s.row

    break_row-IsWrapped : (s : Wrap) → IsWrapped s → IsWrapped (break_row s)
    unfolding break_row cell_width
    break_row-IsWrapped s v = record {
      measured = refl;
      above = All-concat (Fits u width) s.rows s.row v.above v.current;
      current = omega arith;
    }

    put-IsWrapped :
        (s : Wrap) (ch : ℕ)
        → s.row_width + char_width u ch ≤ width
        → IsWrapped s
        → IsWrapped (record s { row = s.row ++ ch ∷ []; row_width = s.row_width + char_width u ch })
    unfolding cell_width
    put-IsWrapped s ch h v = record {
      measured = omega (arith, cell_width-append s.row (ch ∷ []), v.measured);
      above = v.above;
      current = omega (arith, cell_width-append s.row (ch ∷ []), v.measured);
    }

    wrap_char-IsWrapped :
        (s : Wrap) (ch : ℕ) → 2 ≤ width → IsWrapped s → IsWrapped (wrap_char u width s ch)
    unfolding wrap_char break_row
    wrap_char-IsWrapped s ch h v =
        if_intro IsWrapped (eqb ch line_feed) (λ _. break_row-IsWrapped s v)
          (λ _. elim (Bool-cases (ltb width (s.row_width + char_width u ch))) [
            | inl e ↦ rw e (
                put-IsWrapped (break_row s) ch (omega (arith, char_width-le ch))
                  (break_row-IsWrapped s v))
            | inr e ↦ rw e (put-IsWrapped s ch (ground (arith, e)) v)
          ])

    wrap_from-IsWrapped :
        (s : Wrap) (text : List ℕ) → 2 ≤ width → IsWrapped s → IsWrapped (wrap_from u width s text)
    unfolding wrap_from
    wrap_from-IsWrapped s [] h v = v
    wrap_from-IsWrapped s (ch ∷ text) h v =
        wrap_from-IsWrapped (wrap_char u width s ch) text h (wrap_char-IsWrapped s ch h v)

    no_rows-IsWrapped : IsWrapped no_rows
    unfolding no_rows cell_width
    no_rows-IsWrapped = record { measured = refl; above = tt; current = omega arith }

    -- What the rows hold, end to end.
    held : Wrap → List ℕ
    held s = joined s.rows ++ s.row

    break_row-held : (s : Wrap) → held (break_row s) ≡ held s
    unfolding held break_row
    break_row-held s = append-nil (joined (s.rows ++ s.row ∷ [])) ∙ joined-snoc s.rows s.row

    wrap_char-held :
        (s : Wrap) (ch : ℕ) → held (wrap_char u width s ch) ≡ held s ++ keep not_feed (ch ∷ [])
    unfolding wrap_char held not_feed
    wrap_char-held s ch = elim (Bool-cases (eqb ch line_feed)) [
      | inl e ↦ rw e (break_row-held s ∙ sym (append-nil (held s)))
      | inr e ↦ rw e (elim (Bool-cases (ltb width (s.row_width + char_width u ch))) [
        | inl o ↦ rw o (ap (λ xs. xs ++ ch ∷ []) (joined-snoc s.rows s.row))
        | inr o ↦ rw o (sym (append_assoc (joined s.rows) s.row (ch ∷ [])))
      ])
    ]

    wrap_from-held :
        (s : Wrap) (text : List ℕ) → held (wrap_from u width s text) ≡ held s ++ keep not_feed text
    unfolding wrap_from
    wrap_from-held s [] = sym (append-nil (held s))
    wrap_from-held s (ch ∷ text) =
        rw (wrap_from-held (wrap_char u width s ch) text, wrap_char-held s ch)
          (elim (Bool-cases (not_feed ch)) [
            | inl e ↦ rw e (append_assoc (held s) (ch ∷ []) (keep not_feed text))
            | inr e ↦ rw e (append_assoc (held s) [] (keep not_feed text))
          ])

    -- The rows of a text fit a terminal of at least two cells, and end to end they are the text
    -- without its line feeds.
    pub wrap_rows_lem :
        (text : List ℕ)
        → 2 ≤ width
        → All (Fits u width) (wrap_rows u text width)
          × (joined (wrap_rows u text width) ≡ keep not_feed text)
    unfolding wrap_rows all_rows no_rows held joined
    wrap_rows_lem text h =
        let s = wrap_from u width no_rows text in
        let v = wrap_from-IsWrapped no_rows text h no_rows-IsWrapped in
        (
          All-concat (Fits u width) s.rows s.row v.above v.current,
          joined-snoc s.rows s.row ∙ wrap_from-held no_rows text,
        )

    pub wrap_rows-some : (text : List ℕ) → 1 ≤ length (wrap_rows u text width)
    unfolding wrap_rows all_rows
    wrap_rows-some text =
        let s = wrap_from u width no_rows text in omega (arith, length-concat s.rows s.row)

    -- The cursor is behind the last character of the last row.
    record IsAt (s : Wrap) (at : ℕ × ℕ) : Type 0 where
      row : at.0 ≡ length s.rows
      col : at.1 ≡ s.row_width

    move_cursor-IsAt :
        (s : Wrap) (at : ℕ × ℕ) (ch : ℕ)
        → IsAt s at
        → IsAt (wrap_char u width s ch) (move_cursor u width at ch)
    unfolding move_cursor wrap_char break_row
    move_cursor-IsAt s (row, col) ch v =
        if_intro (IsAt (wrap_char u width s ch)) (eqb ch line_feed)
          (λ e.
            rw e (record { row = omega (arith, v.row, length-concat s.rows s.row); col = refl }))
          (λ e.
            rw (e, v.col)
              (elim (Bool-cases (ltb width (s.row_width + char_width u ch))) [
                | inl o ↦ rw o (record {
                  row = omega (arith, v.row, length-concat s.rows s.row);
                  col = omega arith;
                })
                | inr o ↦ rw o (record { row = v.row; col = refl })
              ]))

    cursor_from-IsAt :
        (s : Wrap) (at : ℕ × ℕ) (text : List ℕ)
        → IsAt s at
        → IsAt (wrap_from u width s text) (cursor_from u width at text)
    unfolding wrap_from cursor_from
    cursor_from-IsAt s at [] v = v
    cursor_from-IsAt s at (ch ∷ text) v =
        cursor_from-IsAt (wrap_char u width s ch) (move_cursor u width at ch) text
          (move_cursor-IsAt s at ch v)

    wrap_char-grows : (s : Wrap) (ch : ℕ) → length s.rows ≤ length (wrap_char u width s ch).rows
    unfolding wrap_char break_row
    wrap_char-grows s ch = ground (arith, length-concat s.rows s.row)

    wrap_from-grows :
        (s : Wrap) (text : List ℕ) → length s.rows ≤ length (wrap_from u width s text).rows
    unfolding wrap_from
    wrap_from-grows s [] = omega arith
    wrap_from-grows s (ch ∷ text) =
        omega (arith, wrap_char-grows s ch, wrap_from-grows (wrap_char u width s ch) text)

    wrap_from-append :
        (s : Wrap) (xs ys : List ℕ)
        → wrap_from u width s (xs ++ ys) ≡ wrap_from u width (wrap_from u width s xs) ys
    unfolding wrap_from
    wrap_from-append s [] ys = refl
    wrap_from-append s (ch ∷ xs) ys = wrap_from-append (wrap_char u width s ch) xs ys

    wrap_from-take :
        (s : Wrap) (pos : ℕ) (text : List ℕ)
        → length (wrap_from u width s (take pos text)).rows ≤ length (wrap_from u width s text).rows
    wrap_from-take s pos text =
        let more = wrap_from-grows (wrap_from u width s (take pos text)) (drop pos text) in
        rw (← wrap_from-append s (take pos text) (drop pos text), take-append-drop pos text) at more

    -- The cursor stands in the last of the rows that the text before it wraps into, behind that
    -- row's cells; the whole text has a row there, and on a terminal of at least two cells the
    -- column is at most the width.
    pub cursor_row_col_lem :
        (text : List ℕ) (pos : ℕ)
        → 2 ≤ width
        → (above : List (List ℕ)) × (row : List ℕ) × (wrap_rows u (take pos text) width
            ≡ above ++ row ∷ [])
          × (cursor_row_col u text pos width ≡ (length above, cell_width u row))
          × (length above < length (wrap_rows u text width))
          × (cell_width u row ≤ width)
    unfolding cursor_row_col wrap_rows all_rows no_rows
    cursor_row_col_lem text pos h =
        let s = wrap_from u width no_rows (take pos text) in
        let at =
          cursor_from-IsAt no_rows (0, 0) (take pos text) (record { row = refl; col = refl }) in
        let v = wrap_from-IsWrapped no_rows (take pos text) h no_rows-IsWrapped in
        let whole = wrap_from u width no_rows text in
        (
          s.rows,
          s.row,
          refl,
          ap₂ (λ x y. (x, y)) at.row (at.col ∙ v.measured),
          omega (arith, wrap_from-take no_rows pos text, length-concat whole.rows whole.row),
          v.current,
        )
