-- ===== src/Spoke/Terminal/Width/Drawn.antt =====
-- A text cut to a number of cells, and the form in which the buffer is drawn.
use moot.Common.{
  ℕ, ◌+◌, ◌-◌, ◌≤◌, ◌<◌, ◌≡◌, ◌≢◌, refl, ap, ◌∙◌, sym, List, [], ◌∷◌, ◌++◌, ltb, leb, arith, inl,
  inr, Bool-cases, take, drop, take-append-drop, take-length_append, All, All-append,
}
use mathlib.Core.List.{append_assoc}
use moot.Spoke.Terminal.{Unicode}
use moot.Spoke.Terminal.Width.{
  line_feed, char_width, cell_width, clip_from, clip_cells, ellipsis, display_char, display_form,
  display_pos,
}
use moot.Spoke.Terminal.Width.Laws.{cell_width-append}

module _ (u : Unicode) where
  -- A text that is too wide is cut behind the longest part that leaves a cell for the ellipsis.
  pub record IsCut (text : List ℕ) (cells : ℕ) (clipped : List ℕ) : Type 0 where
    pub kept : List ℕ
    pub next : ℕ
    pub rest : List ℕ
    pub parted : text ≡ kept ++ next ∷ rest
    pub cut : clipped ≡ kept ++ ellipsis ∷ []
    pub fits : cell_width u kept < cells
    pub longest : cells ≤ cell_width u (kept ++ next ∷ [])

  clip_from-cuts :
      (cells used : ℕ) (text : List ℕ)
      → used < cells
      → cells < used + cell_width u text
      → (next : ℕ) × (rest : List ℕ) × (text ≡ clip_from u cells used text ++ next ∷ rest)
        × (used + cell_width u (clip_from u cells used text) < cells)
        × (cells ≤ used + cell_width u (clip_from u cells used text ++ next ∷ []))
  unfolding clip_from cell_width
  clip_from-cuts cells used [] h k = absurd (omega arith)
  clip_from-cuts cells used (ch ∷ text) h k =
      elim (Bool-cases (ltb (cells - 1) (used + char_width u ch))) [
        | inl e ↦ rw e (ch, text, refl, omega arith, ground (arith, e))
        | inr e ↦
            let p =
              clip_from-cuts cells (used + char_width u ch) text (ground (arith, e))
                (omega arith) in
            rw e (p.0, p.1, ap (ch ∷◌) p.2, omega (arith, p.3), omega (arith, p.4))
      ]

  -- A text that fits is kept; any other is cut behind the longest part that leaves a cell for
  -- the ellipsis, or is empty where there is no cell. The result fits, if the ellipsis takes a
  -- cell.
  pub clip_cells_lem :
      (text : List ℕ) (cells : ℕ)
      → char_width u ellipsis ≡ 1
      → (cell_width u (clip_cells u text cells) ≤ cells)
        × (cell_width u text ≤ cells → clip_cells u text cells ≡ text)
        × (cells < cell_width u text → 0 < cells → IsCut text cells (clip_cells u text cells))
  unfolding clip_cells cell_width
  clip_cells_lem text cells one = elim (Bool-cases (leb (cell_width u text) cells)) [
    | inl e ↦ rw e (ground (arith, e), λ h. refl, λ h k. absurd (ground (arith, e)))
    | inr e ↦ rw e (elim (Bool-cases (leb cells 0)) [
      | inl z ↦
          rw z (omega arith, λ h. absurd (ground (arith, e)), λ h k. absurd (ground (arith, z)))
      | inr z ↦
          let p = clip_from-cuts cells 0 text (ground (arith, z)) (ground (arith, e)) in
          rw z (
            omega (arith, cell_width-append u (clip_from u cells 0 text) (ellipsis ∷ []), p.3),
            λ h. absurd (ground (arith, e)),
            λ h k. record {
              kept = clip_from u cells 0 text;
              next = p.0;
              rest = p.1;
              parted = p.2;
              cut = refl;
              fits = omega (arith, p.3);
              longest = omega (arith, p.4);
            },
          )
    ])
  ]

-- Of the control characters only the line feed may reach the terminal.
pub IsSafe : ℕ → Type 0
IsSafe o = (o ≢ line_feed) → (0x20 ≤ o) × (o ≢ 0x7F) × ((0x80 ≤ o) → 0x9F < o)

display_char-IsSafe : (o : ℕ) → All IsSafe (display_char o)
unfolding display_char IsSafe
display_char-IsSafe o = ground arith

display_char-IsSafe_same : (o : ℕ) → IsSafe o → display_char o ≡ o ∷ []
unfolding display_char IsSafe
display_char-IsSafe_same o h = ground arith

display_form-IsSafe : (text : List ℕ) → All IsSafe (display_form text)
unfolding display_form
display_form-IsSafe [] = tt
display_form-IsSafe (ch ∷ text) =
    All-append IsSafe (display_char ch) (display_form text) (display_char-IsSafe ch)
      (display_form-IsSafe text)

display_form-IsSafe_same : (text : List ℕ) → All IsSafe text → display_form text ≡ text
unfolding display_form
display_form-IsSafe_same [] h = refl
display_form-IsSafe_same (ch ∷ text) h =
    rw (display_char-IsSafe_same ch h.0, display_form-IsSafe_same text h.1) refl

display_form-append :
    (xs ys : List ℕ) → display_form (xs ++ ys) ≡ display_form xs ++ display_form ys
unfolding display_form
display_form-append [] ys = refl
display_form-append (ch ∷ xs) ys =
    rw (display_form-append xs ys)
      (sym (append_assoc (display_char ch) (display_form xs) (display_form ys)))

-- What is drawn has no control character but line feeds; a text without them is drawn as it is,
-- so drawing twice is drawing once; and the drawn cursor has before it what is drawn of the text
-- before the cursor.
pub display_form_lem :
    (text : List ℕ) (pos : ℕ)
    → All IsSafe (display_form text)
      × (display_form (display_form text) ≡ display_form text)
      × (take (display_pos text pos) (display_form text) ≡ display_form (take pos text))
unfolding display_pos
display_form_lem text pos = (
  display_form-IsSafe text,
  display_form-IsSafe_same (display_form text) (display_form-IsSafe text),
  rw
      (sym (ap display_form (take-append-drop pos text))
        ∙ display_form-append (take pos text) (drop pos text))
      (take-length_append (display_form (take pos text)) (display_form (drop pos text))),
)
