-- ===== src/Spoke/Inbox/Clean.antt =====
-- Text without carriage returns, which the text mode of a file leaves as it is.
use moot.Common.{
  ℕ, ◌≡◌, refl, sym, false, List, [], ◌∷◌, ◌++◌, drop, any, eqb, eqb_iff, arith, Bool-cases, inl,
  inr, zero, suc,
}
use mathlib.Core.Bool.{false≢true}
use moot.Spoke.Terminal.Keys.{unix_lines}

-- No carriage return stands in it.
abbrev pub IsClean : List ℕ → Type 0
IsClean xs = any (eqb 0x0D) xs ≡ false

pub IsClean-append : (xs ys : List ℕ) → IsClean (xs ++ ys) → IsClean xs × IsClean ys
IsClean-append [] ys c = (refl, c)
IsClean-append (x ∷ xs) ys c = elim (Bool-cases (eqb 0x0D x)) [
  | inl e ↦ absurd (false≢true (sym (rw e at c)))
  | inr e ↦ let (here, there) = IsClean-append xs ys (rw e at c) in (rw e here, there)
]

pub IsClean-drop : (n : ℕ) (xs : List ℕ) → IsClean xs → IsClean (drop n xs)
IsClean-drop zero xs c = c
IsClean-drop (suc n) [] c = c
IsClean-drop (suc n) (x ∷ xs) c = IsClean-drop n xs (IsClean-append (x ∷ []) xs c).1

pub unix_lines-IsClean : (xs : List ℕ) → IsClean xs → unix_lines xs ≡ xs
unfolding unix_lines
unix_lines-IsClean [] c = refl
unix_lines-IsClean (x ∷ []) c = ground (arith, c)
unix_lines-IsClean (x ∷ y ∷ xs) c =
    ground (arith, c, unix_lines-IsClean (y ∷ xs) (IsClean-append (x ∷ []) (y ∷ xs) c).1)

-- A text is clean if its bytes are: the carriage return is a byte of its own.
pub encode-IsClean :
    (encode : List ℕ → List ℕ)
    → ((s t : List ℕ) → encode (s ++ t) ≡ encode s ++ encode t)
    → encode (0x0D ∷ []) ≡ 0x0D ∷ []
    → (text : List ℕ) → IsClean (encode text)
    → IsClean text
encode-IsClean encode joined cr [] c = refl
encode-IsClean encode joined cr (x ∷ xs) c =
    let (here, there) =
      IsClean-append (encode (x ∷ [])) (encode xs) (rw (← joined (x ∷ []) xs) c) in
    elim (Bool-cases (eqb 0x0D x)) [
      | inl e ↦
          let same : 0x0D ≡ x = (eqb_iff 0x0D x).0 e in
          absurd (false≢true (sym (rw (← same, cr) at here)))
      | inr e ↦ rw e (encode-IsClean encode joined cr xs there)
    ]
