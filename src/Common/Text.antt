-- ===== src/Common/Text.antt =====
-- Text: concatenation, code points, decimal numerals, and `str.join`.
use Prim.Native.Nat.{ℕ, zero, suc, ◌/◌, ◌%◌, ◌≤◌}
use mathlib.Core.Path.{◌≡◌, refl, ap}
use mathlib.Core.Logic.{inl, inr}
use native.Mathlib.Omega.{arith}
use Prim.Native.Char.{code}
use Prim.Native.String
use Prim.Native.String.{String}
use mathlib.Core.Bool.{true, false}
use mathlib.Core.List.{List, [], ◌∷◌, ◌++◌}
use text.Mathlib.TextLemmas.{nil-append, cons-append}
use moot.Common.Tests.{ltb, Bool-cases}
use moot.Common.Lists.{All, All-append}

infixr 65 ◌<>◌
abbrev pub ◌<>◌ : String → String → String
s <> t = String.◌++◌ s t

-- The code points of a text.
unfoldable pub codes : String → List ℕ
codes String.[] = []
codes (String.◌∷◌ c s) = code c ∷ codes s

digit : ℕ → String
digit zero = "0"
digit (suc zero) = "1"
digit (suc (suc zero)) = "2"
digit (suc (suc (suc zero))) = "3"
digit (suc (suc (suc (suc zero)))) = "4"
digit (suc (suc (suc (suc (suc zero))))) = "5"
digit (suc (suc (suc (suc (suc (suc zero)))))) = "6"
digit (suc (suc (suc (suc (suc (suc (suc zero))))))) = "7"
digit (suc (suc (suc (suc (suc (suc (suc (suc zero)))))))) = "8"
digit _ = "9"

numeral_from : ℕ → ℕ → String → String
numeral_from zero n tail = tail
numeral_from (suc fuel) n tail =
    let s = digit (n % 10) <> tail in
    elim (ltb n 10) [ true ↦ s | false ↦ numeral_from fuel (n / 10) s ]

-- `str(n)`: the fuel is more than the number of digits.
unfoldable pub numeral : ℕ → String
unfolding digit numeral_from
numeral n = numeral_from (suc n) n ""

pub codes-append : (s t : String) → codes (s <> t) ≡ codes s ++ codes t
unfolding codes
codes-append String.[] t = rw (nil-append t) refl
codes-append (String.◌∷◌ c s) t = rw (cons-append c s t) (ap (code c ∷◌) (codes-append s t))

-- What holds of the code points of the digits holds of those of a numeral.
module _ (P : ℕ → Type 0) (digits : (d : ℕ) → 48 ≤ d → d ≤ 57 → P d) where
  digit-All : (n : ℕ) → All P (codes (digit n))
  unfolding codes digit
  digit-All zero = (digits 48 (omega arith) (omega arith), tt)
  digit-All (suc zero) = (digits 49 (omega arith) (omega arith), tt)
  digit-All (suc (suc zero)) = (digits 50 (omega arith) (omega arith), tt)
  digit-All (suc (suc (suc zero))) = (digits 51 (omega arith) (omega arith), tt)
  digit-All (suc (suc (suc (suc zero)))) = (digits 52 (omega arith) (omega arith), tt)
  digit-All (suc (suc (suc (suc (suc zero))))) = (digits 53 (omega arith) (omega arith), tt)
  digit-All (suc (suc (suc (suc (suc (suc zero)))))) = (digits 54 (omega arith) (omega arith), tt)
  digit-All (suc (suc (suc (suc (suc (suc (suc zero))))))) =
      (digits 55 (omega arith) (omega arith), tt)
  digit-All (suc (suc (suc (suc (suc (suc (suc (suc zero)))))))) =
      (digits 56 (omega arith) (omega arith), tt)
  digit-All (suc (suc (suc (suc (suc (suc (suc (suc (suc n))))))))) =
      (digits 57 (omega arith) (omega arith), tt)

  numeral_from-All :
      (fuel n : ℕ) (tail : String) → All P (codes tail) → All P (codes (numeral_from fuel n tail))
  unfolding numeral_from
  numeral_from-All zero n tail h = h
  numeral_from-All (suc fuel) n tail h =
      let s = digit (n % 10) <> tail in
      let both : All P (codes s) =
        rw (codes-append (digit (n % 10)) tail) (All-append P _ _ (digit-All (n % 10)) h) in
      elim (Bool-cases (ltb n 10)) [
        | inl e ↦ rw (numeral_from, e) both
        | inr e ↦ rw (numeral_from, e) (numeral_from-All fuel (n / 10) s both)
      ]

  pub numeral-All : (n : ℕ) → All P (codes (numeral n))
  unfolding numeral codes
  numeral-All n = numeral_from-All (suc n) n "" tt

-- `", ".join(parts)`
unfoldable pub join : String → List String → String
join sep [] = ""
join sep (s ∷ []) = s
join sep (s ∷ t ∷ rest) = s <> sep <> join sep (t ∷ rest)
