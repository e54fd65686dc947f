-- ===== src/Core/Proto/Suggest.antt =====
-- core/proto.py, suggest_name.
use moot.Common.{
  ℕ, zero, suc, ◌+◌, ◌-◌, String, ◌<>◌, numeral, Bool, Option, none, some, if◌then◌else◌,
}
use Prim.Native.String.{count}

abbrev pub max_name_len : ℕ
max_name_len = 32

-- `text[:n]`
unfoldable pub take_chars : ℕ → String → String
take_chars zero s = ""
take_chars (suc n) String.[] = ""
take_chars (suc n) (String.◌∷◌ c s) = String.◌∷◌ c (take_chars n s)

unfoldable pub candidate : String → ℕ → String
unfolding take_chars numeral
candidate taken n =
    let suffix = "-" <> numeral n in take_chars (max_name_len - count suffix) taken <> suffix

-- the `while True` loop from `n` on, with fuel: `none` means that the fuel ran out
unfoldable pub suggest_from : ℕ → ℕ → String → (String → Bool) → Option String
suggest_from zero n taken is_free = none
suggest_from (suc fuel) n taken is_free =
    let rest = suggest_from fuel (n + 1) taken is_free in
    if is_free (candidate taken n) then some (candidate taken n) else rest

unfoldable pub suggest_name : ℕ → String → (String → Bool) → Option String
unfolding suggest_from
suggest_name fuel taken is_free = suggest_from fuel 2 taken is_free
