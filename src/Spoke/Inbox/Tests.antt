-- ===== src/Spoke/Inbox/Tests.antt =====
-- The file bridge at concrete inputs.
use Prim.Native.String.{String}
use moot.Common.{
  ℕ, zero, suc, ◌-◌, ◌≡◌, ◌≢◌, refl, sym, ap, codes, false, none, some, List, [], ◌∷◌, ◌==◌, length,
  arith, inl, inr, Bool-cases, eq_iff,
}
use mathlib.Core.Option.{some-injective}
use moot.Core.Proto.Json
use moot.Common.Dict
use moot.Spoke.Observer.Seat.{str_or_empty}
use moot.Spoke.Terminal.Keys.{unix_lines}
use moot.Spoke.Inbox
use moot.Spoke.Inbox.{Bridge, Place, Look, run_wait}
use moot.Spoke.Inbox.Delivered.{IsText, IsDelivered}
use moot.Spoke.Inbox.Laws.{new_bridge, Used, Used-IsDelivered}

-- A number is so many bars and one more, a byte is a character, and every report is taken.
bars : ℕ → String
bars zero = "|"
bars (suc n) = String.◌∷◌ "x" (bars n)

abbrev place : Place
place = record {
  strip = λ s. s;
  int_of = λ s. some (length (codes s) - 1);
  decimal = bars;
  decode = λ bs. some bs;
  encode = λ t. t;
  reply = λ n. ("t", Json.str "ok") ∷ [];
  show_value = λ v. "None";
  rounded = λ n. "1";
}

bars-length : (n : ℕ) → length (codes (bars n)) ≡ suc n
unfolding codes bars
bars-length zero = refl
bars-length (suc n) = ap suc (bars-length n)

bars-inked : (n : ℕ) → (bars n == "") ≡ false
unfolding codes
bars-inked n = elim (Bool-cases (bars n == "")) [
  | inr e ↦ e
  | inl e ↦ absurd (no_bars (ap (λ s. length (codes s)) ((eq_iff (bars n) "").0 e)))
]
  where
    no_bars : length (codes (bars n)) ≢ 0
    no_bars e = omega (arith, bars-length n, e)

place-IsText : IsText place
place-IsText = record {
  decoded = λ bs t e. some-injective t bs (sym e);
  carriage = refl;
  blank = refl;
  joined = λ s t. refl;
  inked = bars-inked;
  reads = λ n. ap some (omega (arith, bars-length n));
}

-- a byte comes before the second look, and another while the command sleeps
abbrev looks : List Look
looks = record { grown = []; clock = 1 } ∷ record { grown = 104 ∷ []; clock = 9 } ∷ []

Used-IsDelivered_example :
    IsDelivered place (run_wait place 0 5 looks (105 ∷ []) (new_bridge none)).1
unfolding Inbox.contents run_wait new_bridge str_or_empty Dict.get
Used-IsDelivered_example =
    Used-IsDelivered place place-IsText (Used.waits 0 5 looks (105 ∷ []) (Used.new none)) refl

-- A line end of CR LF is printed twice: the cursor stays behind what was read.
abbrev look_once : List Look
look_once = record { grown = []; clock = 1 } ∷ []

abbrev after_one : Bridge
after_one = (run_wait place 0 5 look_once [] (new_bridge (some (13 ∷ 10 ∷ [])))).1

printed_twice : (run_wait place 0 5 look_once [] after_one).1.printed ≡ 10 ∷ 10 ∷ []
unfolding run_wait new_bridge str_or_empty Dict.get codes bars unix_lines
printed_twice = refl
