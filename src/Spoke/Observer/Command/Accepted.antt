-- ===== src/Spoke/Observer/Command/Accepted.antt =====
-- The says that the seat sends.

use Prim.Native.String.{count}
use moot.Common.{
  ℕ, zero, suc, ◌≡◌, ◌≢◌, refl, String, codes, numeral, Bool, true, false, not, ◌&&◌, [], ◌∷◌, ◌==◌,
  leb, eq_false_of_ne, if◌then◌else◌, if_intro,
}
use moot.Common.Dict
use moot.Common.Dict.{Dict}
use moot.Common.Int.{ℤ}
use moot.Core.Hub.State.{Host}
use moot.Core.Proto.{malformed}
use moot.Core.Proto.Json.{Json}
use moot.Core.Proto.Names.{control_char_pos}
use moot.Core.Proto.Validate.{
  Check, ok, ◌>>=◌, ◌>>◌, reject_if, validate, validate_type, validate_say, req_str, req_int,
  opt_bool, has_control, is_one_of, say_kinds,
}
use moot.Spoke.Observer.Parse.{Statement, say_frame}
use moot.Spoke.Observer.Parse.Clean.{
  IsClean, control_char_pos-IsClean, IsClean-control_char_pos, append-IsClean, numeral-IsClean,
}
use moot.Spoke.Observer.Seat.{Entry}
use moot.Spoke.Observer.Command.Quote.{excerpt, first_chars, question, quote_excerpt}

-- A say that the hub's validation takes.
pub record IsFair (s : Statement) : Type 0 where
  pub to : s.to ≢ ""
  pub kind : is_one_of say_kinds s.kind ≡ true
  pub text : IsClean s.text
  pub private : (s.private && (s.to == "*")) ≡ false

-- the checks of `validate_say`, one after the other
checked :
    (empty known control star p : Bool) (private : Check Bool) (d1 d2 d3 d4 : String)
    → empty ≡ false
    → known ≡ true
    → control ≡ false
    → private ≡ ok p
    → (p && star) ≡ false
    → (reject_if empty malformed d1
        >> (reject_if (not known) malformed d2
            >> (reject_if control malformed d3
                >> (private >>= λ b. reject_if (b && star) malformed d4))))
      ≡ ok tt
checked empty known control star p private d1 d2 d3 d4 e k c m b = rw (e, k, c, m, b) refl

opt_bool-private : (s : Statement) (n : ℤ) → opt_bool (say_frame s n) "private" ≡ ok s.private
unfolding opt_bool say_frame Dict.get
opt_bool-private s n = go s.private
  where
    go :
        (b : Bool)
        → opt_bool
            (("seq", Json.int n) ∷ (if b then ("private", Json.bool true) ∷ [] else []))
            "private"
          ≡ ok b
    go true = refl
    go false = refl

pub say_frame-valid :
    (host : Host) (s : Statement) (n : ℤ) → IsFair s → validate host (say_frame s n) ≡ ok tt
unfolding validate validate_type validate_say req_str req_int say_frame Dict.get
say_frame-valid host s n v =
    checked (s.to == "") (is_one_of say_kinds s.kind) (has_control s.text) (s.to == "*") s.private
      (opt_bool (say_frame s n) "private") _ _ _ _ (eq_false_of_ne s.to "" v.to) v.kind
      (let clean = IsClean-control_char_pos s.text v.text in rw (has_control, clean) refl)
      (opt_bool-private s n) v.private

first_chars-IsClean : (n : ℕ) (s : String) → IsClean s → IsClean (first_chars n s)
unfolding first_chars IsClean codes
first_chars-IsClean zero s h = tt
first_chars-IsClean (suc n) String.[] h = tt
first_chars-IsClean (suc n) (String.◌∷◌ c s) h = (h.0, first_chars-IsClean n s h.1)

excerpt-IsClean : (s : String) → IsClean s → IsClean (excerpt s)
unfolding excerpt control_char_pos codes
excerpt-IsClean s h =
    if_intro IsClean (leb (count s) quote_excerpt) (λ _. h)
      (λ _.
        append-IsClean (first_chars quote_excerpt s) "…" (first_chars-IsClean quote_excerpt s h)
          (control_char_pos-IsClean "…" refl))

-- A message whose sender and text have no control characters that the hub refuses in a text.
pub record IsCleanEntry (e : Entry) : Type 0 where
  pub sender : IsClean e.sender
  pub text : IsClean e.text

pub question-IsClean :
    (e : Entry) (name human : String)
    → IsCleanEntry e
    → IsClean human
    → IsClean (question e name human).text
unfolding question control_char_pos codes
question-IsClean e name human v h = append-IsClean e.sender _ v.sender (
    append-IsClean " wrote (#" _ (control_char_pos-IsClean " wrote (#" refl) (
      append-IsClean (numeral e.id) _ (numeral-IsClean e.id) (
        append-IsClean "): \"" _ (control_char_pos-IsClean "): \"" refl) (
          append-IsClean (excerpt e.text) _ (excerpt-IsClean e.text v.text)
            (append-IsClean "\"\n" human (control_char_pos-IsClean "\"\n" refl) h)))))
