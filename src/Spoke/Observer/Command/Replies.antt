-- ===== src/Spoke/Observer/Command/Replies.antt =====
-- spoke/observer.py: what a typed line comes to, and a say.

use moot.Common.{
  ℕ, String, ◌<>◌, join, Bool, true, false, ◌&&◌, Option, none, some, List, [], ◌∷◌, ◌==◌, ◌⊎◌,
  if◌then◌else◌,
}
use moot.Common.Dict.{Dict}
use moot.Common.Int.{pos}
use moot.Core.Proto.Json.{Json}
use moot.Spoke.Observer.Parse.{starts_with, after, Statement, say_frame}
use moot.Spoke.Observer.Seat.{Echo, Seat, next_seq}
use moot.Spoke.Observer.Seat.Lookup.{Files, known_peer, peer_names}
use moot.Spoke.Observer.Pretty.{Place, Pretty}

-- What the code uses of Python: `repr` of a text, `str.isdigit`, `int` of a text, where `none` is a
-- ValueError, and `re.compile`, the text of its error or what its search finds.
pub record Python : Type 0 where
  pub repr : String → String
  pub is_digit : String → Bool
  pub int_of : String → Option ℕ
  pub compile : String → String ⊎ (String → Bool)

-- What a command reads besides the seat.
pub record World : Type 0 where
  pub python : Python
  pub place : Place
  pub files : Files

pub record Outgoing : Type 0 where
  pub frames : List (Dict Json)
  pub echo : List (ℕ × Echo)
  pub local : List (List ℕ)
  pub error : Option String
  pub ignored : Bool

-- The seat after a line, and the colours that showing messages has given out.
pub record Reply : Type 0 where
  pub out : Outgoing
  pub seat : Seat
  pub pretty : Pretty

unfoldable pub no_outgoing : Outgoing
no_outgoing = record { frames = []; echo = []; local = []; error = none; ignored = false }

unfoldable pub refusal : String → Seat → Pretty → Reply
unfolding no_outgoing
refusal detail s p = record {
  out = record no_outgoing { error = some detail };
  seat = s;
  pretty = p;
}

unfoldable pub sends : List (Dict Json) → List (ℕ × Echo) → Seat → Pretty → Reply
unfolding no_outgoing
sends frames echo s p = record {
  out = record no_outgoing { frames = frames; echo = echo };
  seat = s;
  pretty = p;
}

unfoldable pub shows : List (List ℕ) → Seat → Pretty → Reply
unfolding no_outgoing
shows rows s p = record { out = record no_outgoing { local = rows }; seat = s; pretty = p }

unfoldable pub no_peer : Python → String → Seat → String
no_peer py name s = "[no peer " <> py.repr name <> " — " <> join ", " (peer_names s) <> "]"

unfoldable pub echo_of : Statement → Echo
echo_of s = record { to = s.to; kind = s.kind; text = s.text; private = s.private }

-- a say with the next sequence number
unfoldable pub sends_say : Statement → Seat → Pretty → Reply
unfolding sends echo_of next_seq
sends_say say s p =
    let (seq, t) = next_seq s in sends (say_frame say (pos seq) ∷ []) ((seq, echo_of say) ∷ []) t p

-- _say
unfoldable pub say_outgoing : Python → Statement → Seat → Pretty → Reply
unfolding refusal sends_say no_peer
say_outgoing py say s p =
    if say.text == ""
    then refusal "[empty message — not sent]" s p
    else if say.private && (say.to == "*")
    then refusal "[private needs @name]" s p
    else if known_peer say.to s
    then sends_say say s p
    else refusal (no_peer py say.to s) s p

-- `int(digits) if digits.isdigit() else None`; the outer `none` is a ValueError of `int`
unfoldable pub count_arg : Python → String → Option (Option ℕ)
count_arg py digits = elim (py.is_digit digits) [
  | false ↦ some none
  | true ↦ elim (py.int_of digits) [ none ↦ none | some n ↦ some (some n) ]
]

unfoldable pub msg_id_arg : Python → String → Option (Option ℕ)
unfolding count_arg
msg_id_arg py arg = count_arg py (if starts_with "#" arg then after 1 arg else arg)
