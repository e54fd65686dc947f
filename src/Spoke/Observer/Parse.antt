-- ===== src/Spoke/Observer/Parse.antt =====
-- spoke/observer.py: what a typed line means. `strip` and `lstrip` go by the test for spaces.
pub mod Clean
use Prim.Native.Char.{Char, code}
use moot.Common.{
  ℕ, zero, suc, String, ◌<>◌, Bool, true, false, not, ◌&&◌, ◌||◌, Option, none, some, List, [], ◌∷◌,
  ◌++◌, ◌==◌, eqb, if◌then◌else◌,
}
use moot.Common.Dict.{Dict}
use moot.Common.Int.{ℤ}
use moot.Core.Proto.Json.{Json}
use moot.Core.Proto.Validate.{states, say_kinds, is_one_of}

unfoldable pub starts_with : String → String → Bool
starts_with String.[] text = true
starts_with (String.◌∷◌ c prefix) String.[] = false
starts_with (String.◌∷◌ c prefix) (String.◌∷◌ d text) =
    eqb (code c) (code d) && starts_with prefix text

-- `text[n:]`
unfoldable pub after : ℕ → String → String
after zero text = text
after (suc n) String.[] = ""
after (suc n) (String.◌∷◌ c text) = after n text

-- `text.partition(" ")`, without the space
unfoldable pub partition : String → String × String
partition String.[] = ("", "")
partition (String.◌∷◌ c text) =
    let (word, rest) = partition text in
    if eqb (code c) 0x20 then ("", text) else (String.◌∷◌ c word, rest)

unfoldable pub lstrip : (ℕ → Bool) → String → String
lstrip is_space String.[] = ""
lstrip is_space (String.◌∷◌ c text) =
    let rest = lstrip is_space text in if is_space (code c) then rest else String.◌∷◌ c text

unfoldable pub rstrip : (ℕ → Bool) → String → String
rstrip is_space String.[] = ""
rstrip is_space (String.◌∷◌ c text) =
    let rest = rstrip is_space text in
    if is_space (code c) && (rest == "") then "" else String.◌∷◌ c rest

unfoldable pub strip : (ℕ → Bool) → String → String
unfolding lstrip rstrip
strip is_space text = rstrip is_space (lstrip is_space text)

-- the variables of the loop over the prefixes
pub record Prefixes : Type 0 where
  pub text : String
  pub kind : String
  pub to : String
  pub private : Bool
  pub seen_kind : Bool
  pub seen_to : Bool
  pub seen_private : Bool

unfoldable pub private_step : Prefixes → Prefixes
unfolding after
private_step p = record p { text = after 8 p.text; private = true; seen_private = true }

unfoldable pub kind_step : Prefixes → Prefixes
unfolding after partition
kind_step p =
    let (word, rest) = partition (after 1 p.text) in
    record p {
      text = rest;
      kind = if is_one_of say_kinds word then word else p.kind;
      seen_kind = true;
    }

unfoldable pub to_step : Prefixes → Prefixes
unfolding after partition
to_step p =
    let (word, rest) = partition (after 1 p.text) in
    record p { text = rest; to = word; seen_to = true }

unfoldable pub is_private : Prefixes → Bool
unfolding starts_with
is_private p = (p.text == "!private" || starts_with "!private " p.text) && not p.seen_private

unfoldable pub is_kind : Prefixes → Bool
unfolding starts_with
is_kind p = starts_with "!" p.text && not p.seen_kind

unfoldable pub is_to : Prefixes → Bool
unfolding starts_with
is_to p = starts_with "@" p.text && not p.seen_to

unfoldable pub left_stripped : (ℕ → Bool) → Prefixes → Prefixes
unfolding lstrip
left_stripped is_space p = record p { text = lstrip is_space p.text }

-- one turn of the loop, `none` at the `break`
unfoldable pub prefix_step : (ℕ → Bool) → Prefixes → Option Prefixes
unfolding is_private is_kind is_to
prefix_step is_space p =
    if is_private p
    then some (left_stripped is_space (private_step p))
    else if is_kind p
    then some (left_stripped is_space (kind_step p))
    else if is_to p
    then some (left_stripped is_space (to_step p))
    else none

-- `while True`: three turns, since each sets one of three flags
unfoldable pub prefixes : (ℕ → Bool) → ℕ → Prefixes → Prefixes
unfolding prefix_step
prefixes is_space zero p = p
prefixes is_space (suc n) p = elim (prefix_step is_space p) [
  | none ↦ p
  | some q ↦ prefixes is_space n q
]

pub record Statement : Type 0 where
  pub to : String
  pub kind : String
  pub text : String
  pub private : Bool

unfoldable pub say_frame : Statement → ℤ → Dict Json
say_frame s seq =
    ("t", Json.str "say")
    ∷ ("to", Json.str s.to)
    ∷ ("kind", Json.str s.kind)
    ∷ ("text", Json.str s.text)
    ∷ ("seq", Json.int seq)
    ∷ (if s.private then ("private", Json.bool true) ∷ [] else [])

-- A say, whose sequence number the caller gives, or a state frame.
pub data Typed : Type 0 where
  typed_say : Statement → Typed
  typed_state : Dict Json → Typed

unfoldable pub state_frame : (ℕ → Bool) → String → String → Dict Json
unfolding strip
state_frame is_space state detail =
    ("t", Json.str "state")
    ∷ ("state", Json.str state)
    ∷ (if detail == "" then [] else ("detail", Json.str (strip is_space detail)) ∷ [])

unfoldable pub no_prefixes : String → Prefixes
no_prefixes text = record {
  text = text;
  kind = "note";
  to = "*";
  private = false;
  seen_kind = false;
  seen_to = false;
  seen_private = false;
}

unfoldable pub say_parsed : (ℕ → Bool) → Prefixes → Statement
unfolding strip
say_parsed is_space p = record {
  to = p.to;
  kind = p.kind;
  text = strip is_space p.text;
  private = p.private;
}

-- `none` for a state that there is not
unfoldable pub parse_outgoing : (ℕ → Bool) → String → Option Typed
unfolding strip starts_with after partition state_frame no_prefixes prefixes say_parsed
parse_outgoing is_space line =
    let text = strip is_space line in
    let (state, detail) = partition (strip is_space (after 6 text)) in
    if starts_with "!state" text
    then if is_one_of states state
      then some (typed_state (state_frame is_space state detail))
      else none
    else some (typed_say (say_parsed is_space (prefixes is_space 3 (no_prefixes text))))
