-- ===== src/Core/Proto/Validate.antt =====
-- core/proto.py: the validation of inbound frames. A raised ValidationError is `raise`.
pub mod Accepted
use Prim.Native.String.{count}
use moot.Common.{
  ℕ, suc, String, ◌<>◌, numeral, codes, Bool, true, false, not, ◌&&◌, ◌||◌, Option, none, some,
  List, [], ◌∷◌, ◌==◌, ltb, all, any, if◌then◌else◌,
}
use moot.Common.Dict
use moot.Common.Dict.{Dict}
use moot.Common.Int.{ℤ, pos, negsuc}
use moot.Core.Hub.State.{Host}
use moot.Core.Proto.{ErrCode, malformed, proto_mismatch}
use moot.Core.Proto.Json.{Json, entries, elements, is_str}
use moot.Core.Proto.Names.{is_name, is_label_control, control_char_pos}

pub data Check {ℓ} (A : Type ℓ) : Type ℓ where
  ok : A → Check A
  raise : ErrCode → String → Check A

infixl 5 ◌>>=◌ ◌>>◌
abbrev pub ◌>>=◌ {ℓ κ} : {A : Type ℓ} {B : Type κ} → Check A → (A → Check B) → Check B
ok a >>= f = f a
raise code detail >>= f = raise code detail

abbrev pub ◌>>◌ {ℓ} : {B : Type ℓ} → Check (Unit {0}) → Check B → Check B
m >> k = m >>= λ _. k

-- `if test: raise ValidationError(code, detail)`
abbrev pub reject_if : Bool → ErrCode → String → Check (Unit {0})
reject_if true code detail = raise code detail
reject_if false code detail = ok tt

abbrev pub pass : Check (Unit {0})
pass = ok tt

unfoldable pub req_str : Dict Json → String → Check String
req_str frame key = elim (Dict.get key frame) [
  | some (Json.str s) ↦ ok s
  | _ ↦ raise malformed ("missing or non-string field: " <> key)
]

unfoldable pub req_int : Dict Json → String → Check ℤ
req_int frame key = elim (Dict.get key frame) [
  | some (Json.int n) ↦ ok n
  | _ ↦ raise malformed ("missing or non-int field: " <> key)
]

unfoldable pub check_label : String → ℕ → String → Check (Unit {0})
check_label key max_len s = do
  reject_if (ltb max_len (count s)) malformed
      (key <> " exceeds " <> numeral max_len <> " characters")
  reject_if (any is_label_control (codes s)) malformed (key <> " contains control characters")

-- `_opt_str` with _CTRL_LABEL, the only pattern it is called with
unfoldable pub opt_str : Dict Json → String → ℕ → Check (Unit {0})
unfolding check_label
opt_str frame key max_len = elim (Dict.get key frame) [
  | none ↦ pass
  | some Json.null ↦ pass
  | some (Json.str s) ↦ check_label key max_len s
  | some _ ↦ raise malformed (key <> " must be a string")
]

unfoldable pub is_version : ℤ → Bool
is_version (pos (suc ℕ.zero)) = true
is_version _ = false

abbrev pub reserved_names : List String
reserved_names = "*" ∷ "hub" ∷ "system" ∷ []

abbrev bad_room : Host → Json → Check (Unit {0})
bad_room host v = raise malformed ("invalid room: " <> host.repr_value v)

unfoldable pub check_room : Host → Option Json → Check (Unit {0})
check_room host none = pass
check_room host (some Json.null) = pass
check_room host (some (Json.str s)) = if is_name s then pass else bad_room host (Json.str s)
check_room host (some v) = bad_room host v

unfoldable pub caps_ok : Option Json → Bool
caps_ok none = true
caps_ok (some (Json.arr vs)) = all is_str (elements vs)
caps_ok (some _) = false

unfoldable pub validate_hello : Host → Dict Json → Check (Unit {0})
unfolding req_str req_int opt_str is_version check_room caps_ok
validate_hello host frame = do
  proto ← req_int frame "proto"
  reject_if (not (is_version proto)) proto_mismatch "hub speaks proto=1"
  name ← req_str frame "name"
  reject_if (any (λ r. host.casefold name == r) reserved_names || not (is_name name)) malformed
      ("invalid name: " <> host.repr name)
  kind ← req_str frame "kind"
  reject_if (not (is_name kind)) malformed ("invalid kind: " <> host.repr kind)
  check_room host (Dict.get "room" frame)
  reject_if (not (caps_ok (Dict.get "caps" frame))) malformed "caps must be a list of strings"
  opt_str frame "role" 256

abbrev pub say_kinds : List String
say_kinds = "claim" ∷ "question" ∷ "answer" ∷ "result" ∷ "objection" ∷ "done" ∷ "note" ∷ []

abbrev pub is_one_of : List String → String → Bool
is_one_of names s = any (λ n. s == n) names

-- `frame.get("private", False)` must be a boolean
unfoldable pub opt_bool : Dict Json → String → Check Bool
opt_bool frame key = elim (Dict.get key frame) [
  | none ↦ ok false
  | some (Json.bool b) ↦ ok b
  | _ ↦ raise malformed (key <> " must be a boolean")
]

abbrev pub has_control : String → Bool
has_control text = elim (control_char_pos text) [ none ↦ false | some i ↦ true ]

unfoldable pub validate_say : Host → Dict Json → Check (Unit {0})
unfolding req_str req_int opt_bool
validate_say host frame = do
  to ← req_str frame "to"
  reject_if (to == "") malformed "empty recipient"
  kind ← req_str frame "kind"
  reject_if (not (is_one_of say_kinds kind)) malformed ("unknown say kind: " <> host.repr kind)
  text ← req_str frame "text"
  reject_if (has_control text) malformed
      "text contains control characters (only \\t \\n \\r allowed)"
  seq ← req_int frame "seq"
  private ← opt_bool frame "private"
  reject_if (private && (to == "*")) malformed "a private say needs a named recipient"

abbrev pub states : List String
states = "idle" ∷ "busy" ∷ "blocked" ∷ []

unfoldable pub validate_state : Host → Dict Json → Check (Unit {0})
unfolding req_str opt_str
validate_state host frame = do
  state ← req_str frame "state"
  reject_if (not (is_one_of states state)) malformed ("unknown state: " <> host.repr state)
  opt_str frame "detail" 1024

abbrev pub commands : List String
commands = "freeze" ∷ "resume" ∷ "reset" ∷ "mute" ∷ "unmute" ∷ "goal" ∷ []

-- `frame.get("args")`: absent or null is no argument at all
unfoldable pub opt_obj : Dict Json → Check (Dict Json)
opt_obj frame = elim (Dict.get "args" frame) [
  | none ↦ ok []
  | some Json.null ↦ ok []
  | some (Json.obj fs) ↦ ok (entries fs)
  | some _ ↦ raise malformed "args must be an object"
]

-- a positive integer, where the key is there
unfoldable pub rounds_ok : Option Json → Bool
rounds_ok none = true
rounds_ok (some (Json.int (pos (suc n)))) = true
rounds_ok (some _) = false

unfoldable pub goal_ok : Host → Option Json → Bool
goal_ok host (some (Json.str s)) = not (host.strip s == "")
goal_ok host _ = false

unfoldable pub seq_ok : Option Json → Bool
seq_ok none = true
seq_ok (some Json.null) = true
seq_ok (some (Json.int n)) = true
seq_ok (some _) = false

unfoldable pub validate_goal : Host → Dict Json → Check (Unit {0})
unfolding goal_ok opt_str
validate_goal host args = do
  reject_if (not (goal_ok host (Dict.get "text" args))) malformed "goal needs a non-empty args.text"
  opt_str args "text" 1024

unfoldable pub validate_cmd : Host → Dict Json → Check (Unit {0})
unfolding req_str opt_obj rounds_ok validate_goal seq_ok
validate_cmd host frame = do
  cmd ← req_str frame "cmd"
  reject_if (not (is_one_of commands cmd)) malformed ("unknown command: " <> host.repr cmd)
  args ← opt_obj frame
  reject_if ((cmd == "resume") && not (rounds_ok (Dict.get "n" args))) malformed
      "args.n must be a positive integer"
  if cmd == "goal" then validate_goal host args else pass
  reject_if (not (seq_ok (Dict.get "seq" frame))) malformed "seq must be an integer"

unfoldable pub validate_type : Host → String → Dict Json → Check (Unit {0})
unfolding validate_hello validate_say validate_state validate_cmd
validate_type host t frame =
    if t == "hello"
    then validate_hello host frame
    else if t == "say"
    then validate_say host frame
    else if t == "state"
    then validate_state host frame
    else if t == "cmd"
    then validate_cmd host frame
    else if is_one_of ("roster" ∷ "bye" ∷ "pong" ∷ []) t
    then pass
    else raise malformed ("unknown frame type: " <> host.repr t)

unfoldable pub validate : Host → Dict Json → Check (Unit {0})
unfolding validate_type
validate host frame = do t ← req_str frame "t"; validate_type host t frame
