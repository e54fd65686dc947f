-- ===== src/Spoke/Ctl.antt =====
-- spoke/ctl.py: the control socket of a session, and how a command finds its session. The socket
-- itself, select and the clock are the operating system: what comes of them arrives as values.
pub mod Accept
pub mod Laws
mod Tests
use Prim.Native.String.{String}
use moot.Common.{
  ℕ, ◌+◌, ◌<>◌, Bool, true, false, not, ◌&&◌, Option, none, some, List, [], ◌∷◌, ◌++◌, ◌==◌, leb,
  eqb, is_empty, if◌then◌else◌,
}
use moot.Common.Dict
use moot.Common.Dict.{Dict}
use moot.Core.Proto.Json.{Json, Fields, entries}

-- What `json.loads` makes of a line: an error with its text, or a value.
pub data Loaded : Type 0 where
  broken : String → Loaded
  value : Json → Loaded

-- JSON text and back, `strip`, and UTF-8; `is_json` is whether json.loads takes the bytes.
pub record Place : Type 0 where
  pub loads : String → Loaded
  pub dumps : Dict Json → String
  pub strip : String → String
  pub decode : List ℕ → Option String
  pub is_json : List ℕ → Bool

-- `child` is the operator `/` of pathlib.
unfoldable pub ctl_path : (String → String → String) → String → String → String
ctl_path child home session = child (child home "ctl") (session <> ".sock")

unfoldable pub error_frame : String → String → Dict Json
error_frame code detail =
    ("t", Json.str "err") ∷ ("code", Json.str code) ∷ ("detail", Json.str detail) ∷ []

-- CtlServer._reply; `none` is a handler that raises.
unfoldable pub reply : Place → (Dict Json → Option (Dict Json)) → String → Option (Dict Json)
unfolding error_frame
reply p handler line = elim (p.loads line) [
  | broken detail ↦ some (error_frame "malformed" detail)
  | value (Json.obj fs) ↦ handler (entries fs)
  | value _ ↦ some (error_frame "malformed" "frame is not a JSON object")
]

-- CtlServer._serve_conn: the line that goes back, if one does. The client's line is `none` where it
-- vanished or stalled.
unfoldable pub serve_conn : Place → (Dict Json → Option (Dict Json)) → Option String → Option String
unfolding reply
serve_conn p handler none = none
serve_conn p handler (some line) = elim (reply p handler line) [
  | none ↦ none
  | some frame ↦ some (p.dumps frame <> "\n")
]

-- What comes back on a connection to the socket: nothing in time, an end without a line (or an
-- error of the connection, which is raised as well), or a line.
pub data Line : Type 0 where
  stalled : Line
  hung_up : Line
  answer_line : String → Line

-- The socket of a call: nobody listens there, with the error's text, or what listens answers the
-- line that is sent.
pub data Transport : Type 0 where
  absent : String → Transport
  listening : (String → Line) → Transport

pub data Answer : Type 0 where
  answered : Dict Json → Answer
  raised : Answer

-- the part of `ctl_call` behind the `readline`
unfoldable pub read_answer : Place → String → String → Line → Answer
unfolding error_frame
read_answer p path timeout stalled =
    answered (error_frame "timeout" ("no reply from " <> path <> " within " <> timeout <> "s"))
read_answer p path timeout hung_up = raised
read_answer p path timeout (answer_line line) = elim (p.loads line) [
  | value (Json.obj fs) ↦ answered (entries fs)
  | _ ↦ raised
]

-- `path` and `timeout` as the messages have them
unfoldable pub ctl_call : Place → String → Dict Json → String → Transport → Answer
unfolding error_frame read_answer
ctl_call p path frame timeout (absent detail) =
    answered (error_frame "no_stream" ("no moot stream at " <> path <> " (" <> detail <> ")"))
ctl_call p path frame timeout (listening send) =
    read_answer p path timeout (send (p.dumps frame <> "\n"))

-- Where the accept loop stands: at its test, in `select`, between the second test and `accept`, or
-- behind its `finally`.
pub data Phase : Type 0 where
  testing selecting accepting done : Phase

-- `waking` is a shutdown between its `set` and its `send`, `woken` what was sent on the wake socket,
-- `bound` the socket's file, `accepted` the connections that were taken; `broken` is a `send` to a
-- wake socket whose other end the loop has closed, which raises.
pub record CtlServer : Type 0 where
  pub phase : Phase
  pub closing : Bool
  pub waking : Bool
  pub woken : ℕ
  pub broken : Bool
  pub bound : Bool
  pub accepted : ℕ

abbrev pub new_server : CtlServer
new_server = record {
  phase = testing;
  closing = false;
  waking = false;
  woken = 0;
  broken = false;
  bound = true;
  accepted = 0;
}

-- shutdown up to `set`; its lock keeps a second caller out until the first has sent
unfoldable pub shutdown : CtlServer → CtlServer
shutdown s = if s.closing then s else record s { closing = true; waking = true }

unfoldable pub is_done : Phase → Bool
is_done testing = false
is_done selecting = false
is_done accepting = false
is_done done = true

-- the `send` of the shutdown that is under way
unfoldable pub wake_loop : CtlServer → CtlServer
unfolding is_done
wake_loop s =
    if not s.waking
    then s
    else if is_done s.phase
    then record s { waking = false; broken = true }
    else record s { waking = false; woken = s.woken + 1 }

unfoldable pub finish : CtlServer → CtlServer
finish s = record s { phase = done; bound = false }

-- The loop's next step. `ready` is whether a connection waits at a `select`, which returns for it or
-- for a byte on the wake socket.
unfoldable pub turn : Bool → CtlServer → CtlServer
unfolding finish
turn ready s = elim s.phase [
  | testing ↦ if s.closing then finish s else record s { phase = selecting }
  | selecting ↦
      if not ready && eqb s.woken 0
      then s
      else if s.closing
      then finish s
      else record s { phase = if ready then accepting else testing }
  | accepting ↦ record s { phase = testing; accepted = s.accepted + 1 }
  | done ↦ s
]

-- the loop and whoever calls shutdown, in any order
pub data Event : Type 0 where
  turns : Bool → Event
  shuts : Event
  wakes : Event

unfoldable pub run : List Event → CtlServer → CtlServer
unfolding turn shutdown wake_loop
run [] s = s
run (turns ready ∷ events) s = run events (turn ready s)
run (shuts ∷ events) s = run events (shutdown s)
run (wakes ∷ events) s = run events (wake_loop s)

-- One turn of `_read_hook_json`: the clock, and what came before the deadline, if anything did; an
-- empty chunk is the end of the input.
pub record Turn : Type 0 where
  pub clock : ℕ
  pub chunk : Option (List ℕ)

unfoldable pub bytes_of : Turn → List ℕ
bytes_of t = elim t.chunk [ none ↦ [] | some bytes ↦ bytes ]

-- the bytes that are returned; `none` is a loop that still reads
unfoldable pub read_hook_json : Place → ℕ → List ℕ → List Turn → Option (List ℕ)
read_hook_json p deadline got [] = none
read_hook_json p deadline got (t ∷ ts) =
    let more = got ++ bytes_of t in
    let rest = read_hook_json p deadline more ts in
    if leb deadline t.clock then some got else elim t.chunk [
      | none ↦ some []
      | some bytes ↦ if is_empty bytes then some got else if p.is_json more then some more else rest
    ]

pub data Session : Type 0 where
  session : String → Session
  no_session : Session
  failed : Session

unfoldable pub env_session : Option String → Session
env_session env = elim env [
  | none ↦ no_session
  | some id ↦ if id == "" then no_session else session id
]

-- `session_id` of the hook's JSON
unfoldable pub hook_session : Place → List ℕ → Option String → Session
unfolding env_session
hook_session p bytes env = elim (p.decode bytes) [
  | none ↦ failed
  | some text ↦ if p.strip text == "" then env_session env else elim (p.loads text) [
    | broken detail ↦ failed
    | value (Json.obj fs) ↦ elim (Dict.get "session_id" (entries fs)) [
      | some (Json.str id) ↦ if id == "" then env_session env else session id
      | _ ↦ env_session env
    ]
    | value _ ↦ env_session env
  ]
]

-- `piped` is `read_stdin` with an input that is no terminal.
unfoldable pub resolve_session : Place → Option String → Bool → List ℕ → Option String → Session
unfolding hook_session env_session
resolve_session p explicit piped bytes env =
    let here = if piped then hook_session p bytes env else env_session env in
    elim explicit [ none ↦ here | some id ↦ if id == "" then here else session id ]
