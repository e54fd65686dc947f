-- ===== src/Spoke/Stream.antt =====
-- cli/stream.py: the process that owns the connection of one session. The reader thread and the
-- threads of the control socket take turns; what each does under the lock, or between two points
-- where it blocks, is one event. A connection is a number, and `sent` is what went to each.
pub mod Reconnect
pub mod Slots
pub mod Waits
mod Tests
use Prim.Native.String.{String}
use moot.Common.{
  ◌≡◌, ℕ, zero, suc, ◌+◌, ◌<>◌, Bool, true, false, not, ◌||◌, Option, none, some, List, [], ◌∷◌,
  ◌++◌, ◌==◌, eqb, map, if◌then◌else◌,
}
use moot.Common.Dict
use moot.Common.Dict.{Dict}
use moot.Common.Int.{ℤ, pos}
use moot.Core.Hub.State.{Host}
use moot.Core.Hub.Hello.Backlog.{is_text}
use moot.Core.Proto.Json.{Json}
use moot.Spoke.Render.{render, rejoined_line}

-- what a say waits at: the replies that were put there, oldest first
abbrev pub Slot : Type 0
Slot = List (Dict Json)

-- Where the reader is: at a connection, behind its end with the waiting says still to be failed,
-- between two connections, at a new one with the state that it will replay, live there with the
-- notice still to be made, or done.
pub data Reader : Type 0 where
  pumping leaving retrying : Reader
  adopting : Option (Dict Json) → Reader
  rejoined finished : Reader

pub record Stream : Type 0 where
  pub name : String
  pub kind : String
  pub role : String
  pub conn : ℕ
  pub reader : Reader
  pub closed : Bool
  pub live : Bool
  pub last_state : Option (Dict Json)
  pub pending : List (ℕ × Slot)
  pub seq : ℕ
  pub sent : List (ℕ × Dict Json)
  pub emitted : List String
  pub notices : List String

unfoldable pub new_stream : ℕ → String → String → String → Stream
new_stream conn name kind role = record {
  name = name;
  kind = kind;
  role = role;
  conn = conn;
  reader = pumping;
  closed = false;
  live = true;
  last_state = none;
  pending = [];
  seq = 0;
  sent = [];
  emitted = [];
  notices = [];
}

abbrev pub hub_gone : Dict Json
hub_gone =
    ("t", Json.str "err")
    ∷ ("code", Json.str "hub_unreachable")
    ∷ ("detail", Json.str "the hub is gone — the stream is retrying")
    ∷ []

unfoldable pub send_on : ℕ → Dict Json → Stream → Stream
send_on conn frame s = record s { sent = s.sent ++ (conn, frame) ∷ [] }

-- `slot.put` at one seq
unfoldable pub put_at : ℕ → Dict Json → List (ℕ × Slot) → List (ℕ × Slot)
put_at seq frame [] = []
put_at seq frame ((n, slot) ∷ rest) =
    if eqb n seq then (n, slot ++ frame ∷ []) ∷ rest else (n, slot) ∷ put_at seq frame rest

unfoldable pub put_all : Dict Json → List (ℕ × Slot) → List (ℕ × Slot)
put_all frame [] = []
put_all frame ((n, slot) ∷ rest) = (n, slot ++ frame ∷ []) ∷ put_all frame rest

unfoldable pub slot_of : ℕ → List (ℕ × Slot) → Option Slot
slot_of seq [] = none
slot_of seq ((n, slot) ∷ rest) = if eqb n seq then some slot else slot_of seq rest

unfoldable pub remove : ℕ → List (ℕ × Slot) → List (ℕ × Slot)
remove seq [] = []
remove seq ((n, slot) ∷ rest) = if eqb n seq then rest else (n, slot) ∷ remove seq rest

-- _fail_pending
unfoldable pub fail_pending : Stream → Stream
unfolding put_all
fail_pending s = record s { pending = put_all hub_gone s.pending }

-- `frame.get("seq")`, if it is an integer that a say can have
unfoldable pub seq_of : Dict Json → Option ℕ
seq_of frame = elim (Dict.get "seq" frame) [ some (Json.int (pos n)) ↦ some n | _ ↦ none ]

-- whether the frame went to a waiting say, and the stream after it
unfoldable pub hand_to_waiter : Dict Json → Stream → Bool × Stream
unfolding seq_of slot_of put_at
hand_to_waiter frame s = elim (seq_of frame) [
  | none ↦ (false, s)
  | some n ↦ elim (slot_of n s.pending) [
    | none ↦ (false, s)
    | some slot ↦ (true, record s { pending = put_at n frame s.pending })
  ]
]

abbrev pub pong : Dict Json
pong = ("t", Json.str "pong") ∷ []

-- one frame from the hub; `none` is a frame that cannot be rendered
unfoldable pub pump : Host → Dict Json → Stream → Option Stream
unfolding send_on hand_to_waiter
pump host frame s =
    if is_text "t" "ping" frame
    then some (send_on s.conn pong s)
    else let (handed, t) = hand_to_waiter frame s in
      if handed then some t else elim (render host frame) [
        | none ↦ none
        | some texts ↦ some (record s { emitted = s.emitted ++ texts })
      ]

-- the end of the connection: `live` is cleared, and only then the waiting says are failed
unfoldable pub leave : Stream → Stream
leave s = record s { live = false; reader = leaving }

unfoldable pub give_up_waiting : Stream → Stream
unfolding fail_pending
give_up_waiting s = record (fail_pending s) { reader = retrying }

-- the `finally` of `read_hub`
unfoldable pub finish : Stream → Stream
unfolding fail_pending
finish s = record (fail_pending s) { closed = true; live = false; reader = finished }

unfoldable pub notice : String → Stream → Stream
notice text s = record s { notices = s.notices ++ text ∷ [] }

-- _adopt, first under the lock: the new connection is taken over, and the state is read
unfoldable pub take_over : ℕ → Stream → Stream
take_over conn s = record s { conn = conn; reader = adopting s.last_state }

-- then, if the send does not fail, the state goes to it, and the stream is live; what is reported in
-- between is kept but not sent
unfoldable pub go_live : Option (Dict Json) → Stream → Stream
unfolding send_on
go_live state s =
    let t = record s { live = true; reader = rejoined } in
    elim state as (λ _. Stream) [ none ↦ t | some frame ↦ send_on s.conn frame t ]

-- and last the notice; `none` where the welcome cannot be rendered
unfoldable pub greet : Host → Dict Json → Stream → Option Stream
unfolding notice
greet host welcome s = elim (rejoined_line host (Dict.put "kind" (Json.str s.kind) welcome)) [
  | none ↦ none
  | some text ↦ some (notice text (record s { reader = pumping }))
]

-- Whether an exception, a stop or a spent budget may end the reader where it is.
unfoldable pub may_stop : Reader → Bool
may_stop pumping = false
may_stop leaving = false
may_stop retrying = true
may_stop (adopting state) = true
may_stop rejoined = true
may_stop finished = false

-- _relay_state: the state is kept, and sent where there is a connection that takes it
unfoldable pub relay_state : Bool → Dict Json → Stream → Stream
unfolding send_on
relay_state delivered frame s =
    let t = record s { last_state = some frame } in
    if s.live then if delivered then send_on s.conn frame t else t else t

-- the first part of `_forward_say`, under the lock: a refusal, or a seq with its connection
unfoldable pub begin_say : Stream → Option (ℕ × ℕ) × Stream
begin_say s = if s.closed || not s.live then (none, s) else (
  some (s.seq + 1, s.conn),
  record s { seq = s.seq + 1; pending = s.pending ++ (s.seq + 1, []) ∷ [] },
)

-- the send; where the connection died in between it fails, and the answer is `hub_gone`
unfoldable pub send_say : Bool → ℕ → ℕ → Dict Json → Stream → Stream
unfolding send_on remove
send_say delivered conn seq frame s =
    if delivered
    then send_on conn (Dict.put "seq" (Json.int (pos seq)) frame) s
    else record s { pending = remove seq s.pending }

abbrev pub timed_out : Dict Json
timed_out =
    ("t", Json.str "err")
    ∷ ("code", Json.str "timeout")
    ∷ ("detail", Json.str "the hub did not answer within 10s")
    ∷ []

-- the end of `_forward_say`: the oldest reply in the slot, or after the wait the timeout
unfoldable pub end_say : ℕ → Stream → Dict Json × Stream
unfolding slot_of remove
end_say seq s =
    let t = record s { pending = remove seq s.pending } in
    elim (slot_of seq s.pending) [ some (reply ∷ rest) ↦ (reply, t) | _ ↦ (timed_out, t) ]

-- What a request on the control socket comes to.
pub data Ctl : Type 0 where
  relays : Ctl
  forwards : Ctl
  replies : Dict Json → Ctl

unfoldable pub whoami : Stream → Dict Json
whoami s =
    ("t", Json.str "ok")
    ∷ ("name", Json.str s.name)
    ∷ ("kind", Json.str s.kind)
    ∷ ("role", Json.str s.role)
    ∷ []

-- `{t!r}`, None where the frame has no type
unfoldable pub ctl_refusal : Host → Dict Json → Dict Json
ctl_refusal host frame =
    let t = elim (Dict.get "t" frame) as (λ _. String) [
      | none ↦ "None"
      | some v ↦ host.repr_value v
    ] in
    ("t", Json.str "err")
    ∷ ("code", Json.str "malformed")
    ∷ ("detail", Json.str ("ctl takes say, state and whoami frames, not " <> t))
    ∷ []

unfoldable pub handle_ctl : Host → Dict Json → Stream → Ctl
unfolding whoami ctl_refusal
handle_ctl host frame s =
    if is_text "t" "state" frame
    then relays
    else if is_text "t" "say" frame
    then forwards
    else if is_text "t" "whoami" frame
    then replies (whoami s)
    else replies (ctl_refusal host frame)

-- What may happen next, in whatever order the threads allow.
pub data Step (host : Host) : Stream → Stream → Type 0 where
  reads :
      (frame : Dict Json) (s t : Stream)
      → s.reader ≡ pumping
      → pump host frame s ≡ some t
      → Step host s t
  ends : (s : Stream) → s.reader ≡ pumping → Step host s (leave s)
  fails : (s : Stream) → s.reader ≡ leaving → Step host s (give_up_waiting s)
  rejoins : (conn : ℕ) (s : Stream) → s.reader ≡ retrying → Step host s (take_over conn s)
  replays :
      (state : Option (Dict Json)) (s : Stream)
      → s.reader ≡ adopting state
      → Step host s (go_live state s)
  greets :
      (welcome : Dict Json) (s t : Stream)
      → s.reader ≡ rejoined
      → greet host welcome s ≡ some t
      → Step host s t
  stops : (s : Stream) → may_stop s.reader ≡ true → Step host s (finish s)
  reports :
      (delivered : Bool) (frame : Dict Json) (s : Stream)
      → Step host s (relay_state delivered frame s)
  begins : (s : Stream) → Step host s (begin_say s).1
  transmits :
      (delivered : Bool) (conn seq : ℕ) (frame : Dict Json) (s : Stream)
      → Step host s (send_say delivered conn seq frame s)
  answers : (seq : ℕ) (s : Stream) → Step host s (end_say seq s).1

pub data Runs (host : Host) (start : Stream) : Stream → Type 0 where
  here : Runs host start start
  then_on : (s t : Stream) → Runs host start s → Step host s t → Runs host start t
