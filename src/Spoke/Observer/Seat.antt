-- ===== src/Spoke/Observer/Seat.antt =====
-- spoke/observer.py: what the seat knows.
pub mod Lookup
pub mod Laws
use Prim.Native.String.{String}
use moot.Common.{
  ℕ, zero, suc, ◌+◌, ◌-◌, Bool, true, false, not, ◌&&◌, ◌||◌, Option, none, some, List, [], ◌∷◌,
  ◌++◌, ◌==◌, ltb, leb, eqb, length, drop, take_last, keep, any, if◌then◌else◌,
}
use moot.Common.Dict
use moot.Common.Dict.{Dict}
use moot.Common.Int.{ℤ, pos, negsuc}
use moot.Core.Proto.Json.{Json, entries}
use moot.Core.Hub.Util.{sorted}
use moot.Core.Transcript
use moot.Core.Transcript.{Library, Directory, is_msg}
use moot.Spoke.Render.{items, object, is_true}

abbrev pub ring_cap : ℕ
ring_cap = 200

-- A message in the seat's own shape.
pub record Entry : Type 0 where
  pub id : ℕ
  pub sender : String
  pub to : String
  pub kind : String
  pub text : String
  pub ts : Json
  pub private : Bool

-- to, kind, text, private
pub record Echo : Type 0 where
  pub to : String
  pub kind : String
  pub text : String
  pub private : Bool

-- `poll_seq` counts down from 0 in the source: it is kept as the number of polls.
pub record Seat : Type 0 where
  pub me : String
  pub goal : String
  pub pending : List (ℕ × Echo)
  pub ring : List Entry
  pub peers : Dict String
  pub seq : ℕ
  pub polls : ℕ

unfoldable pub new_seat : String → Seat
new_seat me = record { me = me; goal = ""; pending = []; ring = []; peers = []; seq = 0; polls = 0 }

unfoldable pub next_seq : Seat → ℕ × Seat
next_seq s = (s.seq + 1, record s { seq = s.seq + 1 })

-- -1, -2, …
unfoldable pub next_poll_seq : Seat → ℤ × Seat
next_poll_seq s = (negsuc s.polls, record s { polls = s.polls + 1 })

unfoldable pub str_or_empty : Option Json → String
str_or_empty (some (Json.str s)) = s
str_or_empty _ = ""

-- a positive integer
unfoldable pub msg_id : Dict Json → Option ℕ
msg_id m = elim (Dict.get "id" m) [ some (Json.int (pos (suc n))) ↦ some (suc n) | _ ↦ none ]

-- `m[key]`, in fields that hold strings in all that the hub sends and records; `none` is an
-- exception here and below
unfoldable pub str_at : String → Dict Json → Option String
str_at key m = elim (Dict.get key m) [ some (Json.str s) ↦ some s | _ ↦ none ]

-- a number, which a Boolean is too
unfoldable pub stamp : Option Json → Json
stamp (some (Json.float n)) = Json.float n
stamp (some (Json.int n)) = Json.int n
stamp (some (Json.bool b)) = Json.bool b
stamp _ = Json.float 0

unfoldable pub ring_entry : ℕ → Dict Json → Option Entry
unfolding str_at stamp is_true
ring_entry id m = elim (str_at "from" m) [
  | none ↦ none
  | some sender ↦ elim (str_at "to" m) [
    | none ↦ none
    | some to ↦ elim (str_at "kind" m) [
      | none ↦ none
      | some kind ↦ elim (str_at "text" m) [
        | none ↦ none
        | some text ↦ some (record {
          id = id;
          sender = sender;
          to = to;
          kind = kind;
          text = text;
          ts = stamp (Dict.get "ts" m);
          private = is_true (Dict.get "private" m);
        })
      ]
    ]
  ]
]

-- a deque with `maxlen=RING_CAP`
unfoldable pub push : Entry → Seat → Seat
push e s = record s {
  ring = if leb ring_cap (length s.ring) then drop 1 s.ring ++ e ∷ [] else s.ring ++ e ∷ [];
}

-- the messages of a deliver frame, one after the other
unfoldable pub observe_msgs : List Json → Seat → Option Seat
unfolding object msg_id ring_entry push
observe_msgs [] s = some s
observe_msgs (v ∷ vs) s = elim (object v) [
  | none ↦ none
  | some m ↦ elim (msg_id m) [
    | none ↦ observe_msgs vs s
    | some id ↦ elim (ring_entry id m) [ none ↦ none | some e ↦ observe_msgs vs (push e s) ]
  ]
]

-- `{p["name"]: p["kind"] for p in …}`, after what is there, without the name that is left out
unfoldable pub peers_from : Option String → List Json → Dict String → Option (Dict String)
unfolding object str_at
peers_from me [] peers = some peers
peers_from me (v ∷ vs) peers = elim (object v) [
  | none ↦ none
  | some p ↦ elim (str_at "name" p) [
    | none ↦ none
    | some name ↦ elim (elim me as (λ _. Bool) [ none ↦ false | some n ↦ n == name ]) [
      | true ↦ peers_from me vs peers
      | false ↦ elim (str_at "kind" p) [
        | none ↦ none
        | some kind ↦ peers_from me vs (Dict.put name kind peers)
      ]
    ]
  ]
]

unfoldable pub observe_welcome : Dict Json → Seat → Option Seat
unfolding items peers_from str_or_empty
observe_welcome welcome s = elim (items welcome "peers") [
  | none ↦ none
  | some vs ↦ elim (peers_from none vs []) [
    | none ↦ none
    | some peers ↦ some (record s { peers = peers; goal = str_or_empty (Dict.get "goal" welcome) })
  ]
]

unfoldable pub observe_roster : Dict Json → Seat → Option Seat
unfolding items peers_from str_or_empty
observe_roster frame s = elim (items frame "peers") [
  | none ↦ none
  | some vs ↦ elim (peers_from (some s.me) vs []) [
    | none ↦ none
    | some peers ↦ some (record s { peers = peers; goal = str_or_empty (Dict.get "goal" frame) })
  ]
]

unfoldable pub observe_event : Dict Json → Seat → Seat
unfolding str_at str_or_empty
observe_event frame s =
    let event = str_or_empty (Dict.get "event" frame) in
    let named : (String → Seat) → Seat =
      λ f. elim (str_at "name" frame) [ none ↦ s | some n ↦ f n ] in
    if event == "peer_joined"
    then named (λ n. record s { peers = Dict.put n (str_or_empty (Dict.get "kind" frame)) s.peers })
    else if event == "peer_left"
    then named (λ n. record s { peers = Dict.delete n s.peers })
    else if event == "goal_set"
    then record s { goal = str_or_empty (Dict.get "text" frame) }
    else s

unfoldable pub observe : Dict Json → Seat → Option Seat
unfolding observe_msgs observe_event observe_roster str_or_empty items
observe frame s =
    let t = str_or_empty (Dict.get "t" frame) in
    if t == "deliver"
    then elim (items frame "msgs") [ none ↦ none | some vs ↦ observe_msgs vs s ]
    else if t == "event"
    then some (observe_event frame s)
    else if t == "roster"
    then observe_roster frame s
    else some s

unfoldable pub record_own : ℕ → Echo → ℕ → Seat → Seat
unfolding push
record_own id echo now s =
    push
      (record {
        id = id;
        sender = s.me;
        to = echo.to;
        kind = echo.kind;
        text = echo.text;
        ts = Json.float now;
        private = echo.private;
      })
      s
