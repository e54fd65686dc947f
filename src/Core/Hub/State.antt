-- ===== src/Core/Hub/State.antt =====
-- core/hub.py: Participant, the fields of Hub, and what the hub uses from outside. A client is a
-- number, by which `connections` has its state: two names for one object are one number.
use moot.Common.{ℕ, String, Bool, Option, none, some, List, ◌==◌, eqb, if◌then◌else◌}
use moot.Common.Dict
use moot.Common.Dict.{Dict}
use moot.Core.Clock.{Clock}
use moot.Core.Config.{Config}
use moot.Core.Types.{State, Msg}
use moot.Core.Buffer.{ContextBuffer}
use moot.Core.Bucket.{TokenBucket}
use moot.Core.Dedup.{DedupWindow}
use moot.Core.Proto.Json.{Json}
use moot.Core.Frame.{Record}
use moot.Core.Server.{StreamClient}

pub record Participant : Type 0 where
  pub name : String
  pub kind : String
  pub role : String
  pub caps : List String
  pub client : ℕ
  pub context : ContextBuffer
  pub bucket : TokenBucket
  pub dedup : DedupWindow
  pub state : State
  pub queue : List Msg
  pub queue_dropped : ℕ
  pub finished : Bool
  pub last_rx : ℕ
  pub busy_since : ℕ
  pub last_say : ℕ
  pub blocked_since : Option ℕ
  pub blocked_detail : Option String
  pub awaiting_pong : Bool
  pub pong_deadline : ℕ

unfoldable pub is_observer : Participant → Bool
is_observer p = p.kind == "observer"

-- Functions of the Python library: SHA-256 of a text in hexadecimal, `repr` of a string
-- and of any JSON value, `str` of a JSON value that is no string, `str.split` at whitespace, `str.casefold`, `str.strip`, and the
-- local time of day of a wall clock reading.
pub record Host : Type 0 where
  pub sha256_hex : String → String
  pub repr : String → String
  pub repr_value : Json → String
  pub str_of : Json → String
  pub split : String → List String
  pub casefold : String → String
  pub strip : String → String
  pub time_of_day : ℕ → String

-- `notices` is what went to the notifier, title and message, and `goal_file` the text of the
-- file <home>/goal, if it is there.
pub record Hub : Type 0 where
  pub host : Host
  pub config : Config
  pub clock : Clock
  pub transcript : List Record
  pub notices : List (String × String)
  pub goal_file : Option String
  pub connections : ℕ → StreamClient
  pub participants : Dict Participant
  pub dead : Dict Participant
  pub round : ℕ
  pub frozen : Bool
  pub muted : Bool
  pub goal : String
  pub max_rounds : ℕ
  pub last_activity : ℕ
  pub stall_latched : Bool
  pub session_done_at : Option ℕ
  pub last_observer_say : Option ℕ
  pub quorum_expected : List String
  pub quorum_latched : Bool
  pub blocked_notified : List String
  pub msg_counter : ℕ
  pub recent : List (Dict Json)

-- The object that `p` refers to, as it is now.
unfoldable pub live : Hub → Participant → Participant
live h p = elim (Dict.get p.name h.participants) [ none ↦ p | some q ↦ q ]

-- assignments to the fields of a registered participant
unfoldable pub on : String → (Participant → Participant) → Hub → Hub
on name f h = record h { participants = Dict.modify name f h.participants }

-- assignments to the fields of a client, or a call of one of its methods
unfoldable pub at_client : ℕ → (StreamClient → StreamClient) → Hub → Hub
at_client c f h = record h {
  connections = λ k. if eqb k c then f (h.connections k) else h.connections k;
}

unfoldable pub is_connected : Hub → Participant → Bool
is_connected h p = (h.connections p.client).connected

unfoldable pub roll : Hub → List Participant
roll h = Dict.values h.participants
