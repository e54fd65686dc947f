-- ===== src/Core/Frame.antt =====
-- The frames that the hub sends, one constructor for each dictionary that core/hub.py and
-- core/server.py build, and the transcript's records.
use moot.Common.{ℕ, String, Bool, Option, List}
use moot.Common.Dict.{Dict}
use moot.Common.Int.{ℤ}
use moot.Core.Types.{State, WireMsg}
use moot.Core.Proto.{ErrCode}
use moot.Core.Proto.Json.{Json}

pub record Peer : Type 0 where
  pub name : String
  pub kind : String
  pub role : String
  pub state : State

-- one entry of the roster; times in tenths of a second
pub record RosterPeer : Type 0 where
  pub peer : Peer
  pub idle_for : ℕ
  pub busy_for : ℕ
  pub finished : Bool
  pub queued : ℕ
  pub queued_from : List String
  pub dropped : ℕ
  pub context : ℕ
  pub blocked_detail : Option String

pub record Roster : Type 0 where
  pub round : ℕ
  pub max_rounds : ℕ
  pub frozen : Bool
  pub muted : Bool
  pub seq : Option ℤ
  pub goal : Option String
  pub peers : List RosterPeer

pub record Welcome : Type 0 where
  pub name : String
  pub round : ℕ
  pub peers : List Peer
  pub rate : String
  pub max_rounds : ℕ
  pub goal : Option String

pub data Frame : Type 0 where
  welcome : Welcome → Frame
  deliver : (round : ℕ) → List WireMsg → Frame
  ok_say : (id queued : ℕ) → (seq : ℤ) → Frame
  ok_cmd : (seq : Option ℤ) → Frame
  err : ErrCode → (detail : String) → (seq : Option ℤ) → (retry_after : Option ℕ) → Frame
  event : String → Dict Json → Frame
  roster : Roster → Frame
  ping : Frame

-- The records of the transcript.
pub data Record : Type 0 where
  msg : (round : ℕ) → Dict Json → Record
  deliver : (to : String) → (round : ℕ) → (msg_ids overheard : List ℕ) → (ts : ℕ) → Record
  event : String → (ts : ℕ) → Dict Json → Record
