-- ===== src/Core/Types.antt =====
-- core/types.py: messages and their form on the wire. A timestamp is in milliseconds.
use moot.Common.{ℕ, String, Bool, false, Option, some}
use moot.Common.Int.{ℤ}

pub data State : Type 0 where
  idle busy blocked : State

pub data Addressing : Type 0 where
  direct broadcast overheard : Addressing

pub record Msg : Type 0 where
  pub id : ℕ
  pub sender : String
  pub to : String
  pub kind : String
  pub text : String
  pub ts : ℕ
  pub addressing : Option Addressing
  pub seq : Option ℤ
  pub private : Bool

unfoldable pub tag : Msg → Addressing → Msg
tag m a = record {
  id = m.id;
  sender = m.sender;
  to = m.to;
  kind = m.kind;
  text = m.text;
  ts = m.ts;
  addressing = some a;
  seq = m.seq;
  private = m.private;
}

-- The dictionary of `to_wire`. Its key "private" is there only for a private message, so that
-- field says whether the key is there.
pub record WireMsg : Type 0 where
  pub id : ℕ
  pub from : String
  pub to : String
  pub addressing : Option Addressing
  pub kind : String
  pub text : String
  pub ts : ℕ
  pub seq : Option ℤ
  pub private : Bool

unfoldable pub to_wire : Msg → WireMsg
to_wire m = record {
  id = m.id;
  from = m.sender;
  to = m.to;
  addressing = m.addressing;
  kind = m.kind;
  text = m.text;
  ts = m.ts;
  seq = m.seq;
  private = m.private;
}

-- the tests `addressing == "overheard"` and `state == "idle"`
unfoldable pub is_overheard : Option Addressing → Bool
is_overheard (some overheard) = Bool.true
is_overheard _ = false

unfoldable pub is_idle : State → Bool
is_idle idle = Bool.true
is_idle _ = false

unfoldable pub is_blocked : State → Bool
is_blocked blocked = Bool.true
is_blocked _ = false
