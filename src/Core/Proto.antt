-- ===== src/Core/Proto.antt =====
-- core/proto.py: the wire protocol.
pub mod Json
pub mod Names
pub mod Suggest
pub mod Validate
use moot.Common.{String}

-- the ERR_ constants
pub data ErrCode : Type 0 where
  proto_mismatch name_taken unknown_recipient rate_limited duplicate frozen : ErrCode
  muted frame_too_large malformed forbidden : ErrCode

abbrev pub system_sender : String
system_sender = "system"

unfoldable pub code_text : ErrCode → String
code_text proto_mismatch = "proto_mismatch"
code_text name_taken = "name_taken"
code_text unknown_recipient = "unknown_recipient"
code_text rate_limited = "rate_limited"
code_text duplicate = "duplicate"
code_text frozen = "frozen"
code_text muted = "muted"
code_text frame_too_large = "frame_too_large"
code_text malformed = "malformed"
code_text forbidden = "forbidden"
