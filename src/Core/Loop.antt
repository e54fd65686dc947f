-- ===== src/Core/Loop.antt =====
-- core/server.py, the loops around the hub: the read loop of a connection, the writer tasks and the
-- watchdog's loop. One lock makes each of them a step of its own. core/proto.py, parse_line.
pub mod Reachable
pub mod Tests
use moot.Common.{
  ℕ, String, ◌<>◌, numeral, Bool, true, false, not, Option, none, some, List, [], ◌∷◌, ◌==◌,
  if◌then◌else◌,
}
use moot.Common.Dict
use moot.Common.Dict.{Dict}
use moot.Core.Clock.{Clock}
use moot.Core.Proto.{ErrCode, frame_too_large, malformed}
use moot.Core.Proto.Json.{Json, entries}
use moot.Core.Proto.Validate.{Check, ok, raise, ◌>>=◌}
use moot.Core.Frame.{Frame}
use moot.Core.Server
use moot.Core.Hub.State.{Hub, at_client}
use moot.Core.Hub.Util.{err_raw}
use moot.Core.Hub.Lifecycle.{disconnect}
use moot.Core.Hub.Watchdog.{watchdog_tick}
use moot.Core.Hub.Dispatch.{handle}

-- The Python library: decoding of UTF-8, `json.loads` with the text of its error, and the test for
-- a line of white space only.
pub record Decoder : Type 0 where
  pub utf8 : List ℕ → Option String
  pub loads : String → Check Json
  pub is_blank : List ℕ → Bool

unfoldable pub object_of : Json → Check (Dict Json)
object_of (Json.obj fs) = ok (entries fs)
object_of v = raise malformed "frame is not a JSON object"

unfoldable pub parse_line : Decoder → List ℕ → Check (Dict Json)
unfolding object_of
parse_line d line = elim (d.utf8 line) [
  | none ↦ raise malformed "frame is not valid UTF-8"
  | some text ↦ d.loads text >>= object_of
]

-- What a read ends with: a line, the end of the stream, a line beyond the limit, or an OSError.
pub data Input : Type 0 where
  line : List ℕ → Input
  eof : Input
  too_long : Input
  broken : Input

unfoldable pub answer : ℕ → Check (Dict Json) → Hub → Hub × Bool
answer c (raise code detail) h = (err_raw c code detail none h, true)
answer c (ok frame) h = let after = handle c frame h in (after, (after.connections c).connected)

-- One round of the read loop: the hub, and whether the loop goes on.
unfoldable pub read_round : Decoder → ℕ → ℕ → Input → Hub → Hub × Bool
unfolding parse_line answer
read_round d max_bytes c (line bytes) h =
    if d.is_blank bytes then (h, true) else answer c (parse_line d bytes) h
read_round d max_bytes c eof h = (h, false)
read_round d max_bytes c too_long h =
    (err_raw c frame_too_large ("frame exceeds " <> numeral max_bytes <> " bytes") none h, false)
read_round d max_bytes c broken h = (h, false)

-- What can happen to the hub. The end of a read loop is an event of its own: other events come
-- between the last round and the disconnection, and an exception ends a loop too.
pub data Event : Type 0 where
  arrives : ℕ → Input → Event
  ends : ℕ → Event
  writes : ℕ → Event
  write_fails : ℕ → Event
  ticks : Event
  passes : Clock → Event

unfoldable pub step : Decoder → ℕ → Event → Hub → Hub
unfolding read_round
step d max_bytes (arrives c input) h = (read_round d max_bytes c input h).0
step d max_bytes (ends c) h = disconnect c h
step d max_bytes (writes c) h = at_client c Server.write_step h
step d max_bytes (write_fails c) h = at_client c Server.write_failed h
step d max_bytes ticks h = watchdog_tick h
step d max_bytes (passes clock) h = record h { clock = clock }

-- The hubs that any interleaving of events leads to.
pub data Reached (d : Decoder) (max_bytes : ℕ) (start : Hub) : Hub → Type 0 where
  here : Reached d max_bytes start start
  then_on :
      {h : Hub} (e : Event)
      → Reached d max_bytes start h
      → Reached d max_bytes start (step d max_bytes e h)
