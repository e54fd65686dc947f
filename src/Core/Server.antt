-- ===== src/Core/Server.antt =====
-- core/server.py, StreamClient: one connection. `queue` holds the frames that wait for the writer
-- task, `written` those handed to the transport; both oldest first. `closing` is
-- `writer.is_closing()`. The transport itself is outside: what it does to the connection is
-- `write_failed`.
pub mod Start
use moot.Common.{
  ℕ, String, Bool, true, false, ◌||◌, List, [], ◌∷◌, ◌++◌, ltb, eqb, length, if◌then◌else◌,
}
use moot.Core.Frame.{Frame}

pub record StreamClient : Type 0 where
  pub name : String
  pub connected : Bool
  pub queue : List Frame
  pub closing : Bool
  pub written : List Frame

abbrev pub new_client : StreamClient
new_client = record { name = ""; connected = true; queue = []; closing = false; written = [] }

unfoldable pub abort : StreamClient → StreamClient
abort c = record c { connected = false; closing = true }

-- `put_nowait`: a queue of size 0 has no limit, and a full one drops the connection
unfoldable pub send : ℕ → Frame → StreamClient → StreamClient
unfolding abort
send queue_max frame c =
    if c.connected
    then (if eqb queue_max 0 || ltb (length c.queue) queue_max
        then record c { queue = c.queue ++ frame ∷ [] }
        else abort c)
    else c

-- one round of the writer task's loop, which runs until the connection is closed
unfoldable pub write_step : StreamClient → StreamClient
write_step c = elim c.queue [
  | [] ↦ c
  | frame ∷ rest ↦
      if c.closing then c else record c { queue = rest; written = c.written ++ frame ∷ [] }
]

-- an OSError in the writer task
unfoldable pub write_failed : StreamClient → StreamClient
unfolding abort
write_failed c = abort c

-- what is still queued goes to the transport first
unfoldable pub close : StreamClient → StreamClient
close c =
    if c.closing
    then record c { connected = false }
    else record c { connected = false; closing = true; queue = []; written = c.written ++ c.queue }

-- every frame that was accepted for this connection
unfoldable pub sent : StreamClient → List Frame
sent c = c.written ++ c.queue
