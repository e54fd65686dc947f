-- ===== src/Lib.antt =====
-- The hub of moot, the floor on which agents and observers exchange messages.
--
-- The program is a server with one hub. Spokes connect to it and send frames, one JSON object to a
-- line; the read loop of a connection hands each frame to the hub, a watchdog ticks, and writer
-- tasks carry out what the hub has queued for a connection. One lock makes each of these a step.
--
-- The parts, and the files that model them (paths from the repository's root):
--   Core/Hub          src/moot/core/hub.py. The hub is the record Hub.State.Hub, with a Participant
--                     for each registration; Hub.Hello is handle_hello, Hub.Say is handle_say and
--                     _route_say, Hub.Route its loop over the participants, Hub.Control is
--                     handle_state, handle_cmd and handle_roster, Hub.Delivery is _enqueue, _deliver,
--                     _flush_queue and _system_message, Hub.Session is _check_session_done and
--                     _check_round_limit, Hub.Lifecycle is disconnect, Hub.Watchdog is
--                     watchdog_tick, Hub.Dispatch is handle and Hub.Init the constructor
--   Core/Proto        src/moot/core/proto.py: names, control characters, the validation of frames
--                     and the suggested names
--   Core/Buffer, Core/Bucket, Core/Dedup, Core/Types, Core/Config, Core/Clock
--                     the modules of the same names in src/moot/core
--   Core/Server, Core/Loop
--                     src/moot/core/server.py: StreamClient, and the loops around the hub as events
--                     whose order is free; Server.Start is what serve does to the files of the
--                     home at its start and its stop
--   Core/Frame        the frames that the hub sends and the records that it appends to its transcript
--   Core/Transcript   src/moot/core/transcript.py, over a directory as a function
--   Spoke/Terminal    src/moot/spoke/tui.py: Terminal.Width is the display widths and the wrapping,
--                     Terminal.Editor, History, Keys and Screen the classes Editor, History,
--                     KeyParser and Screen. A text is the list of its code points; the screen keeps
--                     what it has written
--   Spoke/Observer    src/moot/spoke/observer.py: Observer.Parse is parse_outgoing, Observer.Command
--                     build_outgoing and the commands, Observer.Seat and Observer.Pretty the classes
--                     Seat and Pretty, Observer.Status is status_band, Observer.Tui the keys and the
--                     reader of the seat with a terminal. The transcript that a seat
--                     reads is that of Core/Transcript
--   Spoke/Conn, Spoke/Home, Spoke/Ctl
--                     the modules of the same names in src/moot/spoke: the handshake with the hub, the
--                     rendezvous file, the control socket
--   Spoke/Inbox       src/moot/cli/inbox.py: wait and peek, on an inbox that grows while they look and
--                     is read in text mode, so that its line ends become line feeds
--   Spoke/Stream      src/moot/cli/stream.py: Stream is the class of that name, what its threads do
--                     under the lock or between two points where they block as events in any order;
--                     Stream.Reconnect is the loop _reconnect
--   Spoke/Render, Spoke/Brief
--                     the modules of the same names in src/moot/spoke
--
-- How the state corresponds. A function on the hub takes the hub as it is and returns the hub after
-- it. `self.participants` and `self.dead` are association lists in insertion order. A connection is
-- a number, and `connections` gives its StreamClient; a number is not used twice. Where the source
-- holds a reference to a participant, the model looks its name up again (`live`, `on`): a name has
-- one registration at a time. Frames that come in are dictionaries of JSON values, as json.loads
-- makes them; frames that go out are constructors of Frame. Time is in milliseconds; `clock` is the
-- reading of both clocks, one for each step. The token bucket counts tokens as exact fractions where
-- the source has floating point, so no theorem is about the wait that a refusal announces.
--
-- Outside the code, and so parameters: SHA-256, repr and str of values, str.split, str.casefold,
-- str.strip and the local time of day (the record Host); decoding of UTF-8, json.loads and the test
-- for blank lines (the record Decoder); json.loads, json.dumps, str.strip and dates for the
-- transcript (the record Library); unicodedata and str.isspace (the record Unicode), the decoder of
-- UTF-8 for keys (the record Codec), str.isdigit, int, repr and re.compile (the record Python),
-- local times (the record Place), json and str.splitlines for the history (the record Lines); and
-- for the rest of the spokes, in records Place of their own, paths, json, int and what the sockets
-- and the clock bring.
--
-- Fuel: the search for a free name gets one try more than there are names in use; the loop over the
-- prefixes of a typed line gets three turns, one for each flag that it sets; the loop that rejoins
-- the floor gets 122 attempts, which at its waits take longer than its budget.
--
-- Not modelled: the observer without a terminal, the observer's loop around select and its control
-- of the terminal device (src/moot/spoke), the rest of the command line (src/moot/cli),
-- sockets and notifications themselves (the hub's model keeps what it asks for), and the tasks and
-- signals around the server.
mod Common
pub mod Core
pub mod Spoke
