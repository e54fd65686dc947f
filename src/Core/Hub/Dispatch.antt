-- ===== src/Core/Hub/Dispatch.antt =====
-- core/hub.py, `handle`: the dispatch of one inbound frame.
use moot.Common.{ℕ, String, false, none, some, ◌==◌, if◌then◌else◌}
use moot.Common.Dict
use moot.Common.Dict.{Dict}
use moot.Core.Proto.{malformed}
use moot.Core.Proto.Json.{Json}
use moot.Core.Proto.Validate.{validate, ok, raise}
use moot.Core.Hub.State.{Hub, Participant, on}
use moot.Core.Hub.Util.{err_raw}
use moot.Core.Hub.Lifecycle.{disconnect}
use moot.Core.Hub.Say.{text_field, handle_say}
use moot.Core.Hub.Hello.{handle_hello}
use moot.Core.Hub.Control.{handle_state, handle_cmd, handle_roster, opt_seq}

-- any frame is a life sign
unfoldable pub life_sign : Participant → Hub → Hub
life_sign p h = on p.name (λ q. record q { last_rx = h.clock.monotonic; awaiting_pong = false }) h

unfoldable pub handle_registered : ℕ → String → Dict Json → Participant → Hub → Hub
handle_registered c t frame p h =
    if t == "say"
    then handle_say p frame h
    else if t == "state"
    then handle_state p frame h
    else if t == "cmd"
    then handle_cmd p frame h
    else if t == "roster"
    then handle_roster p frame h
    else if t == "bye"
    then disconnect c h
    else h

unfoldable pub handle_valid : ℕ → String → Dict Json → Hub → Hub
unfolding life_sign handle_registered
handle_valid c t frame h =
    if t == "hello"
    then handle_hello c frame h
    else elim (Dict.get (h.connections c).name h.participants) [
      | none ↦ err_raw c malformed "hello expected first" none h
      | some p ↦ handle_registered c t frame p (life_sign p h)
    ]

-- A ValidationError becomes an err frame with the frame's seq, if that is usable.
unfoldable pub handle : ℕ → Dict Json → Hub → Hub
unfolding handle_valid
handle c frame h = elim (validate h.host frame) [
  | raise code detail ↦ err_raw c code detail (opt_seq frame) h
  | ok _ ↦ handle_valid c (text_field h.host "t" frame) frame h
]
