-- ===== src/Core/Hub/Lifecycle.antt =====
-- core/hub.py, `disconnect`.
use moot.Common.{ℕ, Option, none, some, [], ◌∷◌, eqb, if◌then◌else◌}
use moot.Common.Dict
use moot.Core.Proto.Json.{Json}
use moot.Core.Server
use moot.Core.Hub.State.{Hub, Participant, at_client}
use moot.Core.Hub.Util.{discard, touch_activity, emit_event}
use moot.Core.Hub.Session.{check_session_done}

-- The registration moves to the dead ones, with its queue and its context.
unfoldable pub bury : Participant → Hub → Hub
bury p h = check_session_done (
    emit_event "peer_left" none (("name", Json.str p.name) ∷ []) (
      touch_activity (record h {
        dead = Dict.put p.name p h.dead;
        participants = Dict.delete p.name h.participants;
        blocked_notified = discard p.name h.blocked_notified;
      })))

-- `p is not None and p.client is client`
unfoldable pub bury_holder : ℕ → Option Participant → Hub → Hub
unfolding bury
bury_holder c none h = h
bury_holder c (some p) h = if eqb p.client c then bury p h else h

unfoldable pub close_client : ℕ → Hub → Hub
close_client c h = at_client c Server.close h

unfoldable pub disconnect : ℕ → Hub → Hub
unfolding bury_holder close_client
disconnect c h = close_client c (bury_holder c (Dict.get (h.connections c).name h.participants) h)
