-- ===== src/Core/Hub/Session.antt =====
-- core/hub.py: the end of a session and the limit on rounds.
use moot.Common.{
  ◌<>◌, numeral, Bool, true, false, not, ◌&&◌, none, some, List, [], ◌∷◌, leb, all, any, keep,
  is_empty, if◌then◌else◌,
}
use moot.Common.Dict
use moot.Core.Frame.{Record}
use moot.Core.Hub.State.{Hub, Participant, is_observer, roll}
use moot.Core.Hub.Util.{emit_event, number, notify, append_record}

unfoldable pub agents : Hub → List Participant
agents h = keep (λ q. not (is_observer q)) (roll h)

-- all agents finished, and their queues drained
unfoldable pub all_done : List Participant → Bool
all_done qs = not (is_empty qs) && all (λ q. q.finished) qs && all (λ q. is_empty q.queue) qs

-- `q.finished = False` for every agent
unfoldable pub clear_finished : Hub → Hub
clear_finished h = record h {
  participants =
      Dict.map_values (λ q. if is_observer q then q else record q { finished = false })
        h.participants;
}

unfoldable pub end_session : Hub → Hub
unfolding clear_finished
end_session h =
    let told = emit_event "session_done" none (("round", number h.round) ∷ []) h in
    let noted =
      notify "moot" "session_done — all agents finished"
        (record told { session_done_at = some told.clock.wall }) in
    clear_finished (record noted { round = 0 })

unfoldable pub check_session_done : Hub → Hub
unfolding end_session
check_session_done h = if all_done (agents h) then end_session h else h

-- a freeze that nobody can lift is noted
unfoldable pub warn_unattended : Hub → Hub
warn_unattended h =
    if any is_observer (roll h)
    then h
    else append_record (Record.event "freeze_without_observer" h.clock.wall []) h

unfoldable pub freeze_at_limit : Hub → Hub
unfolding warn_unattended
freeze_at_limit h =
    let told =
      emit_event "round_limit" none
        (("round", number h.round) ∷ ("max_rounds", number h.max_rounds) ∷ [])
        (record h { frozen = true }) in
    warn_unattended
      (notify "moot" ("round_limit reached (round " <> numeral h.round <> ") — frozen") told)

unfoldable pub check_round_limit : Hub → Hub
unfolding freeze_at_limit
check_round_limit h = if leb h.max_rounds h.round && not h.frozen then freeze_at_limit h else h
