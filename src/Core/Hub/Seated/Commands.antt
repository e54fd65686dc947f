-- ===== src/Core/Hub/Seated/Commands.antt =====
-- Reports of a state, commands and the roster against the registry's invariant.
use moot.Common.{
  ◌≡◌, refl, String, true, false, not, ◌||◌, Option, none, [], ◌∷◌, arith, ◌==◌, if◌then◌else◌,
  if_intro,
}
use moot.Common.Dict
use moot.Common.Dict.{Dict}
use moot.Core.Types.{State, Msg, idle, busy, blocked, tag, overheard, is_blocked, is_overheard}
use moot.Core.Config.{Config}
use moot.Core.Buffer
use moot.Core.Proto.{forbidden}
use moot.Core.Proto.Json.{Json}
use moot.Core.Frame.{Frame}
use moot.Core.Hub.State.{Hub, Participant, is_observer, live}
use moot.Core.Hub.Util.{emit_event, touch_activity}
use moot.Core.Hub.Delivery.{system_message}
use moot.Core.Hub.Say.{text_field}
use moot.Core.Hub.Control.{
  state_of, opt_text, same_detail, report_blocked, clear_blocked, after_report, set_state,
  handle_state, opt_seq, args_of, freeze, resumed_limit, resume, reset, mute, unmute, goal_line,
  buffer_goal, write_goal, set_goal, run_cmd, handle_cmd, handle_roster,
}
use moot.Core.Hub.Quiet.{Quiet, send-Quiet, err-Quiet, emit_event-Quiet}
use moot.Core.Hub.Sound.{IsSane, append-IsSoundBuffer, IsSound}
use moot.Core.Hub.Seated.{IsSeated, Keeps, Quiet-IsSeated, on-IsSeated, all-IsSeated}
use moot.Core.Hub.Seated.Deliver.{same-Keeps, flush_queue-IsSeated, system_message-IsSeated}

report_blocked-IsSeated :
    (p : Participant) (prev : State) (detail : Option String) (h : Hub)
    → IsSeated h
    → IsSeated (report_blocked p prev detail h)
unfolding report_blocked
report_blocked-IsSeated p prev detail h v =
    if_intro IsSeated (not (is_blocked prev) || not (same_detail (live h p).blocked_detail detail))
      (λ _. on-IsSeated p.name _ h (same-Keeps (λ q. refl) (λ q. refl) (λ q. refl) (λ q. refl)) v)
      (λ _. v)

clear_blocked-IsSeated : (p : Participant) (h : Hub) → IsSeated h → IsSeated (clear_blocked p h)
unfolding clear_blocked
clear_blocked-IsSeated p h v =
    on-IsSeated p.name _ h (same-Keeps (λ q. refl) (λ q. refl) (λ q. refl) (λ q. refl)) v

after_report-IsSeated :
    (p : Participant) (prev s : State) (detail : Option String) (h : Hub)
    → IsSeated h
    → IsSeated (after_report p prev s detail h)
unfolding after_report
after_report-IsSeated p prev blocked detail h v = report_blocked-IsSeated p prev detail h v
after_report-IsSeated p prev idle detail h v =
    flush_queue-IsSeated p (clear_blocked p h) (clear_blocked-IsSeated p h v)
after_report-IsSeated p prev busy detail h v = clear_blocked-IsSeated p h v

pub handle_state-IsSeated :
    (p : Participant) (frame : Dict Json) (h : Hub) → IsSeated h → IsSeated (handle_state p frame h)
unfolding handle_state set_state
handle_state-IsSeated p frame h v =
    let s = state_of (text_field h.host "state" frame) in
    after_report-IsSeated p (live h p).state s (opt_text "detail" frame) (set_state p s h)
      (on-IsSeated p.name _ h (same-Keeps (λ q. refl) (λ q. refl) (λ q. refl) (λ q. refl)) v)

goal_line-Keeps :
    (m : Msg) (c : Config)
    → is_overheard m.addressing ≡ true
    → IsSane c
    → Keeps c (λ q. if is_observer q then q else record q { context = Buffer.append q.context m })
goal_line-Keeps m c o sane = record {
  name = λ q. ground arith;
  client = λ q. ground arith;
  sound = λ q s.
      if_intro (IsSound c) (is_observer q) (λ _. s)
        (λ _. record {
          context = append-IsSoundBuffer c.context_cap q.context m sane.context o s.context;
          bounded = s.bounded;
          wakes = s.wakes;
        });
}

set_goal-IsSeated : (text : String) (h : Hub) → IsSeated h → IsSeated (set_goal text h)
unfolding set_goal buffer_goal write_goal tag is_overheard
set_goal-IsSeated text h v =
    let told =
      emit_event "goal_set" none (("text", Json.str text) ∷ []) (record h { goal = text }) in
    let tv = Quiet-IsSeated (emit_event-Quiet "goal_set" none _ (record h { goal = text })) v in
    all-IsSeated _ told
      (goal_line-Keeps (tag (goal_line text told.clock.wall) overheard) told.config refl tv.sane) tv

announce-IsSeated :
    (event : String) (extra : Dict Json) (text : String) (h : Hub)
    → IsSeated h
    → IsSeated (system_message text (emit_event event none extra h))
announce-IsSeated event extra text h v =
    system_message-IsSeated text _ (Quiet-IsSeated (emit_event-Quiet event none extra h) v)

run_cmd-IsSeated :
    (cmd : String) (args : Dict Json) (h : Hub) → IsSeated h → IsSeated (run_cmd cmd args h)
unfolding run_cmd freeze resume reset mute unmute
run_cmd-IsSeated cmd args h v =
    if_intro IsSeated (cmd == "freeze")
      (λ _. Quiet-IsSeated (emit_event-Quiet "frozen" none _ (record h { frozen = true })) v)
      (λ _.
        if_intro IsSeated (cmd == "resume")
          (λ _.
            Quiet-IsSeated
              (emit_event-Quiet "resumed" none _
                (record h { max_rounds = resumed_limit (Dict.get "n" args) h; frozen = false }))
              v)
          (λ _.
            if_intro IsSeated (cmd == "reset")
              (λ _.
                Quiet-IsSeated
                  (emit_event-Quiet "reset" none _ (record h { round = 0; frozen = false })) v)
              (λ _.
                if_intro IsSeated (cmd == "mute")
                  (λ _. announce-IsSeated "muted" [] _ (record h { muted = true }) v)
                  (λ _.
                    if_intro IsSeated (cmd == "goal")
                      (λ _. set_goal-IsSeated (text_field h.host "text" args) h v)
                      (λ _.
                        if_intro IsSeated (cmd == "unmute")
                          (λ _. announce-IsSeated "unmuted" [] _ (record h { muted = false }) v)
                          (λ _. v))))))

pub handle_cmd-IsSeated :
    (p : Participant) (frame : Dict Json) (h : Hub) → IsSeated h → IsSeated (handle_cmd p frame h)
unfolding handle_cmd touch_activity
handle_cmd-IsSeated p frame h v =
    if_intro IsSeated (is_observer p)
      (λ _.
        let ran = run_cmd (text_field h.host "cmd" frame) (args_of frame) h in
        Quiet-IsSeated
          (send-Quiet p (Frame.ok_cmd (opt_seq frame))
            (record ran { last_activity = ran.clock.monotonic; stall_latched = false }))
          (run_cmd-IsSeated (text_field h.host "cmd" frame) (args_of frame) h v))
      (λ _. Quiet-IsSeated (err-Quiet p forbidden _ (opt_seq frame) none h) v)

pub handle_roster-Quiet :
    (p : Participant) (frame : Dict Json) (h : Hub) → Quiet h (handle_roster p frame h)
unfolding handle_roster
handle_roster-Quiet p frame h = send-Quiet p _ h
