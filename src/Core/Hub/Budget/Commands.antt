-- ===== src/Core/Hub/Budget/Commands.antt =====
-- Reports of a state and commands against the budget of rounds.
use moot.Common.{
  zero, suc, ◌<◌, ◌≡◌, sym, subst, String, true, false, not, ◌||◌, Option, none, some, [], arith,
  ◌==◌, eq_iff, if_intro,
}
use moot.Common.Dict
use moot.Common.Dict.{Dict}
use moot.Common.Int.{pos, negsuc}
use moot.Core.Types.{State, idle, busy, blocked, is_blocked}
use moot.Core.Proto.{forbidden}
use moot.Core.Proto.Json.{Json}
use moot.Core.Proto.Validate.{rounds_ok}
use moot.Core.Frame.{Frame}
use moot.Core.Hub.State.{Hub, Participant, is_observer, live, on}
use moot.Core.Hub.Util.{emit_event, touch_activity}
use moot.Core.Hub.Delivery.{system_message}
use moot.Core.Hub.Say.{text_field}
use moot.Core.Hub.Control.{
  state_of, opt_text, same_detail, report_blocked, clear_blocked, after_report, set_state,
  handle_state, opt_seq, args_of, freeze, resumed_limit, resume, reset, mute, unmute, buffer_goal,
  write_goal, set_goal, run_cmd, handle_cmd,
}
use moot.Core.Hub.Quiet.{send-Quiet, err-Quiet, emit_event-Quiet}
use moot.Core.Hub.Budget.{
  IsWithin, InBudget, Quiet-InBudget, flush_queue-InBudget, budget-system_message,
}

report_blocked-InBudget :
    (p : Participant) (prev : State) (detail : Option String) (h : Hub)
    → InBudget h
    → InBudget (report_blocked p prev detail h)
unfolding report_blocked on
report_blocked-InBudget p prev detail h w =
    if_intro InBudget (not (is_blocked prev) || not (same_detail (live h p).blocked_detail detail))
      (λ _. w) (λ _. w)

after_report-InBudget :
    (p : Participant) (prev s : State) (detail : Option String) (h : Hub)
    → InBudget h
    → InBudget (after_report p prev s detail h)
unfolding after_report clear_blocked on
after_report-InBudget p prev blocked detail h w = report_blocked-InBudget p prev detail h w
after_report-InBudget p prev idle detail h w = flush_queue-InBudget p (clear_blocked p h) w
after_report-InBudget p prev busy detail h w = w

-- A report of a state keeps the hub within its budget.
pub handle_state-InBudget :
    (p : Participant) (frame : Dict Json) (h : Hub) → InBudget h → InBudget (handle_state p frame h)
unfolding handle_state set_state on
handle_state-InBudget p frame h w =
    let s = state_of (text_field h.host "state" frame) in
    after_report-InBudget p (live h p).state s (opt_text "detail" frame) (set_state p s h) w

-- A resume adds at least one round to what is left, or starts a fresh budget.
resumed_limit_bound :
    (n : Option Json) (h : Hub)
    → rounds_ok n ≡ true
    → InBudget h
    → (0 < resumed_limit n h) × (h.round < resumed_limit n h)
unfolding rounds_ok resumed_limit
resumed_limit_bound none h e w = (ground (arith, w.fresh, w.some_rounds), ground (arith, w.fresh))
resumed_limit_bound (some (Json.int (pos zero))) h e w = cc
resumed_limit_bound (some (Json.int (pos (suc n)))) h e w = (omega arith, omega arith)
resumed_limit_bound (some (Json.int (negsuc n))) h e w = cc
resumed_limit_bound (some Json.null) h e w = cc
resumed_limit_bound (some (Json.bool b)) h e w = cc
resumed_limit_bound (some (Json.float t)) h e w = cc
resumed_limit_bound (some (Json.str s)) h e w = cc
resumed_limit_bound (some (Json.arr vs)) h e w = cc
resumed_limit_bound (some (Json.obj fs)) h e w = cc

resume-InBudget :
    (args : Dict Json) (h : Hub)
    → rounds_ok (Dict.get "n" args) ≡ true
    → InBudget h
    → InBudget (resume args h)
unfolding resume
resume-InBudget args h e w =
    let (some_rounds, left) = resumed_limit_bound (Dict.get "n" args) h e w in
    Quiet-InBudget
      (emit_event-Quiet "resumed" none _
        (record h { max_rounds = resumed_limit (Dict.get "n" args) h; frozen = false }))
      (record { fresh = w.fresh; some_rounds = some_rounds; left = λ _. left })

announce-InBudget :
    (event : String) (text : String) (h : Hub)
    → InBudget h
    → InBudget (system_message text (emit_event event none [] h))
announce-InBudget event text h w =
    subst IsWithin (sym (budget-system_message text _))
      (Quiet-InBudget (emit_event-Quiet event none [] h) w)

run_cmd-InBudget :
    (cmd : String) (args : Dict Json) (h : Hub)
    → (cmd ≡ "resume" → rounds_ok (Dict.get "n" args) ≡ true)
    → InBudget h
    → InBudget (run_cmd cmd args h)
unfolding run_cmd freeze reset mute unmute set_goal write_goal buffer_goal
run_cmd-InBudget cmd args h e w =
    if_intro InBudget (cmd == "freeze")
      (λ _.
        Quiet-InBudget (emit_event-Quiet "frozen" none _ (record h { frozen = true }))
          (record { fresh = w.fresh; some_rounds = w.some_rounds; left = λ f. cc }))
      (λ _.
        if_intro InBudget (cmd == "resume")
          (λ same. resume-InBudget args h (e ((eq_iff cmd "resume").0 same)) w)
          (λ _.
            if_intro InBudget (cmd == "reset")
              (λ _.
                Quiet-InBudget
                  (emit_event-Quiet "reset" none _ (record h { round = 0; frozen = false }))
                  (record {
                    fresh = w.fresh;
                    some_rounds = w.some_rounds;
                    left = λ f. w.some_rounds;
                  }))
              (λ _.
                if_intro InBudget (cmd == "mute")
                  (λ _. announce-InBudget "muted" _ (record h { muted = true }) w)
                  (λ _.
                    if_intro InBudget (cmd == "goal")
                      (λ _.
                        let text = text_field h.host "text" args in
                        Quiet-InBudget
                          (emit_event-Quiet "goal_set" none _ (record h { goal = text })) w)
                      (λ _.
                        if_intro InBudget (cmd == "unmute")
                          (λ _. announce-InBudget "unmuted" _ (record h { muted = false }) w)
                          (λ _. w))))))

-- A command whose round number is valid keeps the hub within its budget.
pub handle_cmd-InBudget :
    (p : Participant) (frame : Dict Json) (h : Hub)
    → (text_field h.host "cmd" frame ≡ "resume" → rounds_ok (Dict.get "n" (args_of frame)) ≡ true)
    → InBudget h
    → InBudget (handle_cmd p frame h)
unfolding handle_cmd touch_activity
handle_cmd-InBudget p frame h e w =
    if_intro InBudget (is_observer p)
      (λ _.
        let ran = run_cmd (text_field h.host "cmd" frame) (args_of frame) h in
        Quiet-InBudget
          (send-Quiet p (Frame.ok_cmd (opt_seq frame))
            (record ran { last_activity = ran.clock.monotonic; stall_latched = false }))
          (run_cmd-InBudget (text_field h.host "cmd" frame) (args_of frame) h e w))
      (λ _. Quiet-InBudget (err-Quiet p forbidden _ (opt_seq frame) none h) w)
