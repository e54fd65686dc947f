-- ===== src/Core/Hub/Budget.antt =====
-- The budget of rounds: what it is, and deliveries against it.
pub mod Ticks
pub mod Says
pub mod Commands
pub mod Frames
use moot.Common.{
  ℕ, ◌+◌, ◌<◌, ◌≤◌, ◌≡◌, refl, sym, ap, ◌∙◌, subst, String, ◌<>◌, Bool, true, false, not, ◌&&◌,
  ◌||◌, Option, none, some, List, [], ◌∷◌, ◌++◌, arith, ◌==◌, leb, any, keep, is_empty,
  if◌then◌else◌, if_intro, Option-cases, inl, inr,
}
use moot.Common.Dict
use moot.Common.Dict.{Dict}
use moot.Core.Types.{Msg, is_idle}
use moot.Core.Config.{Config}
use moot.Core.Buffer
use moot.Core.Proto.{system_sender}
use moot.Core.Proto.Json.{Json}
use moot.Core.Frame.{Frame, Record}
use moot.Core.Hub.State.{Hub, Participant, is_observer, live, on, is_connected, roll}
use moot.Core.Hub.Util.{send, append_record, emit_event, notify, touch_activity, number, next_id}
use moot.Core.Hub.Session.{
  agents, all_done, clear_finished, end_session, check_session_done, freeze_at_limit,
  check_round_limit,
}
use moot.Core.Hub.Delivery.{
  enqueue, set_busy, deliver, slice, send_slice, flush_now, flush_queue, system_note, wake_with,
  wake_or_queue, system_message_to, system_message,
}
use moot.Core.Hub.Quiet.{
  Quiet, Quiet-trans, delivered-Quiet, limit_alert-Quiet, silent, send-Quiet, append_record-Quiet,
  emit_event-Quiet, notify-Quiet, warn_unattended-Quiet,
}

-- What the limit on rounds depends on.
pub record Budget : Type 0 where
  pub round : ℕ
  pub max_rounds : ℕ
  pub initial : ℕ
  pub frozen : Bool

abbrev pub budget : Hub → Budget
budget h = record {
  round = h.round;
  max_rounds = h.max_rounds;
  initial = h.config.initial_max_rounds;
  frozen = h.frozen;
}

pub record IsWithin (b : Budget) : Type 0 where
  pub fresh : 0 < b.initial
  pub some_rounds : 0 < b.max_rounds
  pub left : b.frozen ≡ false → b.round < b.max_rounds

abbrev pub InBudget : Hub → Type 0
InBudget h = IsWithin (budget h)

pub Quiet-budget : {h h' : Hub} → Quiet h h' → budget h' ≡ budget h
Quiet-budget q = ap budget q.same

pub Quiet-InBudget : {h h' : Hub} → Quiet h h' → InBudget h → InBudget h'
Quiet-InBudget q w = subst IsWithin (sym (Quiet-budget q)) w

pub budget-deliver :
    (p : Participant) (msgs : List Msg) (h : Hub) → budget (deliver p msgs h) ≡ budget h
unfolding deliver set_busy touch_activity on
budget-deliver p msgs h =
    let noted = Quiet-budget (delivered-Quiet p _ _ h) in
    if_intro (λ h'. budget h' ≡ budget h) (is_observer p) (λ _. noted) (λ _. noted)

-- Whatever the round is, the check leaves rounds or a frozen hub.
pub check_round_limit-InBudget :
    (h : Hub) → 0 < h.config.initial_max_rounds → 0 < h.max_rounds → InBudget (check_round_limit h)
unfolding check_round_limit freeze_at_limit
check_round_limit-InBudget h fresh some_rounds =
    if_intro InBudget (leb h.max_rounds h.round && not h.frozen)
      (λ _.
        Quiet-InBudget (limit_alert-Quiet "round_limit" _ _ (record h { frozen = true }))
          (record { fresh = fresh; some_rounds = some_rounds; left = λ e. cc }))
      (λ e. record { fresh = fresh; some_rounds = some_rounds; left = λ f. ground arith })

pub check_session_done-InBudget : (h : Hub) → InBudget h → InBudget (check_session_done h)
unfolding check_session_done end_session clear_finished
check_session_done-InBudget h w =
    if_intro InBudget (all_done (agents h))
      (λ _.
        let told = emit_event "session_done" none (("round", number h.round) ∷ []) h in
        let stamped = record told { session_done_at = some told.clock.wall } in
        let noted =
          Quiet-InBudget (notify-Quiet "moot" "session_done — all agents finished" stamped)
            (Quiet-InBudget (emit_event-Quiet "session_done" none _ h) w) in
        record {
          fresh = noted.fresh;
          some_rounds = noted.some_rounds;
          left = λ _. noted.some_rounds;
        })
      (λ _. w)

counted-InBudget :
    (p : Participant) (msgs : List Msg) (h : Hub)
    → InBudget h
    → InBudget (check_round_limit (deliver p msgs (record h { round = h.round + 1 })))
counted-InBudget p msgs h w =
    let e = budget-deliver p msgs (record h { round = h.round + 1 }) in
    check_round_limit-InBudget _ (subst (λ b. 0 < b.initial) (sym e) w.fresh)
      (subst (λ b. 0 < b.max_rounds) (sym e) w.some_rounds)

send_slice-InBudget :
    (p : Participant) (wake msgs : List Msg) (h : Hub)
    → InBudget h
    → InBudget (send_slice p wake msgs h)
unfolding send_slice
send_slice-InBudget p wake msgs h w = check_session_done-InBudget _ (
    if_intro InBudget (any (λ m. not (m.sender == system_sender)) wake)
      (λ _. counted-InBudget p msgs h w) (λ _. subst IsWithin (sym (budget-deliver p msgs h)) w))

flush_now-InBudget : (q : Participant) (h : Hub) → InBudget h → InBudget (flush_now q h)
unfolding flush_now on
flush_now-InBudget q h w =
    let cut = slice h.config.deliver_wake_cap q in
    send_slice-InBudget q cut.0 cut.1 (on q.name (λ _. cut.2) h) w

pub flush_queue-InBudget : (p : Participant) (h : Hub) → InBudget h → InBudget (flush_queue p h)
unfolding flush_queue
flush_queue-InBudget p h w =
    if_intro InBudget (is_empty (live h p).queue || not (is_connected h (live h p))) (λ _. w)
      (λ _. flush_now-InBudget (live h p) h w)

pub budget-wake_or_queue :
    (p : Participant) (m : Msg) (h : Hub) → budget (wake_or_queue p m h) ≡ budget h
unfolding wake_or_queue wake_with enqueue on
budget-wake_or_queue p m h =
    if_intro (λ h'. budget h' ≡ budget h) (is_idle (live h p).state && is_connected h (live h p))
      (λ _. budget-deliver (live h p) _ _) (λ _. refl)

budget-system_message_to :
    (text : String) (ps : List Participant) (h : Hub)
    → budget (system_message_to text ps h) ≡ budget h
unfolding system_message_to next_id
budget-system_message_to text [] h = refl
budget-system_message_to text (p ∷ ps) h =
    budget-system_message_to text ps _
    ∙ if_intro (λ h'. budget h' ≡ budget h) (is_observer p) (λ _. refl)
        (λ _. budget-wake_or_queue p _ _)

pub budget-system_message : (text : String) (h : Hub) → budget (system_message text h) ≡ budget h
unfolding system_message
budget-system_message text h = budget-system_message_to text (roll h) h
