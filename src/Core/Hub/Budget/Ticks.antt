-- ===== src/Core/Hub/Budget/Ticks.antt =====
-- Ticks of the watchdog against the budget of rounds.
use moot.Core.Hub.Budget.Frames.{disconnect-InBudget}
use moot.Common.{◌+◌, ◌-◌, true, not, ◌&&◌, none, List, [], ◌∷◌, ltb, if_intro}
use moot.Core.Types.{is_idle}
use moot.Core.Frame.{Frame}
use moot.Core.Hub.State.{Hub, Participant, is_observer, live, on, roll}
use moot.Core.Hub.Util.{set_idle, member, add}
use moot.Core.Hub.Route.{observer_present}
use moot.Core.Hub.Watchdog.{
  expire_dead, ping_silent, assume_idle, is_overdue, notify_blocked, is_lost, watch, watch_all,
  has_quorum, announce_quorum, check_quorum, is_stalled, check_stall, watchdog_tick,
}
use moot.Core.Hub.Quiet.{alert-Quiet, send-Quiet, emit_event-Quiet, notify-Quiet}
use moot.Core.Hub.Budget.{InBudget, Quiet-InBudget, flush_queue-InBudget}

pub ping_silent-InBudget : (p : Participant) (h : Hub) → InBudget h → InBudget (ping_silent p h)
unfolding ping_silent on
ping_silent-InBudget p h w =
    if_intro InBudget
      (ltb h.config.dead_after (h.clock.monotonic - (live h p).last_rx)
        && not (live h p).awaiting_pong)
      (λ _.
        Quiet-InBudget
          (send-Quiet p Frame.ping (
            on p.name
              (λ q. record q {
                awaiting_pong = true;
                pong_deadline = h.clock.monotonic + h.config.pong_timeout;
              })
              h))
          w)
      (λ _. w)

pub assume_idle-InBudget : (p : Participant) (h : Hub) → InBudget h → InBudget (assume_idle p h)
unfolding assume_idle set_idle on
assume_idle-InBudget p h w =
    if_intro InBudget
      (not (member "idle-events" (live h p).caps)
        && not (is_idle (live h p).state)
        && ltb h.config.assume_idle_after (h.clock.monotonic - (live h p).busy_since))
      (λ _.
        flush_queue-InBudget p _
          (Quiet-InBudget (emit_event-Quiet "stall" none _ (set_idle p h)) w))
      (λ _. w)

pub notify_blocked-InBudget :
    (p : Participant) (h : Hub) → InBudget h → InBudget (notify_blocked p h)
unfolding notify_blocked
notify_blocked-InBudget p h w =
    if_intro InBudget (is_overdue p h)
      (λ _.
        let noted = record h { blocked_notified = add p.name h.blocked_notified } in
        Quiet-InBudget (alert-Quiet "blocked" _ _ noted) w)
      (λ _. w)

pub watch-InBudget : (p : Participant) (h : Hub) → InBudget h → InBudget (watch p h)
unfolding watch
watch-InBudget p h w =
    if_intro InBudget (is_lost p h) (λ _. disconnect-InBudget (live h p).client h w)
      (λ _.
        let pinged = ping_silent-InBudget p h w in
        if_intro InBudget (is_observer p) (λ _. pinged)
          (λ _.
            notify_blocked-InBudget p (assume_idle p (ping_silent p h))
              (assume_idle-InBudget p (ping_silent p h) pinged)))

pub watch_all-InBudget : (ps : List Participant) (h : Hub) → InBudget h → InBudget (watch_all ps h)
unfolding watch_all
watch_all-InBudget [] h w = w
watch_all-InBudget (p ∷ ps) h w = watch_all-InBudget ps (watch p h) (watch-InBudget p h w)

pub check_quorum-InBudget : (h : Hub) → InBudget h → InBudget (check_quorum h)
unfolding check_quorum announce_quorum
check_quorum-InBudget h w =
    if_intro InBudget (has_quorum h)
      (λ _.
        let told =
          Quiet-InBudget (emit_event-Quiet "quorum" none _ (record h { quorum_latched = true }))
            w in
        if_intro InBudget (observer_present none _) (λ _. told)
          (λ _. Quiet-InBudget (notify-Quiet "moot" _ _) told))
      (λ _. w)

pub check_stall-InBudget : (h : Hub) → InBudget h → InBudget (check_stall h)
unfolding check_stall
check_stall-InBudget h w =
    if_intro InBudget (is_stalled h)
      (λ _. Quiet-InBudget (alert-Quiet "stall" _ _ (record h { stall_latched = true })) w) (λ _. w)

-- The same holds of a tick of the watchdog.
pub watchdog_tick-InBudget : (h : Hub) → InBudget h → InBudget (watchdog_tick h)
unfolding watchdog_tick expire_dead
watchdog_tick-InBudget h w =
    let expired = expire_dead h in
    let watched = watch_all (roll expired) expired in
    check_stall-InBudget (check_quorum watched)
      (check_quorum-InBudget watched (watch_all-InBudget (roll expired) expired w))
