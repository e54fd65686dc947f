-- ===== src/Core/Hub/Seated/Ticks.antt =====
-- The watchdog against the registry's invariant.
use moot.Common.{◌+◌, refl, true, not, ◌&&◌, none, List, [], ◌∷◌, ltb, if_intro, ◌-◌}
use moot.Common.Dict.{Entries-keep}
use moot.Core.Types.{is_idle}
use moot.Core.Frame.{Frame}
use moot.Core.Hub.State.{Hub, Participant, is_observer, live, roll}
use moot.Core.Hub.Util.{member, set_idle, add}
use moot.Core.Hub.Route.{observer_present}
use moot.Core.Hub.Watchdog.{
  expire_dead, ping_silent, assume_idle, is_overdue, notify_blocked, is_lost, watch, watch_all,
  has_quorum, announce_quorum, check_quorum, is_stalled, check_stall, watchdog_tick,
}
use moot.Core.Hub.Quiet.{alert-Quiet, send-Quiet, emit_event-Quiet, notify-Quiet}
use moot.Core.Hub.Seated.{IsGrave, IsSeated, Quiet-IsSeated, on-IsSeated}
use moot.Core.Hub.Seated.Deliver.{same-Keeps, flush_queue-IsSeated}
use moot.Core.Hub.Seated.Says.{set_idle-IsSeated}
use moot.Core.Hub.Seated.Leaves.{disconnect-IsSeated}

expire_dead-IsSeated : (h : Hub) → IsSeated h → IsSeated (expire_dead h)
unfolding expire_dead
expire_dead-IsSeated h v = record {
  sane = v.sane;
  distinct = v.distinct;
  seats = v.seats;
  graves = Entries-keep (IsGrave h.config) _ h.dead v.graves;
}

ping_silent-IsSeated : (p : Participant) (h : Hub) → IsSeated h → IsSeated (ping_silent p h)
unfolding ping_silent
ping_silent-IsSeated p h v =
    if_intro IsSeated
      (ltb h.config.dead_after (h.clock.monotonic - (live h p).last_rx)
        && not (live h p).awaiting_pong)
      (λ _. Quiet-IsSeated (send-Quiet p Frame.ping _) (
        on-IsSeated p.name
          (λ q. record q {
            awaiting_pong = true;
            pong_deadline = h.clock.monotonic + h.config.pong_timeout;
          })
          h (same-Keeps (λ q. refl) (λ q. refl) (λ q. refl) (λ q. refl)) v))
      (λ _. v)

assume_idle-IsSeated : (p : Participant) (h : Hub) → IsSeated h → IsSeated (assume_idle p h)
unfolding assume_idle
assume_idle-IsSeated p h v =
    if_intro IsSeated
      (not (member "idle-events" (live h p).caps)
        && not (is_idle (live h p).state)
        && ltb h.config.assume_idle_after (h.clock.monotonic - (live h p).busy_since))
      (λ _.
        flush_queue-IsSeated p _ (
          Quiet-IsSeated (emit_event-Quiet "stall" none _ (set_idle p h))
            (set_idle-IsSeated p h v)))
      (λ _. v)

notify_blocked-IsSeated : (p : Participant) (h : Hub) → IsSeated h → IsSeated (notify_blocked p h)
unfolding notify_blocked
notify_blocked-IsSeated p h v =
    if_intro IsSeated (is_overdue p h)
      (λ _.
        let noted = record h { blocked_notified = add p.name h.blocked_notified } in
        Quiet-IsSeated (alert-Quiet "blocked" _ _ noted) v)
      (λ _. v)

watch-IsSeated : (p : Participant) (h : Hub) → IsSeated h → IsSeated (watch p h)
unfolding watch
watch-IsSeated p h v =
    if_intro IsSeated (is_lost p h) (λ _. disconnect-IsSeated (live h p).client h v)
      (λ _.
        let pinged = ping_silent-IsSeated p h v in
        if_intro IsSeated (is_observer p) (λ _. pinged)
          (λ _.
            notify_blocked-IsSeated p (assume_idle p (ping_silent p h))
              (assume_idle-IsSeated p (ping_silent p h) pinged)))

watch_all-IsSeated : (ps : List Participant) (h : Hub) → IsSeated h → IsSeated (watch_all ps h)
unfolding watch_all
watch_all-IsSeated [] h v = v
watch_all-IsSeated (p ∷ ps) h v = watch_all-IsSeated ps (watch p h) (watch-IsSeated p h v)

check_quorum-IsSeated : (h : Hub) → IsSeated h → IsSeated (check_quorum h)
unfolding check_quorum announce_quorum
check_quorum-IsSeated h v =
    if_intro IsSeated (has_quorum h)
      (λ _.
        let told =
          Quiet-IsSeated (emit_event-Quiet "quorum" none _ (record h { quorum_latched = true }))
            v in
        if_intro IsSeated (observer_present none _) (λ _. told)
          (λ _. Quiet-IsSeated (notify-Quiet "moot" _ _) told))
      (λ _. v)

check_stall-IsSeated : (h : Hub) → IsSeated h → IsSeated (check_stall h)
unfolding check_stall
check_stall-IsSeated h v =
    if_intro IsSeated (is_stalled h)
      (λ _. Quiet-IsSeated (alert-Quiet "stall" _ _ (record h { stall_latched = true })) v) (λ _. v)

-- A tick of the watchdog keeps the registry's invariant.
pub watchdog_tick-IsSeated : (h : Hub) → IsSeated h → IsSeated (watchdog_tick h)
unfolding watchdog_tick
watchdog_tick-IsSeated h v =
    let expired = expire_dead h in
    let watched = watch_all (roll expired) expired in
    check_stall-IsSeated (check_quorum watched) (
      check_quorum-IsSeated watched
        (watch_all-IsSeated (roll expired) expired (expire_dead-IsSeated h v)))
