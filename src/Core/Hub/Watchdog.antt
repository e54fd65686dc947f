-- ===== src/Core/Hub/Watchdog.antt =====
-- core/hub.py, the section `watchdog`. One clock reading serves a whole tick.
use Prim.Native.Nat.{Ordering}
use Prim.Native.String.{compare}
use moot.Common.{
  ◌+◌, ◌-◌, String, ◌<>◌, numeral, join, Bool, true, false, not, ◌&&◌, ◌||◌, Option, none, some,
  List, [], ◌∷◌, map, ◌==◌, ltb, all, keep, is_empty, length, if◌then◌else◌,
}
use moot.Core.Types.{is_idle, is_blocked}
use moot.Core.Proto.Json.{Json}
use moot.Core.Frame.{Frame}
use moot.Core.Hub.State.{Hub, Participant, is_observer, live, on, is_connected, roll}
use moot.Core.Hub.Util.{member, sorted, add, send, emit_event, notify, set_idle}
use moot.Core.Hub.Session.{agents}
use moot.Core.Hub.Delivery.{flush_queue}
use moot.Core.Hub.Lifecycle.{disconnect}
use moot.Core.Hub.Route.{observer_present}

-- dead registrations expire
unfoldable pub expire_dead : Hub → Hub
expire_dead h = record h {
  dead = keep (λ e. not (ltb h.config.dead_ttl (h.clock.monotonic - e.1.last_rx))) h.dead;
}

unfoldable pub ping_silent : Participant → Hub → Hub
ping_silent p h =
    if ltb h.config.dead_after (h.clock.monotonic - (live h p).last_rx)
      && not (live h p).awaiting_pong
    then send p Frame.ping (
        on p.name
          (λ q. record q {
            awaiting_pong = true;
            pong_deadline = h.clock.monotonic + h.config.pong_timeout;
          })
          h)
    else h

unfoldable pub assume_idle : Participant → Hub → Hub
assume_idle p h =
    if not (member "idle-events" (live h p).caps)
      && not (is_idle (live h p).state)
      && ltb h.config.assume_idle_after (h.clock.monotonic - (live h p).busy_since)
    then flush_queue p (
        emit_event "stall" none
          (("detail", Json.str ("no sign of life from " <> p.name <> ", assumed idle")) ∷ [])
          (set_idle p h))
    else h

abbrev detail_text : Option String → String
detail_text none = ""
detail_text (some s) = s

-- blocked for long enough, and not told yet
unfoldable pub is_overdue : Participant → Hub → Bool
is_overdue p h =
    is_blocked (live h p).state
    && elim (live h p).blocked_since [
      | none ↦ false
      | some t ↦ ltb h.config.blocked_after (h.clock.monotonic - t)
    ]
    && not (member p.name h.blocked_notified)

unfoldable pub notify_blocked : Participant → Hub → Hub
unfolding is_overdue
notify_blocked p h =
    if is_overdue p h
    then notify "moot" (p.name <> " blocked: " <> detail_text (live h p).blocked_detail) (
        emit_event "blocked" none
          (("name", Json.str p.name)
            ∷ ("detail", Json.str (detail_text (live h p).blocked_detail))
            ∷ [])
          (record h { blocked_notified = add p.name h.blocked_notified }))
    else h

-- its transport has gone, or its pong is overdue
unfoldable pub is_lost : Participant → Hub → Bool
is_lost p h =
    not (is_connected h (live h p))
    || (live h p).awaiting_pong && ltb (live h p).pong_deadline h.clock.monotonic

unfoldable pub watch : Participant → Hub → Hub
unfolding is_lost ping_silent assume_idle notify_blocked
watch p h =
    if is_lost p h
    then disconnect (live h p).client h
    else if is_observer p
    then ping_silent p h
    else notify_blocked p (assume_idle p (ping_silent p h))

unfoldable pub watch_all : List Participant → Hub → Hub
unfolding watch
watch_all [] h = h
watch_all (p ∷ ps) h = watch_all ps (watch p h)

-- every agent idle with nothing queued
unfoldable pub all_quiet : Hub → Bool
all_quiet h =
    not (is_empty (agents h))
    && all (λ q. is_idle q.state) (agents h)
    && all (λ q. is_empty q.queue) (agents h)

unfoldable pub expected : Hub → List Participant
expected h = keep (λ q. member q.name h.quorum_expected) (agents h)

unfoldable pub has_quorum : Hub → Bool
unfolding all_quiet expected
has_quorum h = all_quiet h && not h.quorum_latched && elim h.last_observer_say [
  | none ↦ false
  | some asked_at ↦ not (is_empty (expected h)) && all (λ q. ltb asked_at q.last_say) (expected h)
]

unfoldable pub announce_quorum : Hub → Hub
announce_quorum h =
    let names = join ", " (sorted (map (λ q. q.name) (expected h))) in
    let told =
      emit_event "quorum" none
        (("detail", Json.str ("every addressed agent has answered — " <> names)) ∷ [])
        (record h { quorum_latched = true }) in
    if observer_present none told
    then told
    else notify "moot" ("quorum — " <> names <> " answered") told

unfoldable pub check_quorum : Hub → Hub
unfolding has_quorum announce_quorum
check_quorum h = if has_quorum h then announce_quorum h else h

unfoldable pub insert_by_name : Participant → List Participant → List Participant
insert_by_name p [] = p ∷ []
insert_by_name p (q ∷ qs) = elim (compare p.name q.name) [
  | Ordering.gt ↦ q ∷ insert_by_name p qs
  | _ ↦ p ∷ q ∷ qs
]

unfoldable pub sort_by_name : List Participant → List Participant
unfolding insert_by_name
sort_by_name [] = []
sort_by_name (p ∷ ps) = insert_by_name p (sort_by_name ps)

abbrev or_dash : String → String
or_dash s = if s == "" then "—" else s

unfoldable pub stall_detail : List Participant → Hub → String
unfolding sort_by_name
stall_detail qs h =
    let unread = join ", " (
      map (λ q. q.name <> " " <> numeral (length q.context.items))
        (keep (λ q. not (is_empty q.context.items)) (sort_by_name qs))) in
    let head = "all agents idle, nothing queued — unread context: " <> or_dash unread in
    let done = sorted (map (λ q. q.name) (keep (λ q. q.finished) qs)) in
    let not_done = sorted (map (λ q. q.name) (keep (λ q. not q.finished) qs)) in
    elim h.session_done_at [
      | some at ↦ head <> "; session done at " <> h.host.time_of_day at
      | none ↦
          head
          <> "; done: "
          <> or_dash (join ", " done)
          <> "; not done: "
          <> or_dash (join ", " not_done)
    ]

unfoldable pub is_stalled : Hub → Bool
unfolding all_quiet
is_stalled h =
    all_quiet h
    && ltb h.config.stall_after (h.clock.monotonic - h.last_activity)
    && not h.stall_latched

unfoldable pub check_stall : Hub → Hub
unfolding is_stalled stall_detail
check_stall h =
    if is_stalled h
    then notify "moot" "stall — all agents idle" (
        emit_event "stall" none (("detail", Json.str (stall_detail (agents h) h)) ∷ [])
          (record h { stall_latched = true }))
    else h

unfoldable pub watchdog_tick : Hub → Hub
unfolding expire_dead watch_all check_quorum check_stall
watchdog_tick h =
    let expired = expire_dead h in check_stall (check_quorum (watch_all (roll expired) expired))
