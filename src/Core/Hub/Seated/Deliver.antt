-- ===== src/Core/Hub/Seated/Deliver.antt =====
-- Deliveries, flushes, system messages and the end of a session against the registry's invariant.
use moot.Common.{
  ◌+◌, ◌≡◌, refl, String, true, not, ◌&&◌, ◌||◌, none, some, List, [], ◌∷◌, ◌++◌, arith, ◌==◌, any,
  leb, is_empty, if◌then◌else◌, if_intro,
}
use moot.Core.Types.{Msg, is_overheard, is_idle}
use moot.Core.Config.{Config}
use moot.Core.Buffer
use moot.Core.Proto.{system_sender}
use moot.Core.Hub.State.{Hub, Participant, is_observer, live, on, is_connected, roll}
use moot.Core.Hub.Util.{emit_event, notify, touch_activity, number, next_id}
use moot.Core.Hub.Session.{
  agents, all_done, clear_finished, end_session, check_session_done, freeze_at_limit,
  check_round_limit,
}
use moot.Core.Hub.Delivery.{
  enqueue_at, enqueue, set_busy, deliver, slice, send_slice, flush_now, flush_queue, system_note,
  wake_with, wake_or_queue, system_message_to, system_message,
}
use moot.Core.Hub.Quiet.{delivered-Quiet, limit_alert-Quiet, emit_event-Quiet, notify-Quiet}
use moot.Core.Hub.Sound.{
  IsWake, name-enqueue_at, client-enqueue_at, name-slice, client-slice, enqueue_at-IsSound,
  drain-IsSoundBuffer, slice-IsSound,
}
use moot.Core.Hub.Seated.{
  IsSeated, Keeps, IsCurrent, Quiet-IsSeated, on-IsSeated, all-IsSeated, live-IsCurrent,
  assign-IsSeated, context-IsSeated,
}

-- Fields that soundness does not speak of.
pub same-Keeps :
    {c : Config} {f : Participant → Participant}
    → ((p : Participant) → (f p).name ≡ p.name)
    → ((p : Participant) → (f p).client ≡ p.client)
    → ((p : Participant) → (f p).context ≡ p.context)
    → ((p : Participant) → (f p).queue ≡ p.queue)
    → Keeps c f
same-Keeps {c} n k x q = record {
  name = n;
  client = k;
  sound = λ p s. record {
    context = rw (x p) s.context;
    bounded = rw (q p) s.bounded;
    wakes = rw (q p) s.wakes;
  };
}

pub deliver-IsSeated :
    (p : Participant) (msgs : List Msg) (h : Hub) → IsSeated h → IsSeated (deliver p msgs h)
unfolding deliver set_busy touch_activity
deliver-IsSeated p msgs h v =
    let noted = Quiet-IsSeated (delivered-Quiet p _ _ h) v in
    if_intro IsSeated (is_observer p) (λ _. noted)
      (λ _.
        on-IsSeated p.name _ _ (same-Keeps (λ q. refl) (λ q. refl) (λ q. refl) (λ q. refl)) noted)

clear_finished-IsSeated : (h : Hub) → IsSeated h → IsSeated (clear_finished h)
unfolding clear_finished
clear_finished-IsSeated h v =
    all-IsSeated _ h
      (same-Keeps (λ q. ground arith) (λ q. ground arith) (λ q. ground arith) (λ q. ground arith)) v

pub check_session_done-IsSeated : (h : Hub) → IsSeated h → IsSeated (check_session_done h)
unfolding check_session_done end_session
check_session_done-IsSeated h v =
    if_intro IsSeated (all_done (agents h))
      (λ _.
        let told = emit_event "session_done" none (("round", number h.round) ∷ []) h in
        let stamped = record told { session_done_at = some told.clock.wall } in
        let noted = notify "moot" "session_done — all agents finished" stamped in
        clear_finished-IsSeated (record noted { round = 0 })
          (Quiet-IsSeated (notify-Quiet "moot" "session_done — all agents finished" stamped)
            (Quiet-IsSeated (emit_event-Quiet "session_done" none _ h) v)))
      (λ _. v)

pub check_round_limit-IsSeated : (h : Hub) → IsSeated h → IsSeated (check_round_limit h)
unfolding check_round_limit freeze_at_limit
check_round_limit-IsSeated h v =
    if_intro IsSeated (leb h.max_rounds h.round && not h.frozen)
      (λ _. Quiet-IsSeated (limit_alert-Quiet "round_limit" _ _ (record h { frozen = true })) v)
      (λ _. v)

pub enqueue-IsSeated :
    (p : Participant) (m : Msg) (h : Hub) → IsWake m → IsSeated h → IsSeated (enqueue p m h)
unfolding enqueue
enqueue-IsSeated p m h w v =
    on-IsSeated p.name (enqueue_at h.config.queue_cap m) h
      (record {
        name = name-enqueue_at h.config.queue_cap m;
        client = client-enqueue_at h.config.queue_cap m;
        sound = λ q s. enqueue_at-IsSound h.config m q v.sane.queue w s;
      })
      v

send_slice-IsSeated :
    (p : Participant) (wake msgs : List Msg) (h : Hub)
    → IsSeated h
    → IsSeated (send_slice p wake msgs h)
unfolding send_slice
send_slice-IsSeated p wake msgs h v = check_session_done-IsSeated _ (
    if_intro IsSeated (any (λ m. not (m.sender == system_sender)) wake)
      (λ _.
        check_round_limit-IsSeated _ (deliver-IsSeated p msgs (record h { round = h.round + 1 }) v))
      (λ _. deliver-IsSeated p msgs h v))

flush_now-IsSeated :
    (q : Participant) (h : Hub) → IsCurrent h q → IsSeated h → IsSeated (flush_now q h)
unfolding flush_now
flush_now-IsSeated q h cur v =
    let cap = h.config.deliver_wake_cap in
    let after = (slice cap q).2 in
    send_slice-IsSeated q (slice cap q).0 (slice cap q).1 (on q.name (λ _. after) h) (
      assign-IsSeated q after h (name-slice cap q) (client-slice cap q)
        (λ s. (slice-IsSound h.config q v.sane s).0) cur v)

pub flush_queue-IsSeated : (p : Participant) (h : Hub) → IsSeated h → IsSeated (flush_queue p h)
unfolding flush_queue
flush_queue-IsSeated p h v =
    if_intro IsSeated (is_empty (live h p).queue || not (is_connected h (live h p))) (λ _. v)
      (λ _. flush_now-IsSeated (live h p) h (live-IsCurrent h p v) v)

wake_with-IsSeated :
    (q : Participant) (m : Msg) (h : Hub) → IsCurrent h q → IsSeated h → IsSeated (wake_with q m h)
unfolding wake_with
wake_with-IsSeated q m h cur v =
    let (drained, context) = Buffer.drain q.context (some m.id) in
    deliver-IsSeated q (drained ++ m ∷ []) (on q.name (λ r. record r { context = context }) h) (
      context-IsSeated q context h
        (λ s. (drain-IsSoundBuffer h.config.context_cap q.context (some m.id) s.context).0) cur v)

wake_or_queue-IsSeated :
    (p : Participant) (m : Msg) (h : Hub) → IsWake m → IsSeated h → IsSeated (wake_or_queue p m h)
unfolding wake_or_queue
wake_or_queue-IsSeated p m h w v =
    if_intro IsSeated (is_idle (live h p).state && is_connected h (live h p))
      (λ _. wake_with-IsSeated (live h p) m h (live-IsCurrent h p v) v)
      (λ _. enqueue-IsSeated p m h w v)

system_message_to-IsSeated :
    (text : String) (ps : List Participant) (h : Hub)
    → IsSeated h
    → IsSeated (system_message_to text ps h)
unfolding system_message_to next_id is_overheard
system_message_to-IsSeated text [] h v = v
system_message_to-IsSeated text (p ∷ ps) h v =
    let (h', id) = next_id h in
    let note = system_note text id h.clock.wall p.name in
    system_message_to-IsSeated text ps (if is_observer p then h else wake_or_queue p note h')
      (if_intro IsSeated (is_observer p) (λ _. v) (λ _. wake_or_queue-IsSeated p note h' refl v))

pub system_message-IsSeated :
    (text : String) (h : Hub) → IsSeated h → IsSeated (system_message text h)
unfolding system_message
system_message-IsSeated text h v = system_message_to-IsSeated text (roll h) h v
