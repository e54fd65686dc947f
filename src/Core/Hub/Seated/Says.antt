-- ===== src/Core/Hub/Seated/Says.antt =====
-- Says against the registry's invariant.
use moot.Common.{
  ℕ, refl, String, Bool, true, false, not, ◌&&◌, ◌||◌, Option, none, some, [], ◌==◌, is_empty,
  if_intro, Option-cases, inl, inr,
}
use moot.Common.Dict.{Dict}
use moot.Core.Types.{Msg, is_idle}
use moot.Core.Bucket
use moot.Core.Dedup
use moot.Core.Proto.{ErrCode, duplicate, rate_limited}
use moot.Core.Proto.Json.{Json}
use moot.Core.Frame.{Frame, Record}
use moot.Core.Hub.State.{Hub, Participant, is_observer, live, on, roll}
use moot.Core.Hub.Util.{send, member, next_id, touch_activity, set_idle}
use moot.Core.Hub.Route.{Say, Routing, targets_observer, observer_present, message, msg_record}
use moot.Core.Hub.Say.{
  refuse, asked, note_asker, remember, send_out, notify_absent, route, confirm, accept,
  check_duplicate, refuse_rate, check_rate, barred, barred_detail, route_say, mark_done, infer_idle,
  after_say, say_of, handle_say,
}
use moot.Core.Hub.Quiet.{
  Quiet, Quiet-refl, Quiet-trans, send-Quiet, err-Quiet, append_record-Quiet, emit_rejected-Quiet,
  notify-Quiet,
}
use moot.Core.Hub.Seated.{IsSeated, Quiet-IsSeated, on-IsSeated}
use moot.Core.Hub.Seated.Deliver.{same-Keeps, check_session_done-IsSeated, flush_queue-IsSeated}
use moot.Core.Hub.Seated.Routes.{offer_all-IsSeated, send_out-IsSeated}

pub notify_absent-Quiet : (p : Participant) (s : Say) (h : Hub) → Quiet h (notify_absent p s h)
unfolding notify_absent
notify_absent-Quiet p s h =
    if_intro (Quiet h)
      (not (is_observer p)
        && (targets_observer h s.to && not (observer_present (some s.to) h)
            || (s.to == "*") && (s.kind == "question") && not (observer_present none h)))
      (λ _. notify-Quiet "moot" _ h) (λ _. Quiet-refl h)

pub confirmed-Quiet :
    (p : Participant) (s : Say) (f : Frame) (h : Hub) → Quiet h (notify_absent p s (send p f h))
confirmed-Quiet p s f h = Quiet-trans (send-Quiet p f h) (notify_absent-Quiet p s _)

confirm-IsSeated :
    (p : Participant) (s : Say) (m : Msg) (r : Routing)
    → IsSeated r.hub
    → IsSeated (confirm p s m r)
unfolding confirm touch_activity
confirm-IsSeated p s m r v =
    Quiet-IsSeated (confirmed-Quiet p s (Frame.ok_say m.id r.queued s.seq) (send_out r))
      (send_out-IsSeated r v)

note_asker-IsSeated :
    (p : Participant) (s : Say) (h : Hub) → IsSeated h → IsSeated (note_asker p s h)
unfolding note_asker
note_asker-IsSeated p s h v =
    if_intro IsSeated (is_observer p)
      (λ _. if_intro IsSeated (is_empty (asked s h)) (λ _. v) (λ _. v)) (λ _. v)

remember-IsSeated : (m : Msg) (h : Hub) → IsSeated h → IsSeated (remember m h)
unfolding remember
remember-IsSeated m h v =
    Quiet-IsSeated (append_record-Quiet (Record.msg h.round (msg_record m)) h) v

pub accept-IsSeated : (p : Participant) (s : Say) (h : Hub) → IsSeated h → IsSeated (accept p s h)
unfolding accept route next_id
accept-IsSeated p s h v =
    let (h', id) = next_id h in
    let m = message p s id h.clock.wall in
    let stamped = on p.name (λ q. record q { last_say = h.clock.monotonic }) h' in
    let noted = remember m (note_asker p s stamped) in
    confirm-IsSeated p s m _ (
      offer_all-IsSeated p.name m (roll noted)
        (record { hub = noted; queued = 0; woken = []; observers = [] })
        (remember-IsSeated m (note_asker p s stamped) (
          note_asker-IsSeated p s stamped (
            on-IsSeated p.name (λ q. record q { last_say = h.clock.monotonic }) h'
              (same-Keeps (λ q. refl) (λ q. refl) (λ q. refl) (λ q. refl)) v))))

pub refuse-Quiet :
    (p : Participant) (s : Say) (code : ErrCode) (detail : String) (retry : Option ℕ) (h : Hub)
    → Quiet h (refuse p s code detail retry h).0
unfolding refuse
refuse-Quiet p s code detail retry h =
    Quiet-trans (err-Quiet p code detail (some s.seq) retry h)
      (emit_rejected-Quiet p code s.to s.kind s.text retry s.private _)

check_duplicate-IsSeated :
    (p : Participant) (s : Say) (h : Hub) → IsSeated h → IsSeated (check_duplicate p s h).0
unfolding check_duplicate
check_duplicate-IsSeated p s h v =
    let (d, dup) =
      Dedup.seen h.host.sha256_hex h.clock.monotonic (live h p).dedup s.to s.text s.private in
    let h' = on p.name (λ q. record q { dedup = d }) h in
    let v' =
      on-IsSeated p.name (λ q. record q { dedup = d }) h
        (same-Keeps (λ q. refl) (λ q. refl) (λ q. refl) (λ q. refl)) v in
    if_intro (λ (r : Hub × Bool). IsSeated r.0) dup
      (λ _. Quiet-IsSeated (refuse-Quiet p s duplicate _ none h') v')
      (λ _. accept-IsSeated p s h' v')

refuse_rate-IsSeated :
    (p : Participant) (s : Say) (h : Hub) → IsSeated h → IsSeated (refuse_rate p s h).0
unfolding refuse_rate
refuse_rate-IsSeated p s h v =
    let b = (Bucket.retry_after h.clock.monotonic (live h p).bucket).0 in
    Quiet-IsSeated (refuse-Quiet p s rate_limited _ _ _) (
      on-IsSeated p.name (λ q. record q { bucket = b }) h
        (same-Keeps (λ q. refl) (λ q. refl) (λ q. refl) (λ q. refl)) v)

check_rate-IsSeated :
    (p : Participant) (s : Say) (h : Hub) → IsSeated h → IsSeated (check_rate p s h).0
unfolding check_rate
check_rate-IsSeated p s h v =
    let (b, ok) = Bucket.take h.clock.monotonic (live h p).bucket in
    let h' = on p.name (λ q. record q { bucket = b }) h in
    let v' =
      on-IsSeated p.name (λ q. record q { bucket = b }) h
        (same-Keeps (λ q. refl) (λ q. refl) (λ q. refl) (λ q. refl)) v in
    if_intro (λ (r : Hub × Bool). IsSeated r.0) ok (λ _. check_duplicate-IsSeated p s h' v')
      (λ _. refuse_rate-IsSeated p s h' v')

pub route_say-IsSeated :
    (p : Participant) (s : Say) (h : Hub) → IsSeated h → IsSeated (route_say p s h).0
unfolding route_say
route_say-IsSeated p s h v = elim (Option-cases (barred p s h)) [
  | inl e ↦
      rw (e, route_say)
        (if_intro (λ (r : Hub × Bool). IsSeated r.0) (is_observer p) (λ _. accept-IsSeated p s h v)
          (λ _. check_rate-IsSeated p s h v))
  | inr (code, e) ↦
      rw (e, route_say) (Quiet-IsSeated (refuse-Quiet p s code (barred_detail code s h) none h) v)
]

pub set_idle-IsSeated : (p : Participant) (h : Hub) → IsSeated h → IsSeated (set_idle p h)
unfolding set_idle
set_idle-IsSeated p h v =
    on-IsSeated p.name _ h (same-Keeps (λ q. refl) (λ q. refl) (λ q. refl) (λ q. refl)) v

infer_idle-IsSeated : (p : Participant) (h : Hub) → IsSeated h → IsSeated (infer_idle p h)
unfolding infer_idle
infer_idle-IsSeated p h v =
    if_intro IsSeated (not (member "idle-events" (live h p).caps) && not (is_idle (live h p).state))
      (λ _. flush_queue-IsSeated p (set_idle p h) (set_idle-IsSeated p h v)) (λ _. v)

after_say-IsSeated : (p : Participant) (s : Say) (h : Hub) → IsSeated h → IsSeated (after_say p s h)
unfolding after_say mark_done
after_say-IsSeated p s h v =
    if_intro IsSeated (s.kind == "done")
      (λ _. check_session_done-IsSeated (on p.name (λ q. record q { finished = true }) h) (
        on-IsSeated p.name (λ q. record q { finished = true }) h
          (same-Keeps (λ q. refl) (λ q. refl) (λ q. refl) (λ q. refl)) v))
      (λ _.
        on-IsSeated p.name (λ q. record q { finished = false }) h
          (same-Keeps (λ q. refl) (λ q. refl) (λ q. refl) (λ q. refl)) v)

pub handle_say-IsSeated :
    (p : Participant) (frame : Dict Json) (h : Hub) → IsSeated h → IsSeated (handle_say p frame h)
unfolding handle_say
handle_say-IsSeated p frame h v =
    let s = say_of h.host frame in
    let (routed, accepted) = route_say p s h in
    let v' = infer_idle-IsSeated p routed (route_say-IsSeated p s h v) in
    if_intro IsSeated (accepted && not (is_observer p))
      (λ _. after_say-IsSeated p s (infer_idle p routed) v') (λ _. v')
