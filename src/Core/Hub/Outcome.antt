-- ===== src/Core/Hub/Outcome.antt =====
-- What a say leaves behind, accepted or refused.
pub mod Counts
use moot.Common.{
  ℕ, ◌+◌, ◌≡◌, refl, sym, ap, ◌∙◌, String, Bool, true, false, not, ◌&&◌, ◌||◌, Option, none, some,
  List, [], ◌∷◌, ◌++◌, arith, ◌==◌, leb, is_empty, if_intro, Option-cases, Bool-cases, inl, inr,
}
use moot.Common.Dict
use moot.Common.Dict.{Dict}
use moot.Core.Types.{Msg, Addressing, direct, broadcast, overheard, tag, is_idle}
use moot.Core.Bucket
use moot.Core.Bucket.{TokenBucket}
use moot.Core.Dedup
use moot.Core.Dedup.{DedupWindow}
use moot.Core.Proto.{ErrCode, duplicate, rate_limited, frozen, muted}
use moot.Core.Proto.Json.{Json}
use moot.Core.Frame.{Frame}
use moot.Core.Hub.State.{Hub, Participant, is_observer, live, on, is_connected, roll}
use moot.Core.Hub.Util.{append_record, touch_activity, next_id}
use moot.Core.Hub.Session.{freeze_at_limit, check_round_limit}
use moot.Core.Hub.Delivery.{enqueue, set_busy, deliver}
use moot.Core.Hub.Route.{
  Say, Routing, wake, overhear, offer_agent, offer_observer, offer, offer_all, deliver_all,
  addressing, message, msg_record, last_n, targets_agent,
}
use moot.Core.Hub.Say.{
  refuse, asked, note_asker, remember, send_out, route, confirm, accept, check_duplicate,
  refuse_rate, check_rate, barred, barred_detail, route_say,
}
use moot.Core.Hub.Quiet.{
  Quiet, Quiet-trans, silent, send-Quiet, append_record-Quiet, emit_event-Quiet, notify-Quiet,
  warn_unattended-Quiet,
}
use moot.Core.Hub.Seated.Says.{refuse-Quiet, notify_absent-Quiet}
use moot.Core.Hub.Outcome.Counts.{
  Ledger, ledger, Quiet-ledger, ledger-deliver, ledger-deliver_all, ledger-check_round_limit,
  ledger-offer_agent, ledger-offer, ledger-offer_all, ledger-send_out, ledger-confirm,
  ledger-note_asker, entered, enter, ledger-remember, ledger-accept,
}

-- A change of the two limits of a participant, the bucket and the window of duplicates.
abbrev pub OnlyLimits : (Participant → Participant) → Type 0
OnlyLimits f = (q : Participant) → record (f q) { bucket = q.bucket; dedup = q.dedup } ≡ q

-- The sender's limits have changed, and output has been sent.
abbrev pub OnlyCharged : Participant → Hub → Hub → Type 0
OnlyCharged p h h' =
    (f : Participant → Participant) × OnlyLimits f × (silent h' ≡ silent (on p.name f h))

-- The outcome of a say, by the Boolean that is returned.
abbrev pub Outcome : Participant → Say → Hub → Hub × Bool → Type 0
Outcome p s h (h', true) = ledger h' ≡ entered p s h
Outcome p s h (h', false) = OnlyCharged p h h'

refuse-OnlyCharged :
    (p : Participant) (s : Say) (code : ErrCode) (detail : String) (retry : Option ℕ) (h h' : Hub)
    → OnlyCharged p h h'
    → OnlyCharged p h (refuse p s code detail retry h').0
refuse-OnlyCharged p s code detail retry h h' (f, o, e) =
    (f, o, (refuse-Quiet p s code detail retry h').same ∙ e)

on-on :
    (name : String) (f g : Participant → Participant) (h : Hub)
    → on name f (on name g h) ≡ on name (λ q. f (g q)) h
unfolding on
on-on name f g h =
    ap (λ d. record h { participants = d }) (Dict.modify-modify name f g h.participants)

on_same : (name : String) (h : Hub) → on name (λ q. q) h ≡ h
unfolding on
on_same name h = ap (λ d. record h { participants = d }) (Dict.modify_same name h.participants)

check_duplicate-Outcome :
    (p : Participant) (s : Say) (h : Hub) (g : Participant → Participant)
    → OnlyLimits g
    → Outcome p s h (check_duplicate p s (on p.name g h))
unfolding check_duplicate refuse on
check_duplicate-Outcome p s h g o =
    let h1 = on p.name g h in
    let (d, dup) =
      Dedup.seen h1.host.sha256_hex h1.clock.monotonic (live h1 p).dedup s.to s.text s.private in
    let h2 = on p.name (λ q. record q { dedup = d }) h1 in
    if_intro (Outcome p s h) dup
      (λ _. refuse-OnlyCharged p s duplicate _ none h h2 (
        (λ q. record (g q) { dedup = d }),
        o,
        ap silent (on-on p.name (λ q. record q { dedup = d }) g h),
      ))
      (λ _. ledger-accept p s h2)

check_rate-Outcome : (p : Participant) (s : Say) (h : Hub) → Outcome p s h (check_rate p s h)
unfolding check_rate refuse_rate refuse
check_rate-Outcome p s h =
    let (b, granted) = Bucket.take h.clock.monotonic (live h p).bucket in
    let h1 = on p.name (λ q. record q { bucket = b }) h in
    let b' = (Bucket.retry_after h1.clock.monotonic (live h1 p).bucket).0 in
    if_intro (Outcome p s h) granted
      (λ _. check_duplicate-Outcome p s h (λ q. record q { bucket = b }) (λ q. refl))
      (λ _.
        refuse-OnlyCharged p s rate_limited _ _ h (on p.name (λ q. record q { bucket = b' }) h1) (
          (λ q. record q { bucket = b' }),
          (λ q. refl),
          ap silent (on-on p.name (λ q. record q { bucket = b' }) (λ q. record q { bucket = b }) h),
        ))

-- An accepted say takes the next id and enters its record as the last of the window. A refused one
-- changes, but for output, at most the bucket and the window of duplicates of the sender: no id,
-- no round, no record and no other participant.
pub route_say-Outcome : (p : Participant) (s : Say) (h : Hub) → Outcome p s h (route_say p s h)
unfolding route_say refuse
route_say-Outcome p s h = elim (Option-cases (barred p s h)) [
  | inl e ↦
      rw (e, route_say)
        (if_intro (Outcome p s h) (is_observer p) (λ _. ledger-accept p s h)
          (λ _. check_rate-Outcome p s h))
  | inr (code, e) ↦
      rw (e, route_say)
        (refuse-OnlyCharged p s code (barred_detail code s h) none h h
          ((λ q. q), (λ q. refl), sym (ap silent (on_same p.name h))))
]
