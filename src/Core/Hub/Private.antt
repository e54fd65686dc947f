-- ===== src/Core/Hub/Private.antt =====
-- Whom a private say concerns: an agent, its record and its connection, while others act.
pub mod Spared
pub mod Routes
use moot.Common.{
  ℕ, ◌+◌, ◌≡◌, ◌≢◌, refl, sym, ap, ◌∙◌, subst, String, Bool, true, false, not, ◌&&◌, ◌||◌, Option,
  none, some, List, [], ◌∷◌, map, arith, ◌==◌, eq_iff, leb, any, keep, eq_false_of_ne, All,
  All-concat, is_empty, if◌then◌else◌, if_intro, Option-cases, inl, inr,
}
use mathlib.Core.Bool.{false≢true}
use mathlib.Core.Option.{some-injective}
use moot.Common.Dict
use moot.Common.Dict.{
  Dict, get-modify, Entries, Entries-imp, Entries-and, Entries-found, Entries-modify,
}
use moot.Core.Types.{
  Msg, to_wire, Addressing, direct, broadcast, overheard, tag, is_idle, is_overheard,
}
use moot.Core.Buffer
use moot.Core.Bucket
use moot.Core.Dedup
use moot.Core.Proto.{ErrCode, duplicate, rate_limited}
use moot.Core.Proto.Json.{Json}
use moot.Core.Frame.{Frame, Record}
use moot.Core.Server.{StreamClient}
use moot.Core.Hub.State.{Hub, Participant, is_observer, live, on, at_client, is_connected, roll}
use moot.Core.Hub.Util.{
  send_client, send, err, append_record, skipped, to_observers, emit_event, emit_rejected, notify,
  touch_activity, next_id,
}
use moot.Core.Hub.Session.{warn_unattended, freeze_at_limit, check_round_limit}
use moot.Core.Hub.Delivery.{enqueue_at, enqueue, sort_by_id, ids, set_busy, deliver}
use moot.Core.Hub.Route.{
  Say, Routing, wake, overhear, offer_agent, offer_observer, offer, offer_all, deliver_all,
  addressing, targets_observer, observer_present, message,
}
use moot.Core.Hub.Say.{
  refuse, asked, note_asker, remember, send_out, route, notify_absent, confirm, accept,
  check_duplicate, refuse_rate, check_rate, barred, barred_detail, route_say,
}
use moot.Core.Hub.Seated.{IsSeat, IsSeated, names_of, get-IsSeat}
use moot.Core.Hub.Private.Spared.{
  IsApart, IsAway, IsUntouched, IsSpared, values-IsApart, roll-IsApart, observer-IsAway,
  send-IsSpared, on-IsSpared, to_observers-IsSpared, emit_event-IsSpared, notify-IsSpared,
  set_busy-IsSpared, deliver-IsSpared, deliver_all-IsSpared, check_round_limit-IsSpared,
}
use moot.Core.Hub.Private.Routes.{
  IsRouted, wake-IsRouted, enqueue-IsSpared, wake_or_enqueue-IsRouted, offer_agent-IsRouted,
  addressed-IsAway, offer-IsRouted, offer_all-IsRouted, send_out-IsSpared,
}

module _ (n : String) (k : ℕ) (q : Participant) (c : StreamClient) where
  -- The sender, as the hub knows it, is somebody else.
  refuse-IsSpared :
      (p : Participant) (s : Say) (code : ErrCode) (detail : String) (retry : Option ℕ) (h : Hub)
      → IsAway n k p
      → IsSpared n k q c h
      → IsSpared n k q c (refuse p s code detail retry h).0
  unfolding refuse err emit_rejected
  refuse-IsSpared p s code detail retry h a v =
      let told = send-IsSpared n k q c p (Frame.err code detail (some s.seq) retry) h a v in
      if_intro (IsSpared n k q c) (is_observer p) (λ _. told)
        (λ _. emit_event-IsSpared n k q c "rejected" none _ _ told)

  note_asker-IsSpared :
      (p : Participant) (s : Say) (h : Hub)
      → IsSpared n k q c h
      → IsSpared n k q c (note_asker p s h)
  unfolding note_asker
  note_asker-IsSpared p s h v =
      if_intro (IsSpared n k q c) (is_observer p)
        (λ _. if_intro (IsSpared n k q c) (is_empty (asked s h)) (λ _. v) (λ _. v)) (λ _. v)

  confirm-IsSpared :
      (p : Participant) (s : Say) (m : Msg) (r : Routing)
      → IsAway n k p
      → IsRouted n k q c r
      → IsSpared n k q c (confirm p s m r)
  unfolding confirm touch_activity notify_absent
  confirm-IsSpared p s m r a v =
      let told =
        send-IsSpared n k q c p (Frame.ok_say m.id r.queued s.seq) (send_out r) a
          (send_out-IsSpared n k q c r v) in
      let confirmed = send p (Frame.ok_say m.id r.queued s.seq) (send_out r) in
      if_intro (IsSpared n k q c)
        (not (is_observer p)
          && (targets_observer confirmed s.to && not (observer_present (some s.to) confirmed)
              || (s.to == "*") && (s.kind == "question") && not (observer_present none confirmed)))
        (λ _. notify-IsSpared n k q c "moot" _ confirmed told) (λ _. told)

  accept-IsSpared :
      (p : Participant) (s : Say) (h : Hub)
      → s.private ≡ true
      → s.to ≢ "*"
      → s.to ≢ n
      → IsAway n k p
      → IsSpared n k q c h
      → IsSpared n k q c (accept p s h)
  unfolding accept route next_id remember append_record message
  accept-IsSpared p s h private all ne a v =
      let (h', id) = next_id h in
      let m = message p s id h.clock.wall in
      let stamped = on p.name (λ q. record q { last_say = h.clock.monotonic }) h' in
      let noted = remember m (note_asker p s stamped) in
      let v' = note_asker-IsSpared p s stamped (
        on-IsSpared n k q c p.name (λ q. record q { last_say = h.clock.monotonic }) h' a.name
          (λ y. refl) (λ y. refl) (λ y. refl) v) in
      confirm-IsSpared p s m _ a (
        offer_all-IsRouted n k q c p.name m (roll noted)
          (record { hub = noted; queued = 0; woken = []; observers = [] }) private all ne
          (roll-IsApart n k q c noted v') (record { hub = v'; woken = tt; observers = tt }))

  check_duplicate-IsSpared :
      (p : Participant) (s : Say) (h : Hub)
      → s.private ≡ true
      → s.to ≢ "*"
      → s.to ≢ n
      → IsAway n k p
      → IsSpared n k q c h
      → IsSpared n k q c (check_duplicate p s h).0
  unfolding check_duplicate
  check_duplicate-IsSpared p s h private all ne a v =
      let (d, dup) =
        Dedup.seen h.host.sha256_hex h.clock.monotonic (live h p).dedup s.to s.text s.private in
      let h' = on p.name (λ q. record q { dedup = d }) h in
      let v' =
        on-IsSpared n k q c p.name (λ q. record q { dedup = d }) h a.name (λ y. refl) (λ y. refl)
          (λ y. refl) v in
      if_intro (λ (r : Hub × Bool). IsSpared n k q c r.0) dup
        (λ _. refuse-IsSpared p s duplicate _ none h' a v')
        (λ _. accept-IsSpared p s h' private all ne a v')

  check_rate-IsSpared :
      (p : Participant) (s : Say) (h : Hub)
      → s.private ≡ true
      → s.to ≢ "*"
      → s.to ≢ n
      → IsAway n k p
      → IsSpared n k q c h
      → IsSpared n k q c (check_rate p s h).0
  unfolding check_rate refuse_rate
  check_rate-IsSpared p s h private all ne a v =
      let (b, granted) = Bucket.take h.clock.monotonic (live h p).bucket in
      let h' = on p.name (λ q. record q { bucket = b }) h in
      let v' =
        on-IsSpared n k q c p.name (λ q. record q { bucket = b }) h a.name (λ y. refl) (λ y. refl)
          (λ y. refl) v in
      let b' = (Bucket.retry_after h'.clock.monotonic (live h' p).bucket).0 in
      if_intro (λ (r : Hub × Bool). IsSpared n k q c r.0) granted
        (λ _. check_duplicate-IsSpared p s h' private all ne a v')
        (λ _. refuse-IsSpared p s rate_limited _ _ _ a (
          on-IsSpared n k q c p.name (λ q. record q { bucket = b' }) h' a.name (λ y. refl)
            (λ y. refl) (λ y. refl) v'))

  route_say-IsSpared :
      (p : Participant) (s : Say) (h : Hub)
      → s.private ≡ true
      → s.to ≢ "*"
      → s.to ≢ n
      → IsAway n k p
      → IsSpared n k q c h
      → IsSpared n k q c (route_say p s h).0
  unfolding route_say
  route_say-IsSpared p s h private all ne a v = elim (Option-cases (barred p s h)) [
    | inl e ↦
        rw (e, route_say)
          (if_intro (λ (r : Hub × Bool). IsSpared n k q c r.0) (is_observer p)
            (λ _. accept-IsSpared p s h private all ne a v)
            (λ _. check_rate-IsSpared p s h private all ne a v))
    | inr (code, e) ↦
        rw (e, route_say) (refuse-IsSpared p s code (barred_detail code s h) none h a v)
  ]

-- In a registry that keeps its invariant, two participants of different names sit on different
-- connections.
seats-IsApart :
    (h : Hub) (n : String) (q : Participant)
    → IsSeated h
    → Dict.get n h.participants ≡ some q
    → is_observer q ≡ false
    → Entries (λ j x. IsApart n q.client x) h.participants
seats-IsApart h n q v e o =
    let d = h.participants in
    Entries-imp (λ j x. IsSeat h.config (names_of h) j x × (Dict.get j d ≡ some x))
      (λ j x. IsApart n q.client x)
      (λ j x (s, found). record {
        seen = λ f.
            subst (λ y. is_observer y ≡ false)
              (some-injective q x (sym e ∙ sym (ap (λ i. Dict.get i d) (sym s.listed ∙ f)) ∙ found))
              o;
        apart = λ ne f.
            ne (s.listed ∙ sym s.connection ∙ ap (names_of h) f ∙ (get-IsSeat h n v e).connection);
      })
      d
      (Entries-and (IsSeat h.config (names_of h)) (λ j x. Dict.get j d ≡ some x) d v.seats
        (Entries-found d v.distinct))

-- A private say, accepted or refused: an agent that is neither the sender nor the recipient keeps
-- its whole record, and its connection is sent nothing. The registry has its invariant.
pub route_say-private :
    (p : Participant) (s : Say) (h : Hub) (n : String) (q : Participant)
    → IsSeated h
    → IsSeat h.config (names_of h) p.name p
    → s.private ≡ true
    → s.to ≢ "*"
    → s.to ≢ n
    → p.name ≢ n
    → Dict.get n h.participants ≡ some q
    → is_observer q ≡ false
    → (Dict.get n (route_say p s h).0.participants ≡ some q)
      × ((route_say p s h).0.connections q.client ≡ h.connections q.client)
route_say-private p s h n q v seat private all ne other e o =
    let t = get-IsSeat h n v e in
    let away : IsAway n q.client p = record {
      name = other;
      client = λ f. other (sym seat.connection ∙ ap (names_of h) f ∙ t.connection);
    } in
    let done =
      route_say-IsSpared n q.client q (h.connections q.client) p s h private all ne away
        (record { kept = e; still = refl; others = seats-IsApart h n q v e o }) in
    (done.kept, done.still)
