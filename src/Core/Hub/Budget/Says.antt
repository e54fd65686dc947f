-- ===== src/Core/Hub/Budget/Says.antt =====
-- Says against the budget of rounds.
use moot.Common.{
  ◌+◌, ◌<◌, ◌≡◌, refl, sym, ◌∙◌, subst, String, Bool, true, not, ◌&&◌, none, List, [], ◌∷◌, ◌==◌,
  is_empty, if_intro, Option-cases, inl, inr,
}
use moot.Common.Dict.{Dict}
use moot.Core.Types.{Msg, Addressing, direct, broadcast, overheard, tag, is_idle}
use moot.Core.Bucket
use moot.Core.Dedup
use moot.Core.Proto.{duplicate, rate_limited}
use moot.Core.Proto.Json.{Json}
use moot.Core.Frame.{Frame, Record}
use moot.Core.Hub.State.{Hub, Participant, is_observer, live, on, is_connected, roll}
use moot.Core.Hub.Util.{touch_activity, next_id, set_idle, member}
use moot.Core.Hub.Delivery.{enqueue, deliver}
use moot.Core.Hub.Route.{
  Say, Routing, wake, overhear, offer_agent, offer_observer, offer, offer_all, deliver_all, message,
  msg_record, addressing,
}
use moot.Core.Hub.Say.{
  asked, note_asker, remember, send_out, route, confirm, accept, check_duplicate, refuse_rate,
  check_rate, barred, barred_detail, route_say, mark_done, infer_idle, after_say, say_of,
  handle_say,
}
use moot.Core.Hub.Quiet.{append_record-Quiet}
use moot.Core.Hub.Seated.Says.{refuse-Quiet, confirmed-Quiet}
use moot.Core.Hub.Budget.{
  Budget, budget, IsWithin, InBudget, Quiet-budget, Quiet-InBudget, budget-deliver,
  check_round_limit-InBudget, check_session_done-InBudget, flush_queue-InBudget,
}

budget-offer_agent :
    (q : Participant) (mode : Addressing) (m : Msg) (r : Routing)
    → budget (offer_agent q mode m r).hub ≡ budget r.hub
unfolding offer_agent wake overhear enqueue on
budget-offer_agent q overheard m r =
    if_intro (λ (x : Routing). budget x.hub ≡ budget r.hub) m.private (λ _. refl) (λ _. refl)
budget-offer_agent q direct m r =
    if_intro (λ (x : Routing). budget x.hub ≡ budget r.hub)
      (is_idle (live r.hub q).state && is_connected r.hub q) (λ _. refl) (λ _. refl)
budget-offer_agent q broadcast m r =
    if_intro (λ (x : Routing). budget x.hub ≡ budget r.hub)
      (is_idle (live r.hub q).state && is_connected r.hub q) (λ _. refl) (λ _. refl)

budget-offer :
    (sender : String) (m : Msg) (q : Participant) (r : Routing)
    → budget (offer sender m q r).hub ≡ budget r.hub
unfolding offer offer_observer
budget-offer sender m q r =
    if_intro (λ (x : Routing). budget x.hub ≡ budget r.hub) (q.name == sender) (λ _. refl)
      (λ _.
        if_intro (λ (x : Routing). budget x.hub ≡ budget r.hub) (is_observer q)
          (λ _.
            if_intro (λ (x : Routing). budget x.hub ≡ budget r.hub) (is_connected r.hub q)
              (λ _. refl) (λ _. refl))
          (λ _. budget-offer_agent q (addressing q m.to) (tag m (addressing q m.to)) r))

budget-offer_all :
    (sender : String) (m : Msg) (qs : List Participant) (r : Routing)
    → budget (offer_all sender m qs r).hub ≡ budget r.hub
unfolding offer_all
budget-offer_all sender m [] r = refl
budget-offer_all sender m (q ∷ qs) r =
    budget-offer_all sender m qs (offer sender m q r) ∙ budget-offer sender m q r

budget-deliver_all :
    (batches : List (Participant × List Msg)) (h : Hub) → budget (deliver_all batches h) ≡ budget h
unfolding deliver_all
budget-deliver_all [] h = refl
budget-deliver_all ((q, batch) ∷ rest) h =
    budget-deliver_all rest (deliver q batch h) ∙ budget-deliver q batch h

send_out-InBudget : (r : Routing) → InBudget r.hub → InBudget (send_out r)
unfolding send_out
send_out-InBudget r w =
    if_intro InBudget (is_empty r.woken)
      (λ _. subst IsWithin (sym (budget-deliver_all r.observers r.hub)) w)
      (λ _.
        let counted = record r.hub { round = r.hub.round + 1 } in
        let e = budget-deliver_all r.woken _ ∙ budget-deliver_all r.observers counted in
        check_round_limit-InBudget _ (subst (λ (b : Budget). 0 < b.initial) (sym e) w.fresh)
          (subst (λ (b : Budget). 0 < b.max_rounds) (sym e) w.some_rounds))

confirm-InBudget :
    (p : Participant) (s : Say) (m : Msg) (r : Routing)
    → InBudget r.hub
    → InBudget (confirm p s m r)
unfolding confirm touch_activity
confirm-InBudget p s m r w =
    Quiet-InBudget (confirmed-Quiet p s (Frame.ok_say m.id r.queued s.seq) (send_out r))
      (send_out-InBudget r w)

budget-note_asker : (p : Participant) (s : Say) (h : Hub) → budget (note_asker p s h) ≡ budget h
unfolding note_asker
budget-note_asker p s h =
    if_intro (λ h'. budget h' ≡ budget h) (is_observer p)
      (λ _. if_intro (λ h'. budget h' ≡ budget h) (is_empty (asked s h)) (λ _. refl) (λ _. refl))
      (λ _. refl)

accept-InBudget : (p : Participant) (s : Say) (h : Hub) → InBudget h → InBudget (accept p s h)
unfolding accept route next_id remember on
accept-InBudget p s h w =
    let (h', id) = next_id h in
    let m = message p s id h.clock.wall in
    let noted = note_asker p s (on p.name (λ q. record q { last_say = h.clock.monotonic }) h') in
    confirm-InBudget p s m (route p m (remember m noted)) (
      subst IsWithin
        (sym (
          budget-offer_all p.name m (roll (remember m noted)) _
          ∙ Quiet-budget (append_record-Quiet (Record.msg noted.round (msg_record m)) noted)
          ∙ budget-note_asker p s _))
        w)

check_duplicate-InBudget :
    (p : Participant) (s : Say) (h : Hub) → InBudget h → InBudget (check_duplicate p s h).0
unfolding check_duplicate on
check_duplicate-InBudget p s h w =
    let (d, dup) =
      Dedup.seen h.host.sha256_hex h.clock.monotonic (live h p).dedup s.to s.text s.private in
    let h' = on p.name (λ q. record q { dedup = d }) h in
    if_intro (λ (r : Hub × Bool). InBudget r.0) dup
      (λ _. Quiet-InBudget (refuse-Quiet p s duplicate _ none h') w) (λ _. accept-InBudget p s h' w)

check_rate-InBudget :
    (p : Participant) (s : Say) (h : Hub) → InBudget h → InBudget (check_rate p s h).0
unfolding check_rate refuse_rate on
check_rate-InBudget p s h w =
    let (b, granted) = Bucket.take h.clock.monotonic (live h p).bucket in
    let h' = on p.name (λ q. record q { bucket = b }) h in
    if_intro (λ (r : Hub × Bool). InBudget r.0) granted (λ _. check_duplicate-InBudget p s h' w)
      (λ _. Quiet-InBudget (refuse-Quiet p s rate_limited _ _ _) w)

route_say-InBudget :
    (p : Participant) (s : Say) (h : Hub) → InBudget h → InBudget (route_say p s h).0
unfolding route_say
route_say-InBudget p s h w = elim (Option-cases (barred p s h)) [
  | inl e ↦
      rw (e, route_say)
        (if_intro (λ (r : Hub × Bool). InBudget r.0) (is_observer p) (λ _. accept-InBudget p s h w)
          (λ _. check_rate-InBudget p s h w))
  | inr (code, e) ↦
      rw (e, route_say) (Quiet-InBudget (refuse-Quiet p s code (barred_detail code s h) none h) w)
]

infer_idle-InBudget : (p : Participant) (h : Hub) → InBudget h → InBudget (infer_idle p h)
unfolding infer_idle set_idle on
infer_idle-InBudget p h w =
    if_intro InBudget (not (member "idle-events" (live h p).caps) && not (is_idle (live h p).state))
      (λ _. flush_queue-InBudget p (set_idle p h) w) (λ _. w)

after_say-InBudget : (p : Participant) (s : Say) (h : Hub) → InBudget h → InBudget (after_say p s h)
unfolding after_say mark_done on
after_say-InBudget p s h w =
    if_intro InBudget (s.kind == "done")
      (λ _. check_session_done-InBudget (on p.name (λ q. record q { finished = true }) h) w)
      (λ _. w)

-- A say, accepted or refused, leaves a hub that is frozen or has rounds left, if it was one.
pub handle_say-InBudget :
    (p : Participant) (frame : Dict Json) (h : Hub) → InBudget h → InBudget (handle_say p frame h)
unfolding handle_say
handle_say-InBudget p frame h w =
    let s = say_of h.host frame in
    let (routed, accepted) = route_say p s h in
    let w' = infer_idle-InBudget p routed (route_say-InBudget p s h w) in
    if_intro InBudget (accepted && not (is_observer p))
      (λ _. after_say-InBudget p s (infer_idle p routed) w') (λ _. w')
