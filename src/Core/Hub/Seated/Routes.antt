-- ===== src/Core/Hub/Seated/Routes.antt =====
-- The routing of a message against the registry's invariant.
use moot.Common.{
  ◌+◌, refl, subst, String, ◌&&◌, some, List, [], ◌∷◌, ◌==◌, is_empty, if◌then◌else◌, if_intro,
}
use moot.Core.Types.{Msg, Addressing, direct, broadcast, overheard, tag, is_overheard, is_idle}
use moot.Core.Buffer
use moot.Core.Hub.State.{Hub, Participant, is_observer, live, on, is_connected}
use moot.Core.Hub.Delivery.{enqueue, deliver}
use moot.Core.Hub.Route.{
  Routing, addressing, wake, overhear, offer_agent, offer_observer, offer, offer_all, deliver_all,
}
use moot.Core.Hub.Say.{send_out}
use moot.Core.Hub.Sound.{IsWake, IsContext, append-IsSoundBuffer, drain-IsSoundBuffer}
use moot.Core.Hub.Seated.{IsSeated, on-IsSeated, live-IsCurrent, name-live, context-IsSeated}
use moot.Core.Hub.Seated.Deliver.{deliver-IsSeated, check_round_limit-IsSeated, enqueue-IsSeated}

pub wake-IsSeated :
    (q : Participant) (m : Msg) (r : Routing) → IsSeated r.hub → IsSeated (wake q m r).hub
unfolding wake
wake-IsSeated q m r v =
    let p = live r.hub q in
    let context = (Buffer.drain p.context (some m.id)).1 in
    let cap = r.hub.config.context_cap in
    subst (λ n. IsSeated (on n (λ x. record x { context = context }) r.hub)) (name-live r.hub q v)
      (context-IsSeated p context r.hub
        (λ s. (drain-IsSoundBuffer cap p.context (some m.id) s.context).0)
        (live-IsCurrent r.hub q v) v)

pub overhear-IsSeated :
    (q : Participant) (m : Msg) (r : Routing)
    → IsContext m
    → IsSeated r.hub
    → IsSeated (overhear q m r).hub
unfolding overhear
overhear-IsSeated q m r k v =
    if_intro (λ (x : Routing). IsSeated x.hub) m.private (λ _. v)
      (λ _.
        on-IsSeated q.name (λ x. record x { context = Buffer.append x.context m }) r.hub
          (record {
            name = λ x. refl;
            client = λ x. refl;
            sound = λ x s. record {
              context =
                  append-IsSoundBuffer r.hub.config.context_cap x.context m v.sane.context k
                    s.context;
              bounded = s.bounded;
              wakes = s.wakes;
            };
          })
          v)

pub wake_or_enqueue-IsSeated :
    (q : Participant) (m : Msg) (r : Routing)
    → IsWake m
    → IsSeated r.hub
    → IsSeated
        (if is_idle (live r.hub q).state && is_connected r.hub q
          then wake q m r
          else record r { hub = enqueue q m r.hub; queued = r.queued + 1 }).hub
wake_or_enqueue-IsSeated q m r w v =
    if_intro (λ (x : Routing). IsSeated x.hub)
      (is_idle (live r.hub q).state && is_connected r.hub q) (λ _. wake-IsSeated q m r v)
      (λ _. enqueue-IsSeated q m r.hub w v)

pub offer_agent-IsSeated :
    (q : Participant) (a : Addressing) (m : Msg) (r : Routing)
    → IsSeated r.hub
    → IsSeated (offer_agent q a (tag m a) r).hub
unfolding offer_agent tag is_overheard
offer_agent-IsSeated q overheard m r v = overhear-IsSeated q (tag m overheard) r refl v
offer_agent-IsSeated q direct m r v = wake_or_enqueue-IsSeated q (tag m direct) r refl v
offer_agent-IsSeated q broadcast m r v = wake_or_enqueue-IsSeated q (tag m broadcast) r refl v

pub offer-IsSeated :
    (sender : String) (m : Msg) (q : Participant) (r : Routing)
    → IsSeated r.hub
    → IsSeated (offer sender m q r).hub
unfolding offer offer_observer
offer-IsSeated sender m q r v =
    if_intro (λ (x : Routing). IsSeated x.hub) (q.name == sender) (λ _. v)
      (λ _.
        if_intro (λ (x : Routing). IsSeated x.hub) (is_observer q)
          (λ _. if_intro (λ (x : Routing). IsSeated x.hub) (is_connected r.hub q) (λ _. v) (λ _. v))
          (λ _. offer_agent-IsSeated q (addressing q m.to) m r v))

pub offer_all-IsSeated :
    (sender : String) (m : Msg) (qs : List Participant) (r : Routing)
    → IsSeated r.hub
    → IsSeated (offer_all sender m qs r).hub
unfolding offer_all
offer_all-IsSeated sender m [] r v = v
offer_all-IsSeated sender m (q ∷ qs) r v =
    offer_all-IsSeated sender m qs (offer sender m q r) (offer-IsSeated sender m q r v)

pub deliver_all-IsSeated :
    (batches : List (Participant × List Msg)) (h : Hub)
    → IsSeated h
    → IsSeated (deliver_all batches h)
unfolding deliver_all
deliver_all-IsSeated [] h v = v
deliver_all-IsSeated ((q, batch) ∷ rest) h v =
    deliver_all-IsSeated rest (deliver q batch h) (deliver-IsSeated q batch h v)

pub send_out-IsSeated : (r : Routing) → IsSeated r.hub → IsSeated (send_out r)
unfolding send_out
send_out-IsSeated r v =
    if_intro IsSeated (is_empty r.woken) (λ _. deliver_all-IsSeated r.observers r.hub v)
      (λ _.
        let counted = record r.hub { round = r.hub.round + 1 } in
        let seen = deliver_all r.observers counted in
        check_round_limit-IsSeated (deliver_all r.woken seen)
          (deliver_all-IsSeated r.woken seen (deliver_all-IsSeated r.observers counted v)))
