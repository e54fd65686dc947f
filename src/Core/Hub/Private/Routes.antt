-- ===== src/Core/Hub/Private/Routes.antt =====
-- The routing of a private message passes everybody else by.
use moot.Common.{
  ℕ, ◌+◌, ◌≡◌, ◌≢◌, refl, String, true, false, ◌&&◌, some, List, [], ◌∷◌, arith, ◌==◌, eq_iff, All,
  All-concat, is_empty, if◌then◌else◌, if_intro,
}
use moot.Core.Types.{Msg, Addressing, direct, broadcast, overheard, tag, is_idle, is_overheard}
use moot.Core.Buffer
use moot.Core.Server.{StreamClient}
use moot.Core.Hub.State.{Hub, Participant, is_observer, live, is_connected}
use moot.Core.Hub.Delivery.{enqueue_at, enqueue}
use moot.Core.Hub.Route.{
  Routing, wake, overhear, offer_agent, offer_observer, offer, offer_all, addressing,
}
use moot.Core.Hub.Say.{send_out}
use moot.Core.Hub.Private.Spared.{
  IsApart, IsAway, IsSpared, observer-IsAway, on-IsSpared, deliver_all-IsSpared,
  check_round_limit-IsSpared,
}

module _ (n : String) (k : ℕ) (q : Participant) (c : StreamClient) where
  pub record IsRouted (r : Routing) : Type 0 where
    pub hub : IsSpared n k q c r.hub
    pub woken : All (λ b. IsAway n k b.0) r.woken
    pub observers : All (λ b. IsAway n k b.0) r.observers

  pub wake-IsRouted :
      (x : Participant) (m : Msg) (r : Routing) → IsAway n k x → IsRouted r → IsRouted (wake x m r)
  unfolding wake
  wake-IsRouted x m r a s = record {
    hub =
        on-IsSpared n k q c x.name
          (λ y. record y { context = (Buffer.drain (live r.hub x).context (some m.id)).1 }) r.hub
          a.name (λ y. refl) (λ y. refl) (λ y. refl) s.hub;
    woken = All-concat (λ b. IsAway n k b.0) r.woken _ s.woken a;
    observers = s.observers;
  }

  pub enqueue-IsSpared :
      (x : Participant) (m : Msg) (h : Hub)
      → IsAway n k x
      → IsSpared n k q c h
      → IsSpared n k q c (enqueue x m h)
  unfolding enqueue enqueue_at
  enqueue-IsSpared x m h a s =
      on-IsSpared n k q c x.name (enqueue_at h.config.queue_cap m) h a.name (λ y. ground arith)
        (λ y. ground arith) (λ y. ground arith) s

  pub wake_or_enqueue-IsRouted :
      (x : Participant) (m : Msg) (r : Routing)
      → IsAway n k x
      → IsRouted r
      → IsRouted (
          if is_idle (live r.hub x).state && is_connected r.hub x
          then wake x m r
          else record r { hub = enqueue x m r.hub; queued = r.queued + 1 })
  wake_or_enqueue-IsRouted x m r a s =
      if_intro IsRouted (is_idle (live r.hub x).state && is_connected r.hub x)
        (λ _. wake-IsRouted x m r a s)
        (λ _. record {
          hub = enqueue-IsSpared x m r.hub a s.hub;
          woken = s.woken;
          observers = s.observers;
        })

  -- A private message to one name passes everybody else by.
  pub offer_agent-IsRouted :
      (x : Participant) (mode : Addressing) (m : Msg) (r : Routing)
      → m.private ≡ true
      → (is_overheard (some mode) ≡ false → IsAway n k x)
      → IsRouted r
      → IsRouted (offer_agent x mode m r)
  unfolding offer_agent overhear is_overheard
  offer_agent-IsRouted x overheard m r p a s = rw p s
  offer_agent-IsRouted x direct m r p a s = wake_or_enqueue-IsRouted x m r (a refl) s
  offer_agent-IsRouted x broadcast m r p a s = wake_or_enqueue-IsRouted x m r (a refl) s

  pub addressed-IsAway :
      (x : Participant) (to : String)
      → to ≢ "*"
      → to ≢ n
      → IsApart n k x
      → is_overheard (some (addressing x to)) ≡ false
      → IsAway n k x
  unfolding addressing is_overheard
  addressed-IsAway x to all ne a e =
      let named : x.name ≢ n = λ f. ground (arith, eq_iff to x.name, eq_iff to "*") in
      record { name = named; client = a.apart named }

  pub offer-IsRouted :
      (sender : String) (m : Msg) (x : Participant) (r : Routing)
      → m.private ≡ true
      → m.to ≢ "*"
      → m.to ≢ n
      → IsApart n k x
      → IsRouted r
      → IsRouted (offer sender m x r)
  unfolding offer offer_observer tag
  offer-IsRouted sender m x r p all ne a s =
      if_intro IsRouted (x.name == sender) (λ _. s)
        (λ _.
          if_intro IsRouted (is_observer x)
            (λ o.
              if_intro IsRouted (is_connected r.hub x)
                (λ _. record {
                  hub = s.hub;
                  woken = s.woken;
                  observers =
                      All-concat (λ b. IsAway n k b.0) r.observers _ s.observers
                        (observer-IsAway n k q c x o a);
                })
                (λ _. s))
            (λ _.
              offer_agent-IsRouted x (addressing x m.to) (tag m (addressing x m.to)) r p
                (addressed-IsAway x m.to all ne a) s))

  pub offer_all-IsRouted :
      (sender : String) (m : Msg) (xs : List Participant) (r : Routing)
      → m.private ≡ true
      → m.to ≢ "*"
      → m.to ≢ n
      → All (IsApart n k) xs
      → IsRouted r
      → IsRouted (offer_all sender m xs r)
  unfolding offer_all
  offer_all-IsRouted sender m [] r p all ne a s = s
  offer_all-IsRouted sender m (x ∷ xs) r p all ne a s =
      offer_all-IsRouted sender m xs (offer sender m x r) p all ne a.1
        (offer-IsRouted sender m x r p all ne a.0 s)

  pub send_out-IsSpared : (r : Routing) → IsRouted r → IsSpared n k q c (send_out r)
  unfolding send_out
  send_out-IsSpared r s =
      if_intro (IsSpared n k q c) (is_empty r.woken)
        (λ _. deliver_all-IsSpared n k q c r.observers r.hub s.observers s.hub)
        (λ _.
          let counted = record r.hub { round = r.hub.round + 1 } in
          check_round_limit-IsSpared n k q c _ (
            deliver_all-IsSpared n k q c r.woken _ s.woken
              (deliver_all-IsSpared n k q c r.observers counted s.observers s.hub)))
