-- ===== src/Core/Hub/Sound.antt =====
-- Sound participants: the bounds on the buffers and the kinds of messages in them, and what the
-- operations on one participant do to them.
use moot.Common.{
  ℕ, suc, ◌+◌, ◌≤◌, ◌<◌, ◌≡◌, refl, sym, subst, true, false, Option, List, [], ◌∷◌, arith, All,
  All-append, All-concat, All-take, All-drop, length, drop, length-concat, length-drop, if_intro,
  leb, eqb,
}
use moot.Core.Types.{Msg, is_overheard}
use moot.Core.Config.{Config}
use moot.Core.Buffer
use moot.Core.Buffer.{ContextBuffer, make_room, placeholder, drain_items}
use moot.Core.Hub.State.{Participant}
use moot.Core.Hub.Delivery.{enqueue_at, pending, dropped_notice, slice}

-- The caps of the configuration are positive.
pub record IsSane (c : Config) : Type 0 where
  pub context : 0 < c.context_cap
  pub queue : 0 < c.queue_cap
  pub wakes : 0 < c.deliver_wake_cap
  pub rounds : 0 < c.initial_max_rounds

abbrev pub IsWake : Msg → Type 0
IsWake m = is_overheard m.addressing ≡ false

abbrev pub IsContext : Msg → Type 0
IsContext m = is_overheard m.addressing ≡ true

pub record IsSoundBuffer (cap : ℕ) (b : ContextBuffer) : Type 0 where
  pub capped : b.cap ≡ cap
  pub bounded : length b.items ≤ cap
  pub overheard : All IsContext b.items

pub record IsSound (c : Config) (p : Participant) : Type 0 where
  pub context : IsSoundBuffer c.context_cap p.context
  pub bounded : length p.queue ≤ c.queue_cap
  pub wakes : All IsWake p.queue

make_room_bound :
    (cap : ℕ) (xs : List Msg) (e : ℕ)
    → 0 < cap
    → All IsContext xs
    → (length (make_room cap xs e).0 < cap) × All IsContext (make_room cap xs e).0
unfolding make_room
make_room_bound cap [] e h a = (h, tt)
make_room_bound cap (x ∷ xs) e h a =
    if_intro (λ (r : List Msg × ℕ). (length r.0 < cap) × All IsContext r.0)
      (leb cap (length (x ∷ xs))) (λ _. make_room_bound cap xs (e + 1) h a.1)
      (λ f. (ground arith, a))

pub append-IsSoundBuffer :
    (cap : ℕ) (b : ContextBuffer) (m : Msg)
    → 0 < cap
    → IsContext m
    → IsSoundBuffer cap b
    → IsSoundBuffer cap (Buffer.append b m)
unfolding Buffer.append
append-IsSoundBuffer cap b m h k s =
    let room =
      make_room_bound b.cap b.items b.evicted (subst (λ n. 0 < n) (sym s.capped) h) s.overheard in
    record {
      capped = s.capped;
      bounded =
          omega (arith, length-concat (make_room b.cap b.items b.evicted).0 m, room.0, s.capped);
      overheard = All-concat IsContext (make_room b.cap b.items b.evicted).0 m room.1 k;
    }

drain_items_bound :
    (upto : Option ℕ) (xs : List Msg)
    → All IsContext xs
    → (length (drain_items upto xs).1 ≤ length xs)
      × All IsContext (drain_items upto xs).0
      × All IsContext (drain_items upto xs).1
unfolding drain_items
drain_items_bound upto [] a = (omega arith, tt, tt)
drain_items_bound upto (x ∷ xs) a =
    let (short, taken, left) = drain_items_bound upto xs a.1 in
    if_intro
      (λ (r : List Msg × List Msg).
        (length r.1 ≤ length (x ∷ xs)) × All IsContext r.0 × All IsContext r.1)
      (Buffer.within upto x) (λ _. (omega arith, (a.0, taken), left)) (λ _. (omega arith, tt, a))

pub drain-IsSoundBuffer :
    (cap : ℕ) (b : ContextBuffer) (upto : Option ℕ)
    → IsSoundBuffer cap b
    → IsSoundBuffer cap (Buffer.drain b upto).1 × All IsContext (Buffer.drain b upto).0
unfolding Buffer.drain placeholder is_overheard
drain-IsSoundBuffer cap b upto s =
    let (short, taken, left) = drain_items_bound upto b.items s.overheard in
    (
      record { capped = s.capped; bounded = omega (arith, s.bounded); overheard = left },
      All-append IsContext _ _
          (if_intro (All IsContext) (eqb b.evicted 0) (λ _. tt) (λ _. (refl, tt))) taken,
    )

pub name-enqueue_at : (cap : ℕ) (m : Msg) (p : Participant) → (enqueue_at cap m p).name ≡ p.name
unfolding enqueue_at
name-enqueue_at cap m p =
    if_intro (λ (q : Participant). q.name ≡ p.name) (leb cap (length p.queue)) (λ _. refl)
      (λ _. refl)

pub client-enqueue_at :
    (cap : ℕ) (m : Msg) (p : Participant) → (enqueue_at cap m p).client ≡ p.client
unfolding enqueue_at
client-enqueue_at cap m p =
    if_intro (λ (q : Participant). q.client ≡ p.client) (leb cap (length p.queue)) (λ _. refl)
      (λ _. refl)

pub name-slice : (cap : ℕ) (p : Participant) → (slice cap p).2.name ≡ p.name
unfolding slice
name-slice cap p = refl

pub client-slice : (cap : ℕ) (p : Participant) → (slice cap p).2.client ≡ p.client
unfolding slice
client-slice cap p = refl

pub enqueue_at-IsSound :
    (c : Config) (m : Msg) (p : Participant)
    → 0 < c.queue_cap
    → IsWake m
    → IsSound c p
    → IsSound c (enqueue_at c.queue_cap m p)
unfolding enqueue_at
enqueue_at-IsSound c m p h w s =
    if_intro (IsSound c) (leb c.queue_cap (length p.queue))
      (λ full. record {
        context = s.context;
        bounded = omega (arith, length-concat (drop 1 p.queue) m, length-drop 1 p.queue, s.bounded);
        wakes = All-concat IsWake (drop 1 p.queue) m (All-drop IsWake 1 p.queue s.wakes) w;
      })
      (λ room. record {
        context = s.context;
        bounded = ground (arith, length-concat p.queue m);
        wakes = All-concat IsWake p.queue m s.wakes w;
      })

pending_bound :
    (c : Config) (p : Participant)
    → IsSound c p
    → (length (pending p) ≤ suc (length p.queue)) × All IsWake (pending p)
unfolding pending dropped_notice is_overheard
pending_bound c p s =
    if_intro (λ q. (length q ≤ suc (length p.queue)) × All IsWake q) (eqb p.queue_dropped 0)
      (λ _. (omega arith, s.wakes)) (λ _. (omega arith, (refl, s.wakes)))

-- A flush leaves a sound participant, and sends wakes behind nothing but context.
pub slice-IsSound :
    (c : Config) (p : Participant)
    → IsSane c
    → IsSound c p
    → IsSound c (slice c.deliver_wake_cap p).2 × All IsWake (slice c.deliver_wake_cap p).0
unfolding slice
slice-IsSound c p sane s =
    let (short, wakes) = pending_bound c p s in
    let (buffer, _) = drain-IsSoundBuffer c.context_cap p.context _ s.context in
    (
      record {
        context = buffer;
        bounded =
            omega (arith, length-drop c.deliver_wake_cap (pending p), short, s.bounded, sane.wakes);
        wakes = All-drop IsWake c.deliver_wake_cap (pending p) wakes;
      },
      All-take IsWake c.deliver_wake_cap (pending p) wakes,
    )
