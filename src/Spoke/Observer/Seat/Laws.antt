-- ===== src/Spoke/Observer/Seat/Laws.antt =====
-- The ring of recent messages, and what can be looked up in it.
use moot.Common.{
  ℕ, zero, suc, ◌+◌, ◌-◌, ◌≤◌, ◌<◌, ◌≡◌, refl, subst, not, none, some, List, [], ◌∷◌, ◌++◌, leb,
  leb→le, All-imp, arith, inl, inr, Bool-cases, Option-cases, length, drop, take_last, keep, All,
  length-drop, drop-append, length-concat, if_intro,
}
use mathlib.Core.List.{append_assoc, append-nil}
use mathlib.Core.Option.{none-ne-some, some-injective}
use moot.Core.Proto.Json.{Json}
use moot.Spoke.Render.{object}
use moot.Spoke.Observer.Seat.{Entry, Seat, ring_cap, push, msg_id, ring_entry, observe_msgs}
use moot.Spoke.Observer.Seat.Lookup.{
  Files, transcript_msgs, insert_entry, sort_entries, recent, last_entries, has_id,
}

-- The ring is the end of a history, as long as the cap allows.
unfoldable pub IsTail : List Entry → List Entry → Type 0
IsTail ring history = ring ≡ take_last ring_cap history

drop-drop : (m n : ℕ) (xs : List Entry) → drop m (drop n xs) ≡ drop (n + m) xs
drop-drop m zero xs = let same : 0 + m ≡ m = omega arith in rw same refl
drop-drop zero (suc n) [] = let same : suc n + 0 ≡ suc n = omega arith in rw same refl
drop-drop (suc m) (suc n) [] =
    let same : suc n + suc m ≡ suc (n + suc m) = omega arith in rw same refl
drop-drop m (suc n) (x ∷ xs) =
    let same : suc n + m ≡ suc (n + m) = omega arith in rw same (drop-drop m n xs)

push-IsTail :
    (e : Entry) (s : Seat) (history : List Entry)
    → IsTail s.ring history
    → IsTail (push e s).ring (history ++ e ∷ [])
unfolding push IsTail
push-IsTail e s history h =
    let n = length history - ring_cap in
    let long : length s.ring ≡ length history - n = rw h (length-drop n history) in
    let longer = length-concat history e in
    if_intro (λ ring. ring ≡ take_last ring_cap (history ++ e ∷ [])) (leb ring_cap (length s.ring))
      (λ full.
        let enough : ring_cap ≤ length history = ground (arith, long, full) in
        let next : length (history ++ e ∷ []) - ring_cap ≡ n + 1 = omega (arith, longer) in
        rw (next, drop-append (n + 1) history (e ∷ []) (omega arith), h, drop-drop 1 n history)
          refl)
      (λ space.
        let few : length history < ring_cap = ground (arith, long, space) in
        let none_left : length (history ++ e ∷ []) - ring_cap ≡ 0 = omega (arith, longer) in
        let none_before : n ≡ 0 = omega arith in rw (none_left, h, none_before) refl)

-- What the messages of a deliver frame add to the history: those with an id.
unfoldable pub entries_in : List Json → List Entry
entries_in [] = []
entries_in (v ∷ vs) = elim (object v) [
  | none ↦ entries_in vs
  | some m ↦ elim (msg_id m) [
    | none ↦ entries_in vs
    | some id ↦ elim (ring_entry id m) [ none ↦ entries_in vs | some e ↦ e ∷ entries_in vs ]
  ]
]

-- The ring after a deliver frame is the end of the history with the messages of the frame that
-- have an id, in their order.
pub observe_msgs-IsTail :
    (vs : List Json) (s t : Seat) (history : List Entry)
    → IsTail s.ring history
    → observe_msgs vs s ≡ some t
    → IsTail t.ring (history ++ entries_in vs)
unfolding observe_msgs entries_in IsTail
observe_msgs-IsTail [] s t history h e =
    rw (append-nil history)
      (subst (λ (x : Seat). x.ring ≡ take_last ring_cap history) (some-injective s t e) h)
observe_msgs-IsTail (v ∷ vs) s t history h e = elim (Option-cases (object v)) [
  | inl bad ↦ absurd (none-ne-some t (rw (observe_msgs, bad) at e))
  | inr (m, is_object) ↦ elim (Option-cases (msg_id m)) [
    | inl plain ↦
        rw (entries_in, is_object, plain)
          (observe_msgs-IsTail vs s t history h (rw (observe_msgs, is_object, plain) at e))
    | inr (id, named) ↦ elim (Option-cases (ring_entry id m)) [
      | inl bad ↦ absurd (none-ne-some t (rw (observe_msgs, is_object, named, bad) at e))
      | inr (x, made) ↦
          rw (entries_in, is_object, named, made, ← append_assoc history (x ∷ []) (entries_in vs))
            (observe_msgs-IsTail vs (push x s) t (history ++ x ∷ []) (push-IsTail x s history h)
              (rw (observe_msgs, is_object, named, made) at e))
    ]
  ]
]

-- Ordered by id.
unfoldable pub IsSorted : List Entry → Type 0
IsSorted [] = Unit
IsSorted (e ∷ es) = All (λ x. e.id ≤ x.id) es × IsSorted es

insert_entry-All :
    (P : Entry → Type 0) (e : Entry) (es : List Entry) → P e → All P es → All P (insert_entry e es)
unfolding insert_entry
insert_entry-All P e [] h a = (h, tt)
insert_entry-All P e (x ∷ xs) h a =
    if_intro (All P) (leb e.id x.id) (λ _. (h, a)) (λ _. (a.0, insert_entry-All P e xs h a.1))

insert_entry-IsSorted : (e : Entry) (es : List Entry) → IsSorted es → IsSorted (insert_entry e es)
unfolding insert_entry IsSorted
insert_entry-IsSorted e [] v = (tt, tt)
insert_entry-IsSorted e (x ∷ xs) v =
    if_intro IsSorted (leb e.id x.id)
      (λ h.
        let below = leb→le e.id x.id h in
        (
          (
            below,
            All-imp (λ y. x.id ≤ y.id) (λ y. e.id ≤ y.id) (λ y k. omega (arith, below, k)) xs v.0,
          ),
          v,
        ))
      (λ h. (
        insert_entry-All (λ y. x.id ≤ y.id) e xs (ground (arith, h)) v.0,
        insert_entry-IsSorted e xs v.1,
      ))

sort_entries-IsSorted : (es : List Entry) → IsSorted (sort_entries es)
unfolding sort_entries IsSorted
sort_entries-IsSorted [] = tt
sort_entries-IsSorted (e ∷ es) =
    insert_entry-IsSorted e (sort_entries es) (sort_entries-IsSorted es)

length-insert_entry : (e : Entry) (es : List Entry) → length (insert_entry e es) ≡ suc (length es)
unfolding insert_entry
length-insert_entry e [] = refl
length-insert_entry e (x ∷ xs) = ground (arith, length-insert_entry e xs)

length-sort_entries : (es : List Entry) → length (sort_entries es) ≡ length es
unfolding sort_entries
length-sort_entries [] = refl
length-sort_entries (e ∷ es) =
    omega (arith, length-insert_entry e (sort_entries es), length-sort_entries es)

drop-IsSorted : (n : ℕ) (es : List Entry) → IsSorted es → IsSorted (drop n es)
unfolding IsSorted
drop-IsSorted zero es v = v
drop-IsSorted (suc n) [] v = tt
drop-IsSorted (suc n) (e ∷ es) v = drop-IsSorted n es v.1

length-last_entries : (n : ℕ) (es : List Entry) → length (last_entries (suc n) es) ≤ suc n
unfolding last_entries
length-last_entries n es = omega (arith, length-drop (length es - suc n) es)

-- A positive count asks for at most so many messages, and where the ring is in the order of ids,
-- they are in that order, whether or not the transcript had to be read.
pub recent_lem :
    (f : Files) (n : ℕ) (s : Seat) (es : List Entry)
    → IsSorted s.ring
    → recent f (suc n) s ≡ some es
    → (length es ≤ suc n) × IsSorted es
unfolding recent last_entries
recent_lem f n s es v h =
    let entries = last_entries (suc n) s.ring in
    elim (Bool-cases (leb (suc n) (length entries))) [
      | inl enough ↦
          let same = some-injective entries es (rw (recent, enough) at h) in
          (
            subst (λ xs. length xs ≤ suc n) same (length-last_entries n s.ring),
            subst IsSorted same (drop-IsSorted (length s.ring - suc n) s.ring v),
          )
      | inr few ↦ elim (Option-cases (transcript_msgs f)) [
        | inl broken ↦ absurd (none-ne-some es (rw (recent, few, broken) at h))
        | inr (msgs, read) ↦
            let older = keep (λ e. not (has_id e.id entries)) msgs in
            let all = last_entries (suc n) (older ++ entries) in
            let same = some-injective (sort_entries all) es (rw (recent, few, read) at h) in
            (
              subst (λ xs. length xs ≤ suc n) same
                  (omega
                    (arith, length-sort_entries all, length-last_entries n (older ++ entries))),
              subst IsSorted same (sort_entries-IsSorted all),
            )
      ]
    ]
