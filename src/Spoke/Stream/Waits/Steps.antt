-- ===== src/Spoke/Stream/Waits/Steps.antt =====
-- Each event of the stream against what the waiting says are promised.
use moot.Common.{
  ℕ, ◌≡◌, ◌∙◌, refl, sym, subst, Bool, true, false, not, ◌||◌, Option, none, some, [], ◌∷◌, inl,
  inr, Bool-cases, Option-cases, All, if_intro,
}
use mathlib.Core.Bool.{false≢true}
use mathlib.Core.Option.{none-ne-some, some-injective}
use moot.Common.Dict
use moot.Common.Dict.{Dict}
use moot.Core.Hub.State.{Host}
use moot.Core.Hub.Hello.Backlog.{is_text}
use moot.Core.Proto.Json.{Json}
use moot.Spoke.Render.{render, rejoined_line}
use moot.Spoke.Stream.{
  Slot, Reader, pumping, leaving, retrying, finished, Stream, hub_gone, send_on, put_all, slot_of,
  remove, seq_of, hand_to_waiter, pump, leave, notice, adopting, rejoined, take_over, go_live,
  greet, relay_state, begin_say, send_say, timed_out, end_say,
}
use moot.Spoke.Stream.Slots.{
  IsAnswered, IsWaiting, remove-All, remove-IsWaiting, put_all-IsWaiting, put_at-IsWaiting,
  begin-IsWaiting, put_all-IsAnswered, put_at-IsAnswered,
}

-- The reader is between two connections, or at a new one that is not live yet, or done.
unfoldable pub is_away : Reader → Bool
is_away pumping = false
is_away leaving = false
is_away retrying = true
is_away (adopting state) = true
is_away rejoined = false
is_away finished = true

-- Only here the stream is live.
unfoldable pub is_here : Reader → Bool
is_here pumping = true
is_here leaving = false
is_here retrying = false
is_here (adopting state) = false
is_here rejoined = true
is_here finished = false

pub record IsSound (s : Stream) : Type 0 where
  pub waiting : IsWaiting s.seq s.pending
  pub answered : is_away s.reader ≡ true → All IsAnswered s.pending
  pub idle : s.live ≡ true → is_here s.reader ≡ true

pub not_or : (b c : Bool) → (b || not c) ≡ false → c ≡ true
not_or true c h = absurd (false≢true (sym h))
not_or false true h = refl
not_or false false h = absurd (false≢true (sym h))

-- What neither the reader's place nor the waiting says depend on.
pub record IsSame (s t : Stream) : Type 0 where
  pub reader : t.reader ≡ s.reader
  pub live : t.live ≡ s.live
  pub seq : t.seq ≡ s.seq
  pub pending : t.pending ≡ s.pending

pub IsSame-IsSound : (s t : Stream) → IsSame s t → IsSound s → IsSound t
IsSame-IsSound s t q v = record {
  waiting = rw (q.seq, q.pending) v.waiting;
  answered = λ h. rw (q.pending) (v.answered (rw q.reader at h));
  idle = λ h. rw q.reader (v.idle (sym q.live ∙ h));
}

pub hand_to_waiter-IsSound :
    (f : Dict Json) (s : Stream) → IsSound s → IsSound (hand_to_waiter f s).1
unfolding hand_to_waiter
hand_to_waiter-IsSound f s v = elim (Option-cases (seq_of f)) [
  | inl e ↦ rw (hand_to_waiter, e) v
  | inr (n, e) ↦ elim (Option-cases (slot_of n s.pending)) [
    | inl g ↦ rw (hand_to_waiter, e, g) v
    | inr (slot, g) ↦
        rw (hand_to_waiter, e, g)
          (record {
            waiting = put_at-IsWaiting s.seq n f s.pending e v.waiting;
            answered = λ h. put_at-IsAnswered n f s.pending (v.answered h);
            idle = v.idle;
          })
  ]
]

pub same : (s : Stream) → IsSame s s
same s = record { reader = refl; live = refl; seq = refl; pending = refl }

pub pump-IsSound :
    (host : Host) (f : Dict Json) (s t : Stream) → pump host f s ≡ some t → IsSound s → IsSound t
unfolding send_on pump
pump-IsSound host f s t e v = elim (Bool-cases (is_text "t" "ping" f)) [
  | inl p ↦
      subst IsSound (some-injective _ t (rw (pump, p) at e))
        (IsSame-IsSound s _ (record { reader = refl; live = refl; seq = refl; pending = refl }) v)
  | inr p ↦ elim (Bool-cases (hand_to_waiter f s).0) [
    | inl w ↦
        subst IsSound (some-injective _ t (rw (pump, p, w) at e)) (hand_to_waiter-IsSound f s v)
    | inr w ↦ elim (Option-cases (render host f)) [
      | inl r ↦ absurd (none-ne-some t (rw (pump, p, w, r) at e))
      | inr (texts, r) ↦
          subst IsSound (some-injective _ t (rw (pump, p, w, r) at e)) (
            IsSame-IsSound s _ (record { reader = refl; live = refl; seq = refl; pending = refl })
              v)
    ]
  ]
]

here_not_away : (r : Reader) → is_here r ≡ true → is_away r ≡ true → ⊥
unfolding is_here is_away
here_not_away pumping h a = false≢true a
here_not_away leaving h a = false≢true h
here_not_away retrying h a = false≢true h
here_not_away (adopting state) h a = false≢true h
here_not_away rejoined h a = false≢true a
here_not_away finished h a = false≢true h

pub leave-IsSound : (s : Stream) → IsSound s → IsSound (leave s)
unfolding leave is_away
leave-IsSound s v = record {
  waiting = v.waiting;
  answered = λ h. absurd (false≢true h);
  idle = λ h. absurd (false≢true h);
}

-- Failing the waiting says answers every one of them.
pub failed-IsSound :
    (s t : Stream)
    → t.pending ≡ put_all hub_gone s.pending
    → t.seq ≡ s.seq
    → (t.live ≡ true → is_here t.reader ≡ true)
    → IsSound s
    → IsSound t
failed-IsSound s t p q i v = record {
  waiting = rw (p, q) (put_all-IsWaiting s.seq s.pending v.waiting);
  answered = λ _. rw p (put_all-IsAnswered hub_gone s.pending);
  idle = i;
}

-- A reader that is back at a connection, with the waiting says as they were.
back-IsSound :
    (s u : Stream)
    → u.pending ≡ s.pending
    → u.seq ≡ s.seq
    → is_away u.reader ≡ false
    → is_here u.reader ≡ true
    → IsSound s
    → IsSound u
back-IsSound s u p q a h v = record {
  waiting = rw (p, q) v.waiting;
  answered = λ away. absurd (false≢true (sym a ∙ away));
  idle = λ _. h;
}

pub take_over-IsSound :
    (conn : ℕ) (s : Stream) → s.reader ≡ retrying → IsSound s → IsSound (take_over conn s)
unfolding take_over is_away is_here
take_over-IsSound conn s r v = record {
  waiting = v.waiting;
  answered = λ _. v.answered (rw r refl);
  idle = λ h. absurd (false≢true (let here = v.idle h in rw r at here));
}

pub go_live-IsSound :
    (state : Option (Dict Json)) (s : Stream) → IsSound s → IsSound (go_live state s)
unfolding go_live send_on is_away is_here
go_live-IsSound none s v = back-IsSound s _ refl refl refl refl v
go_live-IsSound (some frame) s v = back-IsSound s _ refl refl refl refl v

pub greet-IsSound :
    (host : Host) (welcome : Dict Json) (s t : Stream)
    → greet host welcome s ≡ some t
    → IsSound s
    → IsSound t
unfolding greet notice is_away is_here
greet-IsSound host welcome s t e v =
    elim (Option-cases (rejoined_line host (Dict.put "kind" (Json.str s.kind) welcome))) [
      | inl r ↦ absurd (none-ne-some t (rw (greet, r) at e))
      | inr (text, r) ↦
          subst IsSound (some-injective _ t (rw (greet, r) at e))
            (back-IsSound s _ refl refl refl refl v)
    ]

pub relay_state-IsSame : (d : Bool) (f : Dict Json) (s : Stream) → IsSame s (relay_state d f s)
unfolding relay_state send_on
relay_state-IsSame d f s =
    if_intro (IsSame s) s.live
      (λ _.
        if_intro (IsSame s) d
          (λ _. record { reader = refl; live = refl; seq = refl; pending = refl })
          (λ _. record { reader = refl; live = refl; seq = refl; pending = refl }))
      (λ _. record { reader = refl; live = refl; seq = refl; pending = refl })

pub begin_say-IsSound : (s : Stream) → IsSound s → IsSound (begin_say s).1
unfolding begin_say
begin_say-IsSound s v =
    if_intro (λ (r : Option (ℕ × ℕ) × Stream). IsSound r.1) (s.closed || not s.live) (λ _. v)
      (λ e.
        let alive = v.idle (not_or _ _ e) in
        record {
          waiting = (begin-IsWaiting s.seq s.pending v.waiting).0;
          answered = λ h. absurd (here_not_away s.reader alive h);
          idle = v.idle;
        })

pub removed-IsSound :
    (n : ℕ) (s : Stream) → IsSound s → IsSound (record s { pending = remove n s.pending })
removed-IsSound n s v = record {
  waiting = remove-IsWaiting s.seq n s.pending v.waiting;
  answered = λ h. remove-All IsAnswered n s.pending (v.answered h);
  idle = v.idle;
}

pub send_say-IsSound :
    (d : Bool) (conn n : ℕ) (f : Dict Json) (s : Stream)
    → IsSound s
    → IsSound (send_say d conn n f s)
unfolding send_say send_on
send_say-IsSound d conn n f s v =
    if_intro IsSound d
      (λ _.
        IsSame-IsSound s _ (record { reader = refl; live = refl; seq = refl; pending = refl }) v)
      (λ _. removed-IsSound n s v)

pub end_say-IsSound : (n : ℕ) (s : Stream) → IsSound s → IsSound (end_say n s).1
unfolding end_say
end_say-IsSound n s v = go (slot_of n s.pending)
  where
    go :
        (o : Option Slot)
        → IsSound
            (elim o as (λ _. Dict Json × Stream) [
              | some (reply ∷ rest) ↦ (reply, record s { pending = remove n s.pending })
              | _ ↦ (timed_out, record s { pending = remove n s.pending })
            ]).1
    go none = removed-IsSound n s v
    go (some []) = removed-IsSound n s v
    go (some (reply ∷ rest)) = removed-IsSound n s v
