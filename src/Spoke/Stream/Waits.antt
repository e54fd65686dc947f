-- ===== src/Spoke/Stream/Waits.antt =====
-- The says that wait for their replies, under every order of the threads.
pub mod Steps
use Prim.Native.String.{String}
use moot.Common.{
  ℕ, ◌<◌, ◌≡◌, ◌∙◌, refl, sym, ap, subst, Bool, true, false, not, ◌||◌, Option, none, some, List,
  [], ◌∷◌, ◌++◌, ◌⊎◌, eqb, eqb_iff, arith, inl, inr, Bool-cases, Option-cases, length, All,
  if_intro,
}
use mathlib.Core.Bool.{false≢true}
use mathlib.Core.Option.{none-ne-some, some-injective}
use moot.Common.Dict
use moot.Common.Dict.{Dict}
use moot.Core.Hub.State.{Host}
use moot.Core.Hub.Hello.Backlog.{is_text}
use moot.Core.Proto.Json.{Json}
use moot.Spoke.Render.{render, rejoined_line}
use moot.Spoke.Stream.{
  Slot, Reader, pumping, leaving, retrying, finished, Stream, new_stream, hub_gone, send_on,
  put_all, slot_of, remove, fail_pending, seq_of, hand_to_waiter, pump, leave, give_up_waiting,
  finish, notice, adopting, rejoined, take_over, go_live, greet, relay_state, begin_say, send_say,
  timed_out, end_say, Step, reads, ends, fails, rejoins, replays, greets, stops, reports, begins,
  transmits, answers, Runs, here, then_on,
}
use moot.Spoke.Stream.Slots.{
  IsOwn, IsAnswered, IsWaiting, remove-All, remove-IsWaiting, put_all-IsWaiting, put_at-IsWaiting,
  begin-IsWaiting, put_all-IsAnswered, put_at-IsAnswered,
}
use moot.Spoke.Stream.Waits.Steps.{
  IsSound, not_or, IsSame, IsSame-IsSound, hand_to_waiter-IsSound, same, pump-IsSound, is_here,
  leave-IsSound, failed-IsSound, take_over-IsSound, go_live-IsSound, greet-IsSound, is_away,
  relay_state-IsSame, begin_say-IsSound, removed-IsSound, send_say-IsSound, end_say-IsSound,
}

Step-IsSound : (host : Host) (s t : Stream) → Step host s t → IsSound s → IsSound t
unfolding give_up_waiting fail_pending finish is_here
Step-IsSound host s t (reads f _ _ _ e) v = pump-IsSound host f s t e v
Step-IsSound host s t (ends _ _) v = leave-IsSound s v
Step-IsSound host s t (fails _ gone) v =
    failed-IsSound s _ refl refl
      (λ h. absurd (false≢true (let there = v.idle h in rw gone at there))) v
Step-IsSound host s t (rejoins conn _ r) v = take_over-IsSound conn s r v
Step-IsSound host s t (replays state _ r) v = go_live-IsSound state s v
Step-IsSound host s t (greets w _ _ r e) v = greet-IsSound host w s t e v
Step-IsSound host s t (stops _ _) v = failed-IsSound s _ refl refl (λ h. absurd (false≢true h)) v
Step-IsSound host s t (reports d f _) v = IsSame-IsSound s _ (relay_state-IsSame d f s) v
Step-IsSound host s t (begins _) v = begin_say-IsSound s v
Step-IsSound host s t (transmits d conn n f _) v = send_say-IsSound d conn n f s v
Step-IsSound host s t (answers n _) v = end_say-IsSound n s v

new_stream-IsSound : (conn : ℕ) (name kind role : String) → IsSound (new_stream conn name kind role)
unfolding new_stream IsWaiting is_here
new_stream-IsSound conn name kind role = record {
  waiting = tt;
  answered = λ _. tt;
  idle = λ _. refl;
}

Runs-IsSound :
    (host : Host) (conn : ℕ) (name kind role : String) (s : Stream)
    → Runs host (new_stream conn name kind role) s
    → IsSound s
Runs-IsSound host conn name kind role s here = new_stream-IsSound conn name kind role
Runs-IsSound host conn name kind role s (then_on r _ before step) =
    Step-IsSound host r s step (Runs-IsSound host conn name kind role r before)

-- What a waiting say gets.
pub record IsReplied (seq : ℕ) (s : Stream) (reply : Dict Json) : Type 0 where
  pub own : (reply ≡ timed_out) ⊎ IsOwn seq reply
  pub no_wait : is_away s.reader ≡ true → IsOwn seq reply

first-IsOwn :
    (seq n : ℕ) (ps : List (ℕ × Slot)) (slot : Slot)
    → IsWaiting seq ps
    → slot_of n ps ≡ some slot
    → All (IsOwn n) slot × (All IsAnswered ps → 0 < length slot)
unfolding slot_of IsWaiting IsAnswered
first-IsOwn seq n [] slot v e = absurd (none-ne-some slot e)
first-IsOwn seq n (p ∷ ps) slot v e = elim (Bool-cases (eqb p.0 n)) [
  | inl f ↦
      let at = some-injective p.1 slot (rw (slot_of, f) at e) in
      (
        subst (λ m. All (IsOwn m) slot) ((eqb_iff p.0 n).0 f) (subst (All (IsOwn p.0)) at v.0),
        λ a. subst (λ x. 0 < length x) at a.0,
      )
  | inr f ↦
      let rest = first-IsOwn seq n ps slot v.3 (rw (slot_of, f) at e) in (rest.0, λ a. rest.1 a.1)
]

-- Whatever the order of the threads, of the frames of the hub and of its going and coming back, a
-- waiting say gets the hub's answer to this say, or that the hub is gone, or after its wait the
-- timeout; and while the reader is between two connections, at a new one that is not live yet, or
-- done, it does not wait in vain: its slot has one of the first two.
pub Runs-IsReplied :
    (host : Host) (conn : ℕ) (name kind role : String) (s : Stream) (seq : ℕ) (slot : Slot)
    → Runs host (new_stream conn name kind role) s
    → slot_of seq s.pending ≡ some slot
    → IsReplied seq s (end_say seq s).0
unfolding end_say
Runs-IsReplied host conn name kind role s seq slot r e =
    let v = Runs-IsSound host conn name kind role s r in
    let (own, enough) = first-IsOwn s.seq seq s.pending slot v.waiting e in
    rw (end_say, e) (go slot own (λ h. enough (v.answered h)))
  where
    go :
        (slot : Slot)
        → All (IsOwn seq) slot
        → (is_away s.reader ≡ true → 0 < length slot)
        → IsReplied seq s
            (elim slot as (λ _. Dict Json × Stream) [
              | reply ∷ rest ↦ (reply, record s { pending = remove seq s.pending })
              | [] ↦ (timed_out, record s { pending = remove seq s.pending })
            ]).0
    go [] own enough = record {
      own = inl refl;
      no_wait = λ h. absurd (let some_reply = enough h in omega arith);
    }
    go (reply ∷ rest) own enough = record { own = inr own.0; no_wait = λ h. own.0 }

last_state-relay_state :
    (d : Bool) (f : Dict Json) (s : Stream) → (relay_state d f s).last_state ≡ some f
unfolding relay_state send_on
last_state-relay_state d f s =
    if_intro (λ (t : Stream). t.last_state ≡ some f) s.live
      (λ _. if_intro (λ (t : Stream). t.last_state ≡ some f) d (λ _. refl) (λ _. refl)) (λ _. refl)

-- A reported state is not lost where the connection ends: the next take-over will replay it.
take_over-relay_state :
    (delivered : Bool) (state : Dict Json) (conn : ℕ) (s : Stream)
    → (take_over conn (relay_state delivered state s)).reader ≡ adopting (some state)
unfolding take_over
take_over-relay_state delivered state conn s =
    ap adopting (last_state-relay_state delivered state s)
