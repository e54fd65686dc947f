-- ===== src/Spoke/Inbox/Ends.antt =====
-- That a wait ends.
use Prim.Native.String.{String}
use moot.Common.{
  ℕ, ◌+◌, ◌≡◌, ◌≢◌, true, List, [], ◌∷◌, inl, inr, ltb, leb, arith, any, Bool-cases, Option-cases,
}
use mathlib.Core.Bool.{false≢true}
use moot.Spoke.Inbox.{
  Place, Bridge, waiting, Look, report, read_cursor, size, grow, consume_unread, wait_loop,
  run_wait,
}

pub consume_unread_ends :
    (p : Place) (start : ℕ) (b : Bridge) → (consume_unread p start b).0 ≢ waiting
unfolding consume_unread
consume_unread_ends p start b = ground arith

pub wait_loop_ends :
    (p : Place) (looks : List Look) (settled : List ℕ) (start deadline : ℕ) (timeout : String)
    (b : Bridge)
    → any (λ l. leb deadline l.clock) looks ≡ true
    → (wait_loop p looks settled start deadline timeout b).0 ≢ waiting
unfolding wait_loop
wait_loop_ends p [] settled start deadline timeout b late = absurd (false≢true late)
wait_loop_ends p (look ∷ looks) settled start deadline timeout b late =
    let t = grow look.grown b in
    elim (Bool-cases (ltb start (size t))) [
      | inl e ↦ rw (wait_loop, e) (consume_unread_ends p start (grow settled (report p "busy" t)))
      | inr e ↦ elim (Bool-cases (leb deadline look.clock)) [
        | inl l ↦ rw (wait_loop, e, l) (ground arith)
        | inr l ↦
            rw (wait_loop, e, l)
              (wait_loop_ends p looks settled start deadline timeout t (rw (l) at late))
      ]
    ]

-- A wait whose clock reaches the deadline at some look ends: with new text, with nothing, or with an
-- exception.
pub run_wait_ends :
    (p : Place) (now timeout : ℕ) (looks : List Look) (settled : List ℕ) (b : Bridge)
    → any (λ l. leb (now + timeout) l.clock) looks ≡ true
    → (run_wait p now timeout looks settled b).0 ≢ waiting
unfolding run_wait
run_wait_ends p now timeout looks settled b late = elim (Option-cases (read_cursor p b)) [
  | inl e ↦ rw (run_wait, e) (ground arith)
  | inr (start, e) ↦
      rw (run_wait, e)
        (wait_loop_ends p looks settled start (now + timeout) (p.rounded timeout)
          (report p "idle" b) late)
]
