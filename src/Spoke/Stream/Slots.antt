-- ===== src/Spoke/Stream/Slots.antt =====
-- The slots of the says that wait.
use moot.Common.{
  ℕ, ◌+◌, ◌≤◌, ◌<◌, ◌≡◌, ◌∙◌, refl, sym, ap, some, List, [], ◌∷◌, ◌++◌, ◌⊎◌, eqb, eqb_iff, arith,
  inl, inr, length, length-concat, All, All-concat, if_intro,
}
use moot.Common.Dict.{Dict}
use moot.Core.Proto.Json.{Json}
use moot.Spoke.Stream.{Slot, hub_gone, put_at, put_all, remove, seq_of}

-- A reply in the slot of a say: that the hub is gone, or the hub's answer to this say.
unfoldable pub IsOwn : ℕ → Dict Json → Type 0
IsOwn n f = (f ≡ hub_gone) ⊎ (seq_of f ≡ some n)

unfoldable pub IsAnswered : ℕ × Slot → Type 0
IsAnswered p = 0 < length p.1

-- Each waiting say, with the seqs in the order in which they were given out.
unfoldable pub IsWaiting : ℕ → List (ℕ × Slot) → Type 0
IsWaiting seq [] = Unit
IsWaiting seq (p ∷ rest) =
    All (IsOwn p.0) p.1 × (p.0 ≤ seq) × All (λ q. p.0 < q.0) rest × IsWaiting seq rest

module _ (P : ℕ × Slot → Type 0) where
  pub remove-All : (n : ℕ) (ps : List (ℕ × Slot)) → All P ps → All P (remove n ps)
  unfolding remove
  remove-All n [] a = tt
  remove-All n (p ∷ ps) a =
      if_intro (All P) (eqb p.0 n) (λ _. a.1) (λ _. (a.0, remove-All n ps a.1))

module _ (P : ℕ → Type 0) where
  put_at-All :
      (n : ℕ) (f : Dict Json) (ps : List (ℕ × Slot))
      → All (λ q. P q.0) ps
      → All (λ q. P q.0) (put_at n f ps)
  unfolding put_at
  put_at-All n f [] a = tt
  put_at-All n f (p ∷ ps) a =
      if_intro (All (λ q. P q.0)) (eqb p.0 n) (λ _. a) (λ _. (a.0, put_at-All n f ps a.1))

  put_all-All :
      (f : Dict Json) (ps : List (ℕ × Slot)) → All (λ q. P q.0) ps → All (λ q. P q.0) (put_all f ps)
  unfolding put_all
  put_all-All f [] a = tt
  put_all-All f (p ∷ ps) a = (a.0, put_all-All f ps a.1)

pub remove-IsWaiting :
    (seq n : ℕ) (ps : List (ℕ × Slot)) → IsWaiting seq ps → IsWaiting seq (remove n ps)
unfolding remove IsWaiting
remove-IsWaiting seq n [] v = tt
remove-IsWaiting seq n (p ∷ ps) v =
    if_intro (IsWaiting seq) (eqb p.0 n) (λ _. v.3)
      (λ _. (v.0, v.1, remove-All (λ q. p.0 < q.0) n ps v.2, remove-IsWaiting seq n ps v.3))

pub put_all-IsWaiting :
    (seq : ℕ) (ps : List (ℕ × Slot)) → IsWaiting seq ps → IsWaiting seq (put_all hub_gone ps)
unfolding put_all IsWaiting IsOwn
put_all-IsWaiting seq [] v = tt
put_all-IsWaiting seq (p ∷ ps) v = (
  All-concat (IsOwn p.0) p.1 hub_gone v.0 (inl refl),
  v.1,
  put_all-All (λ n. p.0 < n) hub_gone ps v.2,
  put_all-IsWaiting seq ps v.3,
)

pub put_at-IsWaiting :
    (seq n : ℕ) (f : Dict Json) (ps : List (ℕ × Slot))
    → seq_of f ≡ some n
    → IsWaiting seq ps
    → IsWaiting seq (put_at n f ps)
unfolding put_at IsWaiting IsOwn
put_at-IsWaiting seq n f [] h v = tt
put_at-IsWaiting seq n f (p ∷ ps) h v =
    if_intro (IsWaiting seq) (eqb p.0 n)
      (λ e. (
        All-concat (IsOwn p.0) p.1 f v.0 (inr (h ∙ ap some (sym ((eqb_iff p.0 n).0 e)))),
        v.1,
        v.2,
        v.3,
      ))
      (λ _. (v.0, v.1, put_at-All (λ m. p.0 < m) n f ps v.2, put_at-IsWaiting seq n f ps h v.3))

pub begin-IsWaiting :
    (seq : ℕ) (ps : List (ℕ × Slot))
    → IsWaiting seq ps
    → IsWaiting (seq + 1) (ps ++ (seq + 1, []) ∷ [])
      × ((n : ℕ) → n ≤ seq → All (λ q. n < q.0) ps → All (λ q. n < q.0) (ps ++ (seq + 1, []) ∷ []))
unfolding IsWaiting
begin-IsWaiting seq [] v = ((tt, omega arith, tt, tt), λ n h a. (omega arith, tt))
begin-IsWaiting seq (p ∷ ps) v =
    let rest = begin-IsWaiting seq ps v.3 in
    ((v.0, omega (arith, v.1), rest.1 p.0 v.1 v.2, rest.0), λ n h a. (a.0, rest.1 n h a.1))

pub put_all-IsAnswered : (f : Dict Json) (ps : List (ℕ × Slot)) → All IsAnswered (put_all f ps)
unfolding put_all IsAnswered
put_all-IsAnswered f [] = tt
put_all-IsAnswered f ((n, slot) ∷ ps) =
    (omega (arith, length-concat slot f), put_all-IsAnswered f ps)

pub put_at-IsAnswered :
    (n : ℕ) (f : Dict Json) (ps : List (ℕ × Slot))
    → All IsAnswered ps
    → All IsAnswered (put_at n f ps)
unfolding put_at IsAnswered
put_at-IsAnswered n f [] a = tt
put_at-IsAnswered n f (p ∷ ps) a =
    if_intro (All IsAnswered) (eqb p.0 n) (λ _. (omega (arith, length-concat p.1 f), a.1))
      (λ _. (a.0, put_at-IsAnswered n f ps a.1))
