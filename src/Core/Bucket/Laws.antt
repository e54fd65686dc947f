-- ===== src/Core/Bucket/Laws.antt =====
-- The rate that a bucket lets through, and what `retry_after` promises.
use moot.Common.{
  ℕ, zero, suc, ◌+◌, ◌-◌, ◌*◌, ◌≤◌, ◌≡◌, subst, some, List, [], ◌∷◌, arith, ltb, Bool-cases, inl,
  inr, All, if◌then◌else◌,
}
use moot.Core.Bucket.{TokenBucket, create, refill, take}

-- the number of calls of `take`, at the given times, that get a token
pub granted : TokenBucket → List ℕ → ℕ
granted b [] = 0
granted b (now ∷ times) =
    let (b', ok) = take now b in let rest = granted b' times in if ok then suc rest else rest

-- what is still in the bucket or may flow in by the time `until`
abbrev budget : TokenBucket → ℕ → ℕ
budget b until = b.tokens + (until - b.last) * b.num

record IsValid (b : TokenBucket) (until : ℕ) : Type 0 where
  recent : b.last ≤ until
  full : b.tokens ≤ b.capacity * b.den

refill-budget :
    (b : TokenBucket) (now until : ℕ)
    → now ≤ until
    → IsValid b until
    → budget (refill now b) until ≤ budget b until
unfolding refill
refill-budget b now until h v = elim (Bool-cases (ltb b.last now)) [
  | inl e ↦ rw e (grind arith)
  | inr e ↦ rw e (omega arith)
]

refill-IsValid :
    (b : TokenBucket) (now until : ℕ) → now ≤ until → IsValid b until → IsValid (refill now b) until
unfolding refill
refill-IsValid b now until h v = ground arith

-- A token that is taken leaves the budget.
take_step :
    (b : TokenBucket) (now until : ℕ)
    → now ≤ until
    → IsValid b until
    → IsValid (take now b).0 until
      × ((if (take now b).1 then b.den else 0) + budget (take now b).0 until ≤ budget b until)
unfolding take
take_step b now until h v =
    ground (arith, refill-budget b now until h v, refill-IsValid b now until h v)

den-take : (b : TokenBucket) (now : ℕ) → (take now b).0.den ≡ b.den
unfolding take
den-take b now = ground arith

granted-budget :
    (b : TokenBucket) (times : List ℕ) (until : ℕ)
    → All (λ now. now ≤ until) times
    → IsValid b until
    → granted b times * b.den ≤ budget b until
unfolding granted
granted-budget b [] until h v = omega arith
granted-budget b (now ∷ times) until h v =
    let (valid, less) = take_step b now until h.0 v in
    let ih = granted-budget (take now b).0 times until h.1 valid in
    let same = den-take b now in
    let ih' = subst (λ d. granted (take now b).0 times * d ≤ budget (take now b).0 until) same ih in
    elim (Bool-cases (take now b).1) [
      | inl e ↦ rw e (let less' = rw e at less in grind arith)
      | inr e ↦ rw e (let less' = rw e at less in omega arith)
    ]

-- In any stretch of time a new bucket grants no more than its capacity and what flows in:
-- granted <= capacity + (until - start) * num / den, whatever the calls and their order.
pub granted_bound :
    (start until capacity num den : ℕ) (b : TokenBucket) (times : List ℕ)
    → create start capacity num den ≡ some b
    → start ≤ until
    → All (λ now. now ≤ until) times
    → granted b times * den ≤ capacity * den + (until - start) * num
unfolding create
granted_bound start until zero num den b times e h t = ground arith
granted_bound start until (suc c) zero den b times e h t = ground arith
granted_bound start until (suc c) (suc n) zero b times e h t = ground arith
granted_bound start until (suc c) (suc n) (suc d) b times e h t =
    let fresh : TokenBucket = record {
      capacity = suc c;
      num = suc n;
      den = suc d;
      tokens = suc c * suc d;
      last = start;
    } in
    let same : fresh ≡ b = ground arith in
    subst (λ x. granted x times * suc d ≤ suc c * suc d + (until - start) * suc n) same
      (granted-budget fresh times until t (record { recent = h; full = omega arith }))
