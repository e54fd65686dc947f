-- ===== src/Spoke/Stream/Reconnect.antt =====
-- cli/stream.py: the loop that rejoins the floor. Times in milliseconds.
use Prim.Native.String.{String}
use moot.Common.{
  ℕ, zero, suc, ◌+◌, ◌*◌, ◌≤◌, ◌<◌, ◌≡◌, ◌≢◌, Bool, false, Option, none, some, List, [], ◌∷◌, ◌==◌,
  leb, arith, any, if◌then◌else◌, if_intro,
}
use mathlib.Core.Option.{some-ne-none}
use moot.Common.Dict.{Dict}
use moot.Core.Proto.Json.{Json}

-- What one attempt meets: whether the stream is stopped during the wait, how the connect ends, and
-- the clock after it.
pub data Connect : Type 0 where
  joined : (conn : ℕ) → (welcome : Dict Json) → Connect
  refused : (code detail : String) → Connect
  unreachable : Connect

pub record Try : Type 0 where
  pub stopped : Bool
  pub outcome : Connect
  pub clock : ℕ

pub data Rejoin : Type 0 where
  adopted : (conn : ℕ) → (welcome : Dict Json) → Rejoin
  stopped_waiting : Rejoin
  rejected : (code detail : String) → Rejoin
  gave_up : Rejoin

abbrev pub reconnect_budget : ℕ
reconnect_budget = 600_000

-- RECONNECT_BACKOFF, the last step repeated
unfoldable pub delay : ℕ → ℕ
delay zero = 1_000
delay (suc zero) = 2_000
delay _ = 5_000

abbrev pub fatal_hello : List String
fatal_hello = "name_taken" ∷ "proto_mismatch" ∷ "malformed" ∷ []

unfoldable pub or_later : ℕ → Try → Option Rejoin → Option Rejoin
or_later deadline t later = if leb deadline t.clock then some gave_up else later

unfoldable pub after_try : ℕ → Try → Option Rejoin → Option Rejoin
unfolding or_later
after_try deadline t later = if t.stopped then some stopped_waiting else elim t.outcome [
  | joined conn welcome ↦ some (adopted conn welcome)
  | refused code detail ↦
      if any (λ c. code == c) fatal_hello
      then some (rejected code detail)
      else or_later deadline t later
  | unreachable ↦ or_later deadline t later
]

-- `for step in count()`; `none` is the end of the fuel
unfoldable pub reconnect_from : (ℕ → Try) → ℕ → ℕ → ℕ → Option Rejoin
unfolding after_try
reconnect_from tries deadline zero step = none
reconnect_from tries deadline (suc fuel) step =
    after_try deadline (tries step) (reconnect_from tries deadline fuel (suc step))

abbrev pub attempts : ℕ
attempts = 122

unfoldable pub reconnect : (ℕ → Try) → ℕ → Option Rejoin
unfolding reconnect_from
reconnect tries start = reconnect_from tries (start + reconnect_budget) attempts 0

after_try-some :
    (deadline : ℕ) (t : Try) (later : Option Rejoin)
    → (leb deadline t.clock ≡ false → later ≢ none)
    → after_try deadline t later ≢ none
unfolding after_try or_later
after_try-some deadline t later h =
    if_intro (λ r. r ≢ none) t.stopped (λ _ e. some-ne-none _ e) (λ _. go t.outcome)
  where
    late : or_later deadline t later ≢ none
    late = if_intro (λ r. r ≢ none) (leb deadline t.clock) (λ _ e. some-ne-none _ e) h

    go :
        (c : Connect)
        → (elim c as (λ _. Option Rejoin) [
          | joined conn welcome ↦ some (adopted conn welcome)
          | refused code detail ↦
              if any (λ c. code == c) fatal_hello
              then some (rejected code detail)
              else or_later deadline t later
          | unreachable ↦ or_later deadline t later
        ])
          ≢ none
    go (joined conn welcome) = λ e. some-ne-none _ e
    go (refused code detail) =
        if_intro (λ r. r ≢ none) (any (λ c. code == c) fatal_hello) (λ _ e. some-ne-none _ e)
          (λ _. late)
    go unreachable = late

reconnect_from-some :
    (tries : ℕ → Try) (deadline fuel step j : ℕ)
    → j < fuel
    → deadline ≤ (tries (step + j)).clock
    → reconnect_from tries deadline fuel step ≢ none
unfolding reconnect_from
reconnect_from-some tries deadline zero step j h late = absurd (omega arith)
reconnect_from-some tries deadline (suc fuel) step zero h late =
    let same : step + 0 ≡ step = omega arith in
    let over : deadline ≤ (tries step).clock = rw same at late in
    after_try-some deadline (tries step) _ (λ e. absurd (ground (arith, over, e)))
reconnect_from-some tries deadline (suc fuel) step (suc j) h late =
    let same : step + suc j ≡ suc step + j = omega arith in
    after_try-some deadline (tries step) _
      (λ _. reconnect_from-some tries deadline fuel (suc step) j (omega arith) (rw same at late))

-- Every attempt comes after its wait.
pub record Waits (tries : ℕ → Try) (start : ℕ) : Type 0 where
  pub first : start + delay 0 ≤ (tries 0).clock
  pub next : (k : ℕ) → (tries k).clock + delay (suc k) ≤ (tries (suc k)).clock

module _ (tries : ℕ → Try) (start : ℕ) (w : Waits tries start) where
  elapsed : (k : ℕ) → start + 3_000 + 5_000 * k ≤ (tries (suc k)).clock
  unfolding delay
  elapsed zero = omega (arith, w.first, w.next 0)
  elapsed (suc k) = omega (arith, elapsed k, w.next (suc k))

  -- If every attempt comes after its wait, then the loop ends after at most 122 attempts, whatever
  -- they meet: with a new connection, a stop, a refusal that is final, or because the time is up.
  pub reconnect_ends : reconnect tries start ≢ none
  unfolding reconnect
  reconnect_ends =
      reconnect_from-some tries (start + reconnect_budget) attempts 0 121 (omega arith)
        (omega (arith, elapsed 120))
