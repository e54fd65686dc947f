-- ===== src/Core/Tests.antt =====
-- The buffer, the bucket and the window of duplicates at concrete inputs.
use moot.Common.{
  codes, ℕ, ◌+◌, ◌-◌, ◌*◌, ◌≤◌, ◌≡◌, ◌↔◌, refl, true, false, none, some, List, [], ◌∷◌, ◌++◌, All,
  arith, drop,
}
use moot.Common.Dict
use moot.Core.Proto.Names.{is_name}
use moot.Core.Proto.Names.Matches.{IsMatch, is_name-IsMatch}
use moot.Core.Types.{Msg, overheard}
use moot.Core.Buffer.{ContextBuffer, append, drain, within}
use moot.Core.Buffer.Laws.{Holds, StartsPast, notice, append-Holds, drain_lem}
use moot.Core.Bucket
use moot.Core.Bucket.{TokenBucket, retry_after, refill}
use moot.Core.Bucket.Laws.{granted, granted_bound}
use moot.Core.Dedup.{DedupWindow, key_text, key, seen}
use moot.Core.Dedup.Laws.{Tracks, seen_exact}

abbrev msg : ℕ → Msg
msg id = record {
  id = id;
  sender = "alpha";
  to = "beta";
  kind = "note";
  text = "hi";
  ts = 0;
  addressing = some overheard;
  seq = none;
  private = false;
}

-- a full buffer of two messages, after three
abbrev pair : ContextBuffer
pair = record { cap = 2; items = msg 2 ∷ msg 3 ∷ []; evicted = 1 }

abbrev three : List Msg
three = msg 1 ∷ msg 2 ∷ msg 3 ∷ []

pair-Holds : Holds pair three
pair-Holds = record {
  positive = omega arith;
  bounded = omega arith;
  newest = refl;
  counted = refl;
  needed = λ _. refl;
}

append-Holds_example : Holds (append pair (msg 4)) (three ++ msg 4 ∷ [])
append-Holds_example = append-Holds pair three (msg 4) pair-Holds

drain_lem_example :
    (taken : List Msg) × ((drain pair (some 2)).0 ≡ notice pair ++ taken)
    × (taken ++ (drain pair (some 2)).1.items ≡ drop 1 three)
    × All (λ m. within (some 2) m ≡ true) taken
    × StartsPast (some 2) (drain pair (some 2)).1.items
    × Holds (drain pair (some 2)).1 (drain pair (some 2)).1.items
drain_lem_example = drain_lem pair three (some 2) pair-Holds

abbrev bucket : TokenBucket
bucket = record { capacity = 3; num = 6; den = 60_000; tokens = 180_000; last = 0 }

granted_bound_example :
    granted bucket (0 ∷ 0 ∷ 5_000 ∷ 20_000 ∷ []) * 60_000 ≤ 3 * 60_000 + (20_000 - 0) * 6
unfolding Bucket.create
granted_bound_example =
    granted_bound 0 20_000 3 6 60_000 bucket (0 ∷ 0 ∷ 5_000 ∷ 20_000 ∷ []) refl (omega arith)
      (omega arith, (omega arith, (omega arith, (omega arith, tt))))

abbrev window : DedupWindow
window = record { window = 120_000; seen_at = [] }

window-Tracks : Tracks 0 window []
unfolding Dict.get
window-Tracks = record { distinct = tt; answers = λ k now le. refl }

seen_exact_example :
    ((seen (λ s. s) 5 window "beta" "hi" true).1 ≡ false)
    × Tracks 5 (seen (λ s. s) 5 window "beta" "hi" true).0 (("beta\n1\nhi", 5) ∷ [])
unfolding key key_text
seen_exact_example =
    seen_exact (λ s. s) (λ s t e. e) 0 5 window [] "beta" "hi" true (omega arith) window-Tracks tt
      (
        (λ e. omega (arith, e)),
        ((λ e. omega (arith, e)), ((λ e. omega (arith, e)), ((λ e. omega (arith, e)), tt))),
      )

is_name-IsMatch_example : (is_name "alpha\n" ≡ true) ↔ IsMatch (codes "alpha\n")
is_name-IsMatch_example = is_name-IsMatch "alpha\n"
