-- ===== src/Spoke/Terminal/Editor/Word.antt =====
-- The word before the cursor.
use moot.Common.{
  ℕ, zero, suc, ◌≤◌, ◌<◌, ◌≡◌, refl, ◌∙◌, sym, Bool, true, false, not, List, ◌++◌, eqb, arith, inl,
  inr, Bool-cases, length, take, drop, get_elem?-lt, take-append-drop, eqb_iff, if_intro,
}
use moot.Spoke.Terminal.{Unicode}
use moot.Spoke.Terminal.Editor.{
  Editor, touch, holds_at, skip_left, non_space, word_left_pos, word_left, kill_word_back,
}
use moot.Spoke.Terminal.Editor.Laws.{skip_left-le}

-- The loop to the left stops behind the last character that fails the test.
skip_left-stops :
    (p : ℕ → Bool) (buf : List ℕ) (pos : ℕ)
    → ((i : ℕ) → skip_left p buf pos ≤ i → i < pos → holds_at p buf i ≡ true)
      × ((i : ℕ) → suc i ≡ skip_left p buf pos → holds_at p buf i ≡ false)
unfolding skip_left
skip_left-stops p buf zero = (λ i h k. absurd (omega arith), λ i h. absurd (omega arith))
skip_left-stops p buf (suc pos) = elim (Bool-cases (holds_at p buf pos)) [
  | inl e ↦
      let rest = skip_left-stops p buf pos in
      rw e (
        λ i h k. elim (Bool-cases (eqb i pos)) [
          | inl same ↦ rw ((eqb_iff i pos).0 same) e
          | inr other ↦ rest.0 i h (ground arith)
        ],
        rest.1,
      )
  | inr e ↦
      rw e (λ i h k. absurd (omega arith), λ i h. let same : i ≡ pos = omega arith in rw same e)
]

holds_at-non_space :
    (u : Unicode) (buf : List ℕ) (i : ℕ)
    → i < length buf
    → holds_at (non_space u) buf i ≡ not (holds_at u.is_space buf i)
unfolding holds_at non_space
holds_at-non_space u buf i h = let (ch, found) = get_elem?-lt buf i h in rw (holds_at, found) refl

-- Where the word before a position begins and ends: behind the word are only spaces, and before
-- it is a space or nothing.
pub record IsWord (u : Unicode) (buf : List ℕ) (begin pos : ℕ) : Type 0 where
  pub end : ℕ
  pub ordered : (begin ≤ end) × (end ≤ pos)
  pub spaces : (i : ℕ) → end ≤ i → i < pos → holds_at u.is_space buf i ≡ true
  pub word : (i : ℕ) → begin ≤ i → i < end → holds_at u.is_space buf i ≡ false
  pub ends : (i : ℕ) → suc i ≡ end → holds_at u.is_space buf i ≡ false
  pub begins : (i : ℕ) → suc i ≡ begin → holds_at u.is_space buf i ≡ true

not-true : (b : Bool) → not b ≡ true → b ≡ false
not-true true h = sym h
not-true false h = refl

not-false : (b : Bool) → not b ≡ false → b ≡ true
not-false true h = refl
not-false false h = sym h

word_left_pos-IsWord :
    (u : Unicode) (buf : List ℕ) (pos : ℕ)
    → pos ≤ length buf
    → IsWord u buf (word_left_pos u buf pos) pos
unfolding word_left_pos
word_left_pos-IsWord u buf pos h =
    let mid = skip_left u.is_space buf pos in
    let outer = skip_left-stops u.is_space buf pos in
    let inner = skip_left-stops (non_space u) buf mid in
    let below = skip_left-le u.is_space buf pos in
    let lower = skip_left-le (non_space u) buf mid in
    record {
      end = mid;
      ordered = (lower, below);
      spaces = outer.0;
      word = λ i k l.
          not-true (holds_at u.is_space buf i)
            (sym (holds_at-non_space u buf i (omega (arith, below))) ∙ inner.0 i k l);
      ends = outer.1;
      begins = λ i k.
          not-false (holds_at u.is_space buf i)
            (sym (holds_at-non_space u buf i (omega (arith, below, lower))) ∙ inner.1 i k);
    }

-- With the cursor within the buffer, a step to the left by a word goes to the begin of the word
-- before the cursor, and killing the word removes what that step passes over, and nothing else.
pub kill_word_back_lem :
    (u : Unicode) (e : Editor)
    → e.pos ≤ length e.buf
    → IsWord u e.buf (word_left u e).pos e.pos
      × ((kill_word_back u e).buf ≡ take (word_left u e).pos e.buf ++ drop e.pos e.buf)
      × ((kill_word_back u e).pos ≡ (word_left u e).pos)
unfolding kill_word_back word_left touch
kill_word_back_lem u e h =
    let pos = word_left_pos u e.buf e.pos in
    let same : (eqb pos e.pos ≡ true) → e.buf ≡ take pos e.buf ++ drop e.pos e.buf =
      λ k. rw ((eqb_iff pos e.pos).0 k) (sym (take-append-drop e.pos e.buf)) in
    (
      word_left_pos-IsWord u e.buf e.pos h,
      if_intro (λ (f : Editor). f.buf ≡ take pos e.buf ++ drop e.pos e.buf) (eqb pos e.pos) same
          (λ _. refl),
      if_intro (λ (f : Editor). f.pos ≡ pos) (eqb pos e.pos) (λ _. refl) (λ _. refl),
    )
