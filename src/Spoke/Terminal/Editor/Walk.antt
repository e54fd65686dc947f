-- ===== src/Spoke/Terminal/Editor/Walk.antt =====
-- Sequences of acts on the editor: what undoes what, and what a word is.
use moot.Common.{
  ℕ, zero, suc, ◌+◌, ◌-◌, ◌≤◌, ◌<◌, ◌≡◌, refl, ◌∙◌, true, false, none, some, List, [], ◌∷◌, ◌++◌,
  ltb, is_empty, arith, lt→ltb, length, take, drop, get_elem?, length-append, length-take,
  length-concat, take-append-drop, take-length_append, drop-length_append, get_elem?-lt,
}
use mathlib.Core.List.{append-nil, append_assoc}
use moot.Spoke.Terminal.Editor.{
  Editor, touch, insert, backspace, show_entry, history_prev, history_next,
}

abbrev pub times {ℓ} : {A : Type ℓ} → ℕ → (A → A) → A → A
times zero f x = x
times (suc n) f x = f (times n f x)

-- The editor with this text before the cursor, and this one behind it.
abbrev between : Editor → List ℕ → List ℕ → Editor
between e xs ys = record e { buf = xs ++ ys; pos = length xs; hidx = none }

backspace-suc :
    (e : Editor) (n : ℕ)
    → backspace (record e { pos = suc n })
      ≡ record e { buf = take n e.buf ++ drop (suc n) e.buf; pos = n; hidx = none }
unfolding backspace touch
backspace-suc e n =
    let positive : ltb 0 (suc n) ≡ true = lt→ltb 0 (suc n) (omega arith) in
    let less : suc n - 1 ≡ n = omega arith in rw (positive, less) refl

backspace-between :
    (e : Editor) (xs ys : List ℕ) (ch : ℕ)
    → backspace (between e (xs ++ ch ∷ []) ys) ≡ between e xs ys
backspace-between e xs ys ch =
    let there : drop (suc (length xs)) (xs ++ ch ∷ [] ++ ys) ≡ ys =
      rw (length-concat xs ch) at (drop-length_append (xs ++ ch ∷ []) ys) in
    let here : take (length xs) (xs ++ ch ∷ [] ++ ys) ≡ xs =
      rw (append_assoc xs (ch ∷ []) ys) (take-length_append xs (ch ∷ ys)) in
    rw
      (
        length-concat xs ch,
        backspace-suc (record e { buf = xs ++ ch ∷ [] ++ ys; hidx = none }) (length xs),
        here,
        there,
      )
      refl

backspaces-between :
    (e : Editor) (xs text ys : List ℕ)
    → times (length text) backspace (between e (xs ++ text) ys) ≡ between e xs ys
backspaces-between e xs [] ys = rw (append-nil xs) refl
backspaces-between e xs (ch ∷ text) ys =
    rw (← append_assoc xs (ch ∷ []) text, backspaces-between e (xs ++ ch ∷ []) text ys)
      (backspace-between e xs ys ch)

-- As many backspaces as an inserted text has characters undo it.
pub backspaces-insert :
    (e : Editor) (text : List ℕ)
    → e.pos ≤ length e.buf
    → times (length text) backspace (insert text e) ≡ record e { hidx = none }
unfolding insert touch
backspaces-insert e text h =
    let before : length (take e.pos e.buf) ≡ e.pos = omega (arith, length-take e.pos e.buf) in
    let both : length (take e.pos e.buf ++ text) ≡ e.pos + length text =
      omega (arith, before, length-append (take e.pos e.buf) text) in
    let undone = backspaces-between e (take e.pos e.buf) text (drop e.pos e.buf) in
    rw (both, before, take-append-drop e.pos e.buf) at undone

abbrev shown : Editor → ℕ → Editor
shown e i = show_entry i (record e { stash = e.buf })

show_entry-found :
    (e : Editor) (i : ℕ) (x : List ℕ)
    → get_elem? e.history i ≡ some x
    → show_entry i e ≡ record e { hidx = some i; buf = x; pos = length x }
unfolding show_entry
show_entry-found e i x found = rw (show_entry, found) refl

module _ (e : Editor) where
  shown-found :
      (i : ℕ) (x : List ℕ)
      → get_elem? e.history i ≡ some x
      → shown e i ≡ record e { stash = e.buf; hidx = some i; buf = x; pos = length x }
  shown-found i x found = show_entry-found (record e { stash = e.buf }) i x found

  history_prev-some :
      (f : Editor) (i : ℕ)
      → 0 < length f.history
      → history_prev (record f { hidx = some (suc i) })
        ≡ show_entry i (record f { hidx = some (suc i) })
  unfolding history_prev
  history_prev-some f i h =
      let positive : ltb 0 (suc i) ≡ true = lt→ltb 0 (suc i) (omega arith) in
      let less : suc i - 1 ≡ i = omega arith in
      let there : is_empty f.history ≡ false = ground arith in rw (there, positive, less) refl

  history_prev-shown :
      (i : ℕ) → suc i < length e.history → history_prev (shown e (suc i)) ≡ shown e i
  history_prev-shown i h =
      let (x, found) = get_elem?-lt e.history (suc i) h in
      let (y, prior) = get_elem?-lt e.history i (omega arith) in
      let f = record e { stash = e.buf; buf = x; pos = length x; hidx = some (suc i) } in
      rw (shown-found (suc i) x found, shown-found i y prior)
        (history_prev-some f i (omega arith) ∙ show_entry-found f i y prior)

  history_next-some :
      (f : Editor) (i : ℕ)
      → suc i < length f.history
      → history_next (record f { hidx = some i }) ≡ show_entry (suc i) (record f { hidx = some i })
  unfolding history_next
  history_next-some f i h =
      let later : ltb i (length f.history - 1) ≡ true =
        lt→ltb i (length f.history - 1) (omega arith) in
      let one : i + 1 ≡ suc i = omega arith in rw (later, one) refl

  history_next-shown :
      (i : ℕ) → suc i < length e.history → history_next (shown e i) ≡ shown e (suc i)
  history_next-shown i h =
      let (x, found) = get_elem?-lt e.history i (omega arith) in
      let (y, later) = get_elem?-lt e.history (suc i) h in
      let f = record e { stash = e.buf; buf = x; pos = length x; hidx = some i } in
      rw (shown-found i x found, shown-found (suc i) y later)
        (history_next-some f i h ∙ show_entry-found f (suc i) y later)

  history_next-last :
      (i : ℕ)
      → suc i ≡ length e.history
      → history_next (shown e i) ≡ record e { pos = length e.buf; stash = e.buf; hidx = none }
  unfolding history_next
  history_next-last i h =
      let (x, found) = get_elem?-lt e.history i (omega arith) in
      let last : ltb i (length e.history - 1) ≡ false = ground arith in
      rw (shown-found i x found, last) refl

  history_prev-none :
      e.hidx ≡ none → 0 < length e.history → history_prev e ≡ shown e (length e.history - 1)
  unfolding history_prev
  history_prev-none n h =
      let there : is_empty e.history ≡ false = ground arith in simp (there, n) refl

  walk_back :
      (k : ℕ)
      → e.hidx ≡ none
      → k < length e.history
      → times (suc k) history_prev e ≡ shown e (length e.history - suc k)
  walk_back zero n h = history_prev-none n h
  walk_back (suc k) n h =
      let there : suc (length e.history - suc (suc k)) ≡ length e.history - suc k = omega arith in
      rw (walk_back k n (omega arith), ← there)
        (history_prev-shown (length e.history - suc (suc k)) (omega arith))

  walk_on :
      (n i : ℕ) → i + n < length e.history → times n history_next (shown e i) ≡ shown e (i + n)
  walk_on zero i h = let same : i + zero ≡ i = omega arith in rw same refl
  walk_on (suc n) i h =
      let next : suc (i + n) ≡ i + suc n = omega arith in
      rw (walk_on n i (omega arith), ← next) (history_next-shown (i + n) (omega arith))

  -- From a draft, so many steps back show that entry from the end of the history; as many steps
  -- forth bring the draft back, with the cursor at its end.
  pub history_lem :
      (k : ℕ)
      → e.hidx ≡ none
      → k < length e.history
      → (get_elem? e.history (length e.history - suc k) ≡ some (times (suc k) history_prev e).buf)
        × (times (suc k) history_next (times (suc k) history_prev e)
            ≡ record e { pos = length e.buf; stash = e.buf; hidx = none })
  history_lem k n h =
      let i = length e.history - suc k in
      let (x, found) = get_elem?-lt e.history i (omega arith) in
      let back = walk_back k n h in
      (
        rw (back, shown-found i x found) found,
        rw (back, walk_on k i (omega arith)) (history_next-last (i + k) (omega arith)),
      )
