-- ===== src/Spoke/Terminal/Editor/Laws.antt =====
-- The invariant of the editor.
use moot.Common.{
  ℕ, zero, suc, ◌+◌, ◌-◌, ◌≤◌, ◌<◌, ◌≡◌, Bool, some, List, [], ◌∷◌, ◌++◌, ltb, eqb, is_empty, arith,
  inl, inr, Option-cases, length, take, drop, get_elem?, length-append, length-take, length-drop,
  get_elem?-lt, lt-get_elem?, if_intro,
}
use mathlib.Core.Option.{none-ne-some, some-injective}
use moot.Spoke.Terminal.{Unicode}
use moot.Spoke.Terminal.Editor.{
  Editor, new_editor, touch, insert, newline, backspace, delete, left, right, home, end, skip_left,
  skip_right, word_left_pos, word_left, word_right, kill_word_back, kill_to_end, kill_all,
  show_entry, history_prev, history_next, submit, non_space, Act, act, inserts, breaks, backspaces,
  deletes, goes_left, goes_right, goes_home, goes_end, jumps_left, jumps_right, kills_word,
  kills_to_end, kills_all, prev, next, submits,
}

-- The cursor is within the buffer, and while an entry of the history is shown the buffer is that
-- entry.
pub record IsValid (e : Editor) : Type 0 where
  pub inside : e.pos ≤ length e.buf
  pub shown : (i : ℕ) → e.hidx ≡ some i → get_elem? e.history i ≡ some e.buf

new_editor-IsValid : (history : List (List ℕ)) → IsValid (new_editor history)
unfolding new_editor
new_editor-IsValid history = record {
  inside = omega arith;
  shown = λ i h. absurd (none-ne-some i h);
}

touched-IsValid : (e : Editor) → e.pos ≤ length e.buf → IsValid (touch e)
unfolding touch
touched-IsValid e h = record { inside = h; shown = λ i k. absurd (none-ne-some i k) }

moved-IsValid :
    (e : Editor) (pos : ℕ) → pos ≤ length e.buf → IsValid e → IsValid (record e { pos = pos })
moved-IsValid e pos h v = record { inside = h; shown = v.shown }

insert-IsValid : (text : List ℕ) (e : Editor) → IsValid e → IsValid (insert text e)
unfolding insert touch
insert-IsValid text e v =
    touched-IsValid
      (record e { buf = take e.pos e.buf ++ text ++ drop e.pos e.buf; pos = e.pos + length text })
      (omega (
        arith,
        v.inside,
        length-take e.pos e.buf,
        length-append (take e.pos e.buf ++ text) (drop e.pos e.buf),
        length-append (take e.pos e.buf) text,
      ))

backspace-IsValid : (e : Editor) → IsValid e → IsValid (backspace e)
unfolding backspace touch
backspace-IsValid e v =
    if_intro IsValid (ltb 0 e.pos)
      (λ h.
        touched-IsValid
          (record e { buf = take (e.pos - 1) e.buf ++ drop e.pos e.buf; pos = e.pos - 1 })
          (omega (
            arith,
            v.inside,
            length-take (e.pos - 1) e.buf,
            length-append (take (e.pos - 1) e.buf) (drop e.pos e.buf),
          )))
      (λ _. v)

delete-IsValid : (e : Editor) → IsValid e → IsValid (delete e)
unfolding delete touch
delete-IsValid e v =
    if_intro IsValid (ltb e.pos (length e.buf))
      (λ h.
        touched-IsValid (record e { buf = take e.pos e.buf ++ drop (e.pos + 1) e.buf })
          (omega (
            arith,
            v.inside,
            length-take e.pos e.buf,
            length-append (take e.pos e.buf) (drop (e.pos + 1) e.buf),
          )))
      (λ _. v)

pub skip_left-le : (p : ℕ → Bool) (buf : List ℕ) (pos : ℕ) → skip_left p buf pos ≤ pos
unfolding skip_left
skip_left-le p buf zero = omega arith
skip_left-le p buf (suc pos) = ground (arith, skip_left-le p buf pos)

pub skip_right-le : (p : ℕ → Bool) (rest : List ℕ) → skip_right p rest ≤ length rest
unfolding skip_right
skip_right-le p [] = omega arith
skip_right-le p (ch ∷ rest) = ground (arith, skip_right-le p rest)

pub word_left_pos-le : (u : Unicode) (buf : List ℕ) (pos : ℕ) → word_left_pos u buf pos ≤ pos
unfolding word_left_pos
word_left_pos-le u buf pos = omega (
  arith,
  skip_left-le (non_space u) buf (skip_left u.is_space buf pos),
  skip_left-le u.is_space buf pos,
)

word_left-IsValid : (u : Unicode) (e : Editor) → IsValid e → IsValid (word_left u e)
unfolding word_left
word_left-IsValid u e v =
    moved-IsValid e (word_left_pos u e.buf e.pos)
      (omega (arith, word_left_pos-le u e.buf e.pos, v.inside)) v

word_right-IsValid : (u : Unicode) (e : Editor) → IsValid e → IsValid (word_right u e)
unfolding word_right
word_right-IsValid u e v =
    let pos = e.pos + skip_right u.is_space (drop e.pos e.buf) in
    moved-IsValid e (pos + skip_right (non_space u) (drop pos e.buf))
      (omega (
        arith,
        v.inside,
        skip_right-le u.is_space (drop e.pos e.buf),
        skip_right-le (non_space u) (drop pos e.buf),
        length-drop e.pos e.buf,
        length-drop pos e.buf,
      ))
      v

kill_word_back-IsValid : (u : Unicode) (e : Editor) → IsValid e → IsValid (kill_word_back u e)
unfolding kill_word_back touch word_left
kill_word_back-IsValid u e v =
    let pos = word_left_pos u e.buf e.pos in
    if_intro IsValid (eqb pos e.pos) (λ h. word_left-IsValid u e v)
      (λ h.
        touched-IsValid (record e { buf = take pos e.buf ++ drop e.pos e.buf; pos = pos })
          (omega (
            arith,
            v.inside,
            word_left_pos-le u e.buf e.pos,
            length-take pos e.buf,
            length-append (take pos e.buf) (drop e.pos e.buf),
          )))

kill_to_end-IsValid : (e : Editor) → IsValid e → IsValid (kill_to_end e)
unfolding kill_to_end touch
kill_to_end-IsValid e v =
    if_intro IsValid (ltb e.pos (length e.buf))
      (λ h.
        touched-IsValid (record e { buf = take e.pos e.buf })
          (ground (arith, length-take e.pos e.buf, h, v.inside)))
      (λ _. v)

kill_all-IsValid : (e : Editor) → IsValid e → IsValid (kill_all e)
unfolding kill_all touch
kill_all-IsValid e v =
    if_intro IsValid (is_empty e.buf) (λ _. v)
      (λ h. touched-IsValid (record e { buf = []; pos = 0 }) (omega arith))

show_entry-IsValid : (i : ℕ) (e : Editor) → i < length e.history → IsValid (show_entry i e)
unfolding show_entry
show_entry-IsValid i e h =
    let (entry, found) = get_elem?-lt e.history i h in
    rw (show_entry, found)
      (record { inside = omega arith; shown = λ j k. rw (← some-injective i j k) found })

history_prev-IsValid : (e : Editor) → IsValid e → IsValid (history_prev e)
unfolding history_prev
history_prev-IsValid e v =
    if_intro IsValid (is_empty e.history) (λ _. v)
      (λ h. elim (Option-cases e.hidx) [
        | inl n ↦ rw n (
            show_entry-IsValid (length e.history - 1) (record e { stash = e.buf })
              (ground (arith, h)))
        | inr (i, n) ↦ rw n (
            if_intro IsValid (ltb 0 i)
              (λ _.
                show_entry-IsValid (i - 1) e
                  (omega (arith, lt-get_elem? e.history i e.buf (v.shown i n))))
              (λ _. v))
      ])

history_next-IsValid : (e : Editor) → IsValid e → IsValid (history_next e)
unfolding history_next touch
history_next-IsValid e v = elim (Option-cases e.hidx) [
  | inl n ↦ simp (history_next, n) v
  | inr (i, n) ↦
      simp (history_next, n)
        (if_intro IsValid (ltb i (length e.history - 1))
          (λ h. show_entry-IsValid (i + 1) e (ground (arith, h)))
          (λ _. touched-IsValid (record e { buf = e.stash; pos = length e.stash }) (omega arith)))
]

submit-IsValid : (u : Unicode) (e : Editor) → IsValid (submit u e).1
unfolding submit
submit-IsValid u e = record { inside = omega arith; shown = λ i k. absurd (none-ne-some i k) }

-- Every act keeps the cursor within the buffer, and the buffer the shown entry.
pub act-IsValid : (u : Unicode) (a : Act) (e : Editor) → IsValid e → IsValid (act u a e)
unfolding act newline left right home end
act-IsValid u (inserts text) e v = insert-IsValid text e v
act-IsValid u breaks e v = insert-IsValid (10 ∷ []) e v
act-IsValid u backspaces e v = backspace-IsValid e v
act-IsValid u deletes e v = delete-IsValid e v
act-IsValid u goes_left e v = moved-IsValid e (e.pos - 1) (omega (arith, v.inside)) v
act-IsValid u goes_right e v = moved-IsValid e _ (omega (arith, v.inside)) v
act-IsValid u goes_home e v = moved-IsValid e 0 (omega arith) v
act-IsValid u goes_end e v = moved-IsValid e (length e.buf) (omega arith) v
act-IsValid u jumps_left e v = word_left-IsValid u e v
act-IsValid u jumps_right e v = word_right-IsValid u e v
act-IsValid u kills_word e v = kill_word_back-IsValid u e v
act-IsValid u kills_to_end e v = kill_to_end-IsValid e v
act-IsValid u kills_all e v = kill_all-IsValid e v
act-IsValid u prev e v = history_prev-IsValid e v
act-IsValid u next e v = history_next-IsValid e v
act-IsValid u submits e v = submit-IsValid u e
