-- ===== src/Spoke/Terminal/Editor.antt =====
-- spoke/tui.py: the line editor, with the cursor between two characters and the history it walks.
pub mod Laws
pub mod Walk
pub mod Word
use moot.Common.{
  ℕ, zero, suc, ◌+◌, ◌-◌, min, Bool, true, false, not, ◌&&◌, Option, none, some, List, [], ◌∷◌,
  ◌++◌, ltb, eqb, length, take, drop, take_last, all, get_elem?, is_empty, if◌then◌else◌,
}
use moot.Spoke.Terminal.{Unicode}
use moot.Spoke.Terminal.Width.{line_feed}

pub record Editor : Type 0 where
  pub buf : List ℕ
  pub pos : ℕ
  pub history : List (List ℕ)
  pub hidx : Option ℕ
  pub stash : List ℕ

unfoldable pub new_editor : List (List ℕ) → Editor
new_editor history = record { buf = []; pos = 0; history = history; hidx = none; stash = [] }

unfoldable pub touch : Editor → Editor
touch e = record e { hidx = none }

unfoldable pub insert : List ℕ → Editor → Editor
unfolding touch
insert text e = record (touch e) {
  buf = take e.pos e.buf ++ text ++ drop e.pos e.buf;
  pos = e.pos + length text;
}

unfoldable pub newline : Editor → Editor
newline e = insert (line_feed ∷ []) e

unfoldable pub backspace : Editor → Editor
unfolding touch
backspace e =
    if ltb 0 e.pos
    then record (touch e) { buf = take (e.pos - 1) e.buf ++ drop e.pos e.buf; pos = e.pos - 1 }
    else e

unfoldable pub delete : Editor → Editor
unfolding touch
delete e =
    if ltb e.pos (length e.buf)
    then record (touch e) { buf = take e.pos e.buf ++ drop (e.pos + 1) e.buf }
    else e

-- `max(0, self.pos - 1)`: subtraction stops at 0
unfoldable pub left : Editor → Editor
left e = record e { pos = e.pos - 1 }

unfoldable pub right : Editor → Editor
right e = record e { pos = min (length e.buf) (e.pos + 1) }

unfoldable pub home : Editor → Editor
home e = record e { pos = 0 }

unfoldable pub end : Editor → Editor
end e = record e { pos = length e.buf }

-- Whether there is a character at the index that satisfies the test. A cursor past the end of
-- the buffer would be an IndexError here.
unfoldable pub holds_at : (ℕ → Bool) → List ℕ → ℕ → Bool
holds_at p buf n = elim (get_elem? buf n) [ none ↦ false | some ch ↦ p ch ]

-- `while pos > 0 and p(buf[pos - 1]): pos -= 1`
unfoldable pub skip_left : (ℕ → Bool) → List ℕ → ℕ → ℕ
skip_left p buf zero = 0
skip_left p buf (suc pos) =
    let rest = skip_left p buf pos in if holds_at p buf pos then rest else suc pos

-- `while pos < n and p(buf[pos]): pos += 1`, on the buffer from the cursor on
unfoldable pub skip_right : (ℕ → Bool) → List ℕ → ℕ
skip_right p [] = 0
skip_right p (ch ∷ rest) = let n = skip_right p rest in if p ch then suc n else 0

unfoldable pub non_space : Unicode → ℕ → Bool
non_space u ch = not (u.is_space ch)

unfoldable pub word_left_pos : Unicode → List ℕ → ℕ → ℕ
word_left_pos u buf pos = skip_left (non_space u) buf (skip_left u.is_space buf pos)

unfoldable pub word_left : Unicode → Editor → Editor
unfolding word_left_pos
word_left u e = record e { pos = word_left_pos u e.buf e.pos }

unfoldable pub word_right : Unicode → Editor → Editor
word_right u e =
    let pos = e.pos + skip_right u.is_space (drop e.pos e.buf) in
    record e { pos = pos + skip_right (non_space u) (drop pos e.buf) }

unfoldable pub kill_word_back : Unicode → Editor → Editor
unfolding touch word_left
kill_word_back u e =
    let w = word_left u e in
    if eqb w.pos e.pos then w else record (touch w) { buf = take w.pos w.buf ++ drop e.pos w.buf }

unfoldable pub kill_to_end : Editor → Editor
unfolding touch
kill_to_end e = if ltb e.pos (length e.buf) then record (touch e) { buf = take e.pos e.buf } else e

unfoldable pub kill_all : Editor → Editor
unfolding touch
kill_all e = if is_empty e.buf then e else record (touch e) { buf = []; pos = 0 }

-- An index of the history that is out of range would be an IndexError.
unfoldable pub show_entry : ℕ → Editor → Editor
show_entry i e = elim (get_elem? e.history i) [
  | none ↦ e
  | some entry ↦ record e { hidx = some i; buf = entry; pos = length entry }
]

unfoldable pub history_prev : Editor → Editor
unfolding show_entry
history_prev e = if is_empty e.history then e else elim e.hidx [
  | none ↦ show_entry (length e.history - 1) (record e { stash = e.buf })
  | some i ↦ if ltb 0 i then show_entry (i - 1) e else e
]

unfoldable pub history_next : Editor → Editor
unfolding show_entry
history_next e = elim e.hidx [
  | none ↦ e
  | some i ↦
      if ltb i (length e.history - 1)
      then show_entry (i + 1) e
      else record e { hidx = none; buf = e.stash; pos = length e.stash }
]

unfoldable pub same_text : List ℕ → List ℕ → Bool
same_text [] [] = true
same_text [] (y ∷ ys) = false
same_text (x ∷ xs) [] = false
same_text (x ∷ xs) (y ∷ ys) = eqb x y && same_text xs ys

-- `text.strip()` and (no history or another last entry)
unfoldable pub is_recorded : Unicode → List ℕ → List (List ℕ) → Bool
is_recorded u text history =
    not (all u.is_space text)
    && elim (take_last 1 history) [ [] ↦ true | last ∷ rest ↦ not (same_text last text) ]

unfoldable pub submit : Unicode → Editor → List ℕ × Editor
submit u e = (
  e.buf,
  record {
    buf = [];
    pos = 0;
    history = if is_recorded u e.buf e.history then e.history ++ e.buf ∷ [] else e.history;
    hidx = none;
    stash = [];
  },
)

-- What a caller may do with an editor.
pub data Act : Type 0 where
  inserts : List ℕ → Act
  breaks backspaces deletes goes_left goes_right goes_home goes_end : Act
  jumps_left jumps_right kills_word kills_to_end kills_all prev next submits : Act

unfoldable pub act : Unicode → Act → Editor → Editor
act u (inserts text) e = insert text e
act u breaks e = newline e
act u backspaces e = backspace e
act u deletes e = delete e
act u goes_left e = left e
act u goes_right e = right e
act u goes_home e = home e
act u goes_end e = end e
act u jumps_left e = word_left u e
act u jumps_right e = word_right u e
act u kills_word e = kill_word_back u e
act u kills_to_end e = kill_to_end e
act u kills_all e = kill_all e
act u prev e = history_prev e
act u next e = history_next e
act u submits e = (submit u e).1
