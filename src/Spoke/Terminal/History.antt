-- ===== src/Spoke/Terminal/History.antt =====
-- spoke/tui.py: the history file, one JSON string per line. A text is the list of its code points;
-- the file is its content, or none where it does not exist.
pub mod Laws
use moot.Common.{
  ℕ, suc, ◌+◌, Bool, true, false, Option, none, some, List, [], ◌∷◌, ◌++◌, ltb, length, take_last,
  is_empty, if◌then◌else◌,
}
use moot.Spoke.Terminal.Width.{line_feed}
use moot.Spoke.Terminal.Editor.{same_text}

abbrev pub history_keep : ℕ
history_keep = 500

abbrev pub history_cap : ℕ
history_cap = 2000

abbrev pub trim_slack : ℕ
trim_slack = 200

-- What a line of JSON is: nothing that parses, a string, or another value.
pub data Parsed : Type 0 where
  corrupt : Parsed
  entry_of : List ℕ → Parsed
  other : Parsed

-- What the code uses of `str.splitlines` and the module json.
pub record Lines : Type 0 where
  pub splitlines : List ℕ → List (List ℕ)
  pub loads : List ℕ → Parsed
  pub dumps : List ℕ → List ℕ

pub record History : Type 0 where
  pub file : Option (List ℕ)
  pub loaded : Bool
  pub last : Option (List ℕ)
  pub count : ℕ

unfoldable pub new_history : Option (List ℕ) → History
new_history file = record { file = file; loaded = false; last = none; count = 0 }

unfoldable pub whole_text : Option (List ℕ) → List ℕ
whole_text none = []
whole_text (some text) = text

-- a line that parses to a string is kept, as it stands and as the string
unfoldable pub keep_entry : Parsed → List ℕ → List (List ℕ × List ℕ) → List (List ℕ × List ℕ)
keep_entry corrupt line rest = rest
keep_entry (entry_of entry) line rest = (line, entry) ∷ rest
keep_entry other line rest = rest

module _ (l : Lines) where
  unfoldable pub parsed : List (List ℕ) → List (List ℕ × List ℕ)
  parsed [] = []
  parsed (line ∷ lines) = keep_entry (l.loads line) line (parsed lines)

  unfoldable pub firsts : List (List ℕ × List ℕ) → List (List ℕ)
  firsts [] = []
  firsts (p ∷ ps) = p.0 ∷ firsts ps

  unfoldable pub seconds : List (List ℕ × List ℕ) → List (List ℕ)
  seconds [] = []
  seconds (p ∷ ps) = p.1 ∷ seconds ps

  -- `entries[-1] if entries else None`
  unfoldable pub last_of : List (List ℕ) → Option (List ℕ)
  last_of [] = none
  last_of (x ∷ []) = some x
  last_of (x ∷ y ∷ xs) = last_of (y ∷ xs)

  unfoldable pub file_entries : Option (List ℕ) → List (List ℕ)
  unfolding whole_text parsed seconds
  file_entries none = []
  file_entries (some text) = seconds (parsed (l.splitlines text))

  unfoldable pub load : History → List (List ℕ) × History
  unfolding last_of file_entries
  load h =
      let entries = file_entries h.file in
      (
        take_last history_keep entries,
        record h { loaded = true; last = last_of entries; count = length entries },
      )

  -- `("\n".join(kept) + "\n") if kept else ""`
  unfoldable pub joined_lines : List (List ℕ) → List ℕ
  joined_lines [] = []
  joined_lines (line ∷ lines) = line ++ line_feed ∷ [] ++ joined_lines lines

  unfoldable pub trim : History → History
  unfolding whole_text parsed firsts joined_lines
  trim h =
      let kept = take_last history_cap (firsts (parsed (l.splitlines (whole_text h.file)))) in
      record h { file = some (joined_lines kept); count = length kept }

  unfoldable pub is_last : List ℕ → Option (List ℕ) → Bool
  is_last entry none = false
  is_last entry (some last) = same_text entry last

  -- what the check of duplicates lets through
  unfoldable pub store_entry : List ℕ → History → History
  unfolding whole_text
  store_entry entry h =
      let t = record h {
        file = some (whole_text h.file ++ (l.dumps entry ++ line_feed ∷ []));
        last = some entry;
        count = h.count + 1;
      } in
      if ltb (history_cap + trim_slack) t.count then trim t else t

  unfoldable pub append : List ℕ → History → History
  append entry h =
      let t = if h.loaded then h else (load h).1 in
      if is_last entry t.last then t else store_entry entry t
