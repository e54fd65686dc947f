-- ===== src/Core/Transcript.antt =====
-- core/transcript.py: one file of JSON lines for each day. The directory is a function from file
-- names to contents.
pub mod RoundTrip
pub mod Tests
use Prim.Native.Char.{code}
use moot.Common.{
  ℕ, String, ◌<>◌, Bool, true, false, not, Option, none, some, List, [], ◌∷◌, ◌++◌, ◌==◌, eqb, keep,
  if◌then◌else◌,
}
use moot.Common.Dict
use moot.Common.Dict.{Dict}
use moot.Core.Proto.Json.{Json, entries}

-- The Python library: `json.loads`, `none` for a JSONDecodeError, `json.dumps`, `str.strip`, and
-- the date that is so many days before a reading of the wall clock.
pub record Library : Type 0 where
  pub loads : String → Option Json
  pub dumps : Json → String
  pub strip : String → String
  pub date_before : ℕ → ℕ → String

abbrev pub Directory : Type 0
Directory = String → Option String

unfoldable pub path_for : Library → ℕ → ℕ → String
path_for lib wall day_offset = lib.date_before day_offset wall <> ".jsonl"

abbrev pub content : Option String → String
content none = ""
content (some text) = text

-- `open("a")` creates a file that is not there.
unfoldable pub append : Library → ℕ → Json → Directory → Directory
unfolding path_for
append lib wall rec files name =
    if name == path_for lib wall 0
    then some (content (files name) <> lib.dumps rec <> "\n")
    else files name

unfoldable pub glue : String → List String → List String
glue s [] = s ∷ []
glue s (l ∷ ls) = (s <> l) ∷ ls

-- `text.split("\n")`
unfoldable pub split_lines : String → List String
unfolding glue
split_lines String.[] = "" ∷ []
split_lines (String.◌∷◌ c s) =
    let rest = split_lines s in if eqb (code c) 10 then "" ∷ rest else glue (String.◌∷◌ c "") rest

-- Blank lines are skipped, and lines that are no JSON, a torn last one included.
unfoldable pub read_lines : Library → List String → List Json
read_lines lib [] = []
read_lines lib (l ∷ ls) =
    let rest = read_lines lib ls in
    if lib.strip l == "" then rest else elim (lib.loads l) [ none ↦ rest | some v ↦ v ∷ rest ]

unfoldable pub read_day : Library → Option String → List Json
unfolding read_lines split_lines
read_day lib none = []
read_day lib (some text) = read_lines lib (split_lines text)

unfoldable pub read_today : Library → ℕ → Directory → List Json
unfolding read_day path_for
read_today lib wall files = read_day lib (files (path_for lib wall 0))

abbrev pub is_msg : Dict Json → Bool
is_msg d = elim (Dict.get "type" d) [ some (Json.str s) ↦ s == "msg" | _ ↦ false ]

-- `none` is the AttributeError of a record that is no object.
unfoldable pub msgs_of : List Json → Option (List (Dict Json))
msgs_of [] = some []
msgs_of (Json.obj fs ∷ rest) = elim (msgs_of rest) [
  | none ↦ none
  | some ds ↦ some (if is_msg (entries fs) then entries fs ∷ ds else ds)
]
msgs_of (_ ∷ rest) = none

unfoldable pub recent_msgs : Library → ℕ → Directory → Option (List (Dict Json))
unfolding msgs_of read_day path_for
recent_msgs lib wall files =
    msgs_of
      (read_day lib (files (path_for lib wall 1)) ++ read_day lib (files (path_for lib wall 0)))
