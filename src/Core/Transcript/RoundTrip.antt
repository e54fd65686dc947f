-- ===== src/Core/Transcript/RoundTrip.antt =====
-- The transcript as it reads after an append.
use Prim.Native.Char.{code}
use text.Mathlib.TextLemmas.{nil-append, cons-append, append_assoc}
use moot.Common.{
  ℕ, ◌≡◌, refl, sym, ap, ◌∙◌, String, ◌<>◌, false, Option, none, some, List, [], ◌∷◌, ◌++◌, arith,
  ◌==◌, eqb, eqb_iff, Bool-cases, inl, inr, ◌⊎◌,
}
use text.Mathlib.TextPositions.{eq_refl}
use mathlib.Core.List.{append-nil as list-append-nil}
use moot.Core.Proto.Json.{Json}
use moot.Core.Dedup.Laws.Keys.{NoLf, nil-line}
use moot.Core.Transcript.{
  Library, Directory, path_for, content, append, glue, split_lines, read_lines, read_day,
  read_today,
}

split_nonempty : (t : String) → (l : String) × (ls : List String) × (split_lines t ≡ l ∷ ls)
unfolding split_lines glue
split_nonempty String.[] = ("", [], refl)
split_nonempty (String.◌∷◌ c t) =
    let (l, ls, e) = split_nonempty t in
    elim (Bool-cases (eqb (code c) 10)) [
      | inl f ↦ ("", split_lines t, rw f refl)
      | inr f ↦ (String.◌∷◌ c "" <> l, ls, rw (f, e) refl)
    ]

split_line_feed : (t s : String) → split_lines (t <> "\n" <> s) ≡ split_lines t ++ split_lines s
unfolding split_lines glue
split_line_feed String.[] s = ap split_lines (nil-line s)
split_line_feed (String.◌∷◌ c t) s =
    let (l, ls, e) = split_nonempty t in
    let ih = split_line_feed t s in
    ap split_lines (cons-append c t ("\n" <> s))
    ∙ elim (Bool-cases (eqb (code c) 10)) [ inl f ↦ rw (f, ih) refl | inr f ↦ rw (f, ih, e) refl ]

split_one_line : (t : String) → NoLf t → split_lines t ≡ t ∷ []
unfolding split_lines glue
split_one_line String.[] n = refl
split_one_line (String.◌∷◌ c t) n = elim (Bool-cases (eqb (code c) 10)) [
  | inl f ↦ absurd (n.0 ((eqb_iff (code c) 10).0 f))
  | inr f ↦
      rw (f, split_one_line t n.1)
        (ap (λ x. x ∷ []) (cons-append c "" t ∙ ap (String.◌∷◌ c) (nil-append t)))
]

read_lines-append :
    (lib : Library) (xs ys : List String)
    → read_lines lib (xs ++ ys) ≡ read_lines lib xs ++ read_lines lib ys
unfolding read_lines
read_lines-append lib [] ys = refl
read_lines-append lib (x ∷ xs) ys = ground (arith, read_lines-append lib xs ys)

-- The file ends with a line feed, or it has nothing in it.
abbrev pub IsWhole : Option String → Type 0
IsWhole none = Unit
IsWhole (some text) = (text ≡ "") ⊎ ((t : String) × (text ≡ t <> "\n"))

-- A value that is written as one line and read back.
pub record IsPrintable (lib : Library) (v : Json) : Type 0 where
  pub loaded : lib.loads (lib.dumps v) ≡ some v
  pub one_line : NoLf (lib.dumps v)
  pub inked : (lib.strip (lib.dumps v) == "") ≡ false

read_new_line :
    (lib : Library) (v : Json)
    → lib.strip "" ≡ ""
    → IsPrintable lib v
    → read_lines lib (split_lines (lib.dumps v <> "\n")) ≡ v ∷ []
unfolding read_lines split_lines
read_new_line lib v e p =
    let line = lib.dumps v in
    let split : split_lines (line <> "\n") ≡ line ∷ "" ∷ [] =
      split_line_feed line "" ∙ ap (λ ls. ls ++ split_lines "") (split_one_line line p.one_line) in
    rw (split, p.inked, p.loaded, e) refl

empty_text : (lib : Library) → lib.strip "" ≡ "" → read_lines lib (split_lines "") ≡ []
unfolding read_lines split_lines
empty_text lib e = rw e refl

read-append :
    (lib : Library) (v : Json) (o : Option String)
    → lib.strip "" ≡ ""
    → IsPrintable lib v
    → IsWhole o
    → read_day lib (some (content o <> lib.dumps v <> "\n")) ≡ read_day lib o ++ v ∷ []
unfolding read_day
read-append lib v none e p w =
    ap (λ t. read_lines lib (split_lines t)) (nil-append (lib.dumps v <> "\n"))
    ∙ read_new_line lib v e p
read-append lib v (some text) e p (inl empty) = rw empty (
    ap (λ t. read_lines lib (split_lines t)) (nil-append (lib.dumps v <> "\n"))
    ∙ read_new_line lib v e p
    ∙ ap (λ xs. xs ++ v ∷ []) (sym (empty_text lib e)))
read-append lib v (some text) e p (inr (t, ends)) =
    let line = lib.dumps v <> "\n" in
    let before : read_lines lib (split_lines text) ≡ read_lines lib (split_lines t) = rw ends (
      ap (read_lines lib) (split_line_feed t "")
      ∙ read_lines-append lib (split_lines t) (split_lines "")
      ∙ ap (λ xs. read_lines lib (split_lines t) ++ xs) (empty_text lib e)
      ∙ list-append-nil (read_lines lib (split_lines t))) in
    let joined : text <> line ≡ t <> "\n" <> line = rw ends (append_assoc t "\n" line) in
    ap (λ x. read_lines lib (split_lines x)) joined
    ∙ ap (read_lines lib) (split_line_feed t line)
    ∙ read_lines-append lib (split_lines t) (split_lines line)
    ∙ ap (λ xs. xs ++ read_lines lib (split_lines line)) (sym before)
    ∙ ap (λ ys. read_lines lib (split_lines text) ++ ys) (read_new_line lib v e p)

append-IsWhole :
    (lib : Library) (v : Json) (o : Option String)
    → IsWhole (some (content o <> lib.dumps v <> "\n"))
append-IsWhole lib v o =
    inr (content o <> lib.dumps v, sym (append_assoc (content o) (lib.dumps v) "\n"))

-- If today's file is absent, empty or ends with a line feed, then after append the file of today
-- reads as it did before with the new record as its last, and it ends with a line feed again. The
-- record is written as one line that is not blank and that json.loads reads back, and strip leaves
-- the empty text empty.
pub read_today-append :
    (lib : Library) (wall : ℕ) (v : Json) (files : Directory)
    → lib.strip "" ≡ ""
    → IsPrintable lib v
    → IsWhole (files (path_for lib wall 0))
    → (read_today lib wall (append lib wall v files) ≡ read_today lib wall files ++ v ∷ [])
      × IsWhole (append lib wall v files (path_for lib wall 0))
unfolding read_today append
read_today-append lib wall v files e p w =
    let path = path_for lib wall 0 in
    (
      rw (eq_refl path) (read-append lib v (files path) e p w),
      rw (eq_refl path) (append-IsWhole lib v (files path)),
    )
