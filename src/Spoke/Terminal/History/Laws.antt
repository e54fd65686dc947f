-- ===== src/Spoke/Terminal/History/Laws.antt =====
-- The history file: what is read back, and how long it gets.
use moot.Common.{
  ℕ, ◌+◌, ◌-◌, ◌≤◌, ◌<◌, ◌≡◌, ◌∙◌, refl, ap, sym, true, false, Option, none, some, List, [], ◌∷◌,
  ◌++◌, ltb, length, take_last, arith, inl, inr, Bool-cases, length-drop, length-concat, if_intro,
  if◌then◌else◌,
}
use moot.Spoke.Terminal.Width.{line_feed}
use moot.Spoke.Terminal.History.{
  history_cap, trim_slack, Lines, Parsed, corrupt, entry_of, other, keep_entry, History, whole_text,
  parsed, seconds, last_of, file_entries, trim, is_last, store_entry, append,
}

length-take_last : (n : ℕ) (xs : List (List ℕ)) → length (take_last n xs) ≤ n
length-take_last n xs = omega (arith, length-drop (length xs - n) xs)

keep_entry-append :
    (p : Parsed) (line : List ℕ) (xs ys : List (List ℕ × List ℕ))
    → keep_entry p line (xs ++ ys) ≡ keep_entry p line xs ++ ys
unfolding keep_entry
keep_entry-append corrupt line xs ys = refl
keep_entry-append (entry_of entry) line xs ys = refl
keep_entry-append other line xs ys = refl

module _ (l : Lines) where
  store_entry-bounded :
      (entry : List ℕ) (h : History)
      → h.count ≤ history_cap + trim_slack
      → (store_entry l entry h).count ≤ history_cap + trim_slack
  unfolding store_entry trim
  store_entry-bounded entry h bound =
      if_intro (λ (t : History). t.count ≤ history_cap + trim_slack)
        (ltb (history_cap + trim_slack) (h.count + 1))
        (λ _. omega (arith, length-take_last history_cap _)) (λ e. ground (arith, e))

  -- A history that has been loaded knows the last entry of its file and how many there are.
  pub record Tracks (h : History) : Type 0 where
    pub loaded : h.loaded ≡ true
    pub last : h.last ≡ last_of l (file_entries l h.file)
    pub count : h.count ≡ length (file_entries l h.file)

  -- What the code relies on for an entry and the text of the file: json.loads reads what
  -- json.dumps wrote, and the written line is one line for `str.splitlines`.
  pub record ReadsBack (entry text : List ℕ) : Type 0 where
    pub parses : l.loads (l.dumps entry) ≡ entry_of entry
    pub split :
        l.splitlines (text ++ (l.dumps entry ++ line_feed ∷ []))
        ≡ l.splitlines text ++ l.dumps entry ∷ []
    pub blank : l.splitlines [] ≡ []

  parsed-append : (xs ys : List (List ℕ)) → parsed l (xs ++ ys) ≡ parsed l xs ++ parsed l ys
  unfolding parsed
  parsed-append [] ys = refl
  parsed-append (x ∷ xs) ys =
      ap (keep_entry (l.loads x) x) (parsed-append xs ys)
      ∙ keep_entry-append (l.loads x) x (parsed l xs) (parsed l ys)

  seconds-append :
      (xs ys : List (List ℕ × List ℕ)) → seconds l (xs ++ ys) ≡ seconds l xs ++ seconds l ys
  unfolding seconds
  seconds-append [] ys = refl
  seconds-append (x ∷ xs) ys = ap (x.1 ∷◌) (seconds-append xs ys)

  last_of-append : (xs : List (List ℕ)) (x : List ℕ) → last_of l (xs ++ x ∷ []) ≡ some x
  unfolding last_of
  last_of-append [] x = refl
  last_of-append (y ∷ []) x = refl
  last_of-append (y ∷ z ∷ xs) x = last_of-append (z ∷ xs) x

  file_entries-whole_text :
      (file : Option (List ℕ))
      → l.splitlines [] ≡ []
      → file_entries l file ≡ seconds l (parsed l (l.splitlines (whole_text file)))
  unfolding file_entries whole_text parsed seconds
  file_entries-whole_text none h = rw h refl
  file_entries-whole_text (some text) h = refl

  stored_entries :
      (entry : List ℕ) (file : Option (List ℕ))
      → ReadsBack entry (whole_text file)
      → file_entries l (some (whole_text file ++ (l.dumps entry ++ line_feed ∷ [])))
        ≡ file_entries l file ++ entry ∷ []
  unfolding file_entries keep_entry
  stored_entries entry file r =
      let one : parsed l (l.dumps entry ∷ []) ≡ (l.dumps entry, entry) ∷ [] = rw r.parses refl in
      rw
        (
          r.split,
          parsed-append (l.splitlines (whole_text file)) (l.dumps entry ∷ []),
          one,
          file_entries-whole_text file r.blank,
        )
        (seconds-append (parsed l (l.splitlines (whole_text file))) ((l.dumps entry, entry) ∷ []))

  store_entry-reads :
      (entry : List ℕ) (h : History)
      → Tracks h
      → ReadsBack entry (whole_text h.file)
      → h.count < history_cap + trim_slack
      → (file_entries l (store_entry l entry h).file ≡ file_entries l h.file ++ entry ∷ [])
        × Tracks (store_entry l entry h)
  unfolding store_entry
  store_entry-reads entry h t r room =
      let small : ltb (history_cap + trim_slack) (h.count + 1) ≡ false = ground arith in
      let reads = stored_entries entry h.file r in
      rw small (
        reads,
        record {
          loaded = t.loaded;
          last = rw reads (sym (last_of-append (file_entries l h.file) entry));
          count = rw reads (omega (arith, t.count, length-concat (file_entries l h.file) entry));
        },
      )

  -- While the file is short of the cap, an appended entry is read back as the last, after all
  -- that was there, unless it repeats the last; and the history keeps knowing its file.
  pub append-reads :
      (entry : List ℕ) (h : History)
      → Tracks h
      → ReadsBack entry (whole_text h.file)
      → h.count < history_cap + trim_slack
      → (file_entries l (append l entry h).file ≡ (
          if is_last l entry h.last
          then file_entries l h.file
          else file_entries l h.file ++ entry ∷ []))
        × Tracks (append l entry h)
  unfolding append
  append-reads entry h t r room =
      let loaded = t.loaded in
      elim (Bool-cases (is_last l entry h.last)) [
        | inl e ↦ simp (loaded, e) (refl, t)
        | inr e ↦ simp (loaded, e) (store_entry-reads entry h t r room)
      ]

  -- However many entries have been appended, the count stays within the cap and the slack.
  pub append-bounded :
      (entry : List ℕ) (h : History)
      → h.loaded ≡ true
      → h.count ≤ history_cap + trim_slack
      → (append l entry h).count ≤ history_cap + trim_slack
  unfolding append
  append-bounded entry h loaded bound = simp loaded (
      if_intro (λ (t : History). t.count ≤ history_cap + trim_slack) (is_last l entry h.last)
        (λ _. bound) (λ _. store_entry-bounded entry h bound))
