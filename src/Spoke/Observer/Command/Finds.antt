-- ===== src/Spoke/Observer/Command/Finds.antt =====
-- The commands that look messages up, and a say.
use Prim.Native.String.{String}
use moot.Common.{
  ℕ, ◌≡◌, ◌≢◌, refl, sym, ap, ◌∙◌, subst, Bool, true, false, not, ◌&&◌, Option, none, some, List,
  [], ◌∷◌, ◌==◌, ◌⊎◌, ◌<>◌, codes, inl, inr, Option-cases, if◌then◌else◌, if_intro,
}
use mathlib.Core.Bool.{false≢true}
use mathlib.Core.Option.{none-ne-some, some-injective}
use moot.Core.Proto.Validate.{is_one_of, say_kinds}
use moot.Spoke.Observer.Parse.{Statement, starts_with, after, partition, strip}
use moot.Spoke.Observer.Parse.Clean.{IsClean, partition-IsClean, strip-IsClean}
use moot.Spoke.Observer.Seat.{Entry, Seat}
use moot.Spoke.Observer.Seat.Lookup.{recent, search, known_peer, lookup, last_with, transcript_msgs}
use moot.Spoke.Observer.Pretty.{Pretty, dim}
use moot.Spoke.Observer.Command.{replay, show, last, find}
use moot.Spoke.Observer.Command.Quote.{question, quote_entry, quote}
use moot.Spoke.Observer.Command.Replies.{
  World, Reply, no_outgoing, refusal, shows, say_outgoing, count_arg, msg_id_arg,
}
use moot.Spoke.Observer.Command.Accepted.{IsCleanEntry, question-IsClean}
use moot.Spoke.Observer.Command.Sound.{
  IsSound, Covers, Then, not-not, last_with-All, first_with-All,
}

module _ (w : World) (s : Seat) (P : Reply → Type 0) (v : IsSound w s) (k : Covers s P) where
  pub refusal-covers : (detail : String) (p : Pretty) → P (refusal detail s p)
  unfolding refusal no_outgoing
  refusal-covers detail p = k.quiet _ p refl

  pub shows-covers : (rows : List (List ℕ)) (p : Pretty) → P (shows rows s p)
  unfolding shows no_outgoing
  shows-covers rows p = k.quiet _ p refl

  pub replay-covers :
      (es : List Entry) (rows : ℕ) (full : Bool) (p : Pretty) → P (replay w es rows full s p)
  unfolding replay
  replay-covers es rows full p = shows-covers _ _

  pub known-named : (name : String) → known_peer name s ≡ true → name ≢ ""
  known-named name h e = false≢true (sym v.nobody ∙ subst (λ n. known_peer n s ≡ true) e h)

  pub say_outgoing-covers :
      (say : Statement) (p : Pretty)
      → is_one_of say_kinds say.kind ≡ true
      → IsClean say.text
      → P (say_outgoing w.python say s p)
  unfolding say_outgoing
  say_outgoing-covers say p kind text =
      if_intro P (say.text == "") (λ _. refusal-covers _ p)
        (λ _.
          if_intro P (say.private && (say.to == "*")) (λ _. refusal-covers _ p)
            (λ e.
              if_intro P (known_peer say.to s)
                (λ f.
                  k.says say p
                    (record { to = known-named say.to f; kind = kind; text = text; private = e }))
                (λ _. refusal-covers _ p)))

  pub quote_entry-covers :
      (e : Entry) (rest : String) (p : Pretty)
      → IsCleanEntry e
      → IsClean rest
      → P (quote_entry w e rest s p)
  unfolding quote_entry question
  quote_entry-covers e rest p c h =
      let is_space = w.place.unicode.is_space in
      let parts = partition (strip is_space rest) in
      let clean = partition-IsClean (strip is_space rest) (strip-IsClean is_space rest h) in
      let name = if starts_with "@" parts.0 then after 1 parts.0 else parts.0 in
      if_intro P (not (known_peer name s)) (λ _. refusal-covers _ p)
        (λ f.
          if_intro P (strip is_space parts.1 == "") (λ _. refusal-covers _ p)
            (λ _.
              if_intro P (e.private && (name == "*")) (λ _. refusal-covers _ p)
                (λ g. k.says (question e name (strip is_space parts.1)) p (record {
                  to = known-named name (not-not _ f);
                  kind = refl;
                  text =
                      question-IsClean e name (strip is_space parts.1) c
                        (strip-IsClean is_space parts.1 clean.1);
                  private = g;
                }))))

  pub lookup-IsClean : (id : ℕ) (e : Entry) → lookup w.files id s ≡ some (some e) → IsCleanEntry e
  unfolding lookup
  lookup-IsClean id e h = elim (Option-cases (last_with id s.ring)) [
    | inr (x, found) ↦
        let same = some-injective x e (some-injective _ _ (rw (lookup, found) at h)) in
        last_with-All IsCleanEntry id s.ring e v.ring (found ∙ ap some same)
    | inl missing ↦ elim (Option-cases (transcript_msgs w.files)) [
      | inl broken ↦ absurd (none-ne-some _ (rw (lookup, missing, broken) at h))
      | inr (es, read) ↦
          first_with-All IsCleanEntry id es e (v.recorded es read)
            (some-injective _ _ (rw (lookup, missing, read) at h))
    ]
  ]

  -- on the two results of reading a number, and the two of a lookup
  module _ (f : ℕ → Option (Option Entry)) (bad : String) (unknown : ℕ → String)
      (g : Entry → Option Reply) (p : Pretty) where
    found_in : Option (Option ℕ) → Option Reply
    found_in none = none
    found_in (some none) = some (refusal bad s p)
    found_in (some (some id)) = elim (f id) [
      | none ↦ none
      | some none ↦ some (refusal (unknown id) s p)
      | some (some e) ↦ g e
    ]

    found_in-covers :
        (o : Option (Option ℕ))
        → ((id : ℕ) (e : Entry) → f id ≡ some (some e) → Then P (g e))
        → Then P (found_in o)
    unfolding found_in
    found_in-covers none h = tt
    found_in-covers (some none) h = refusal-covers _ p
    found_in-covers (some (some id)) h = go (f id) (h id)
      where
        go :
            (r : Option (Option Entry))
            → ((e : Entry) → r ≡ some (some e) → Then P (g e))
            → Then P (elim r [
              | none ↦ none
              | some none ↦ some (refusal (unknown id) s p)
              | some (some e) ↦ g e
            ])
        go none h = tt
        go (some none) h = refusal-covers _ p
        go (some (some e)) h = h e refl

  pub show-covers : (arg : String) (rows : ℕ) (p : Pretty) → Then P (show w arg rows s p)
  unfolding show found_in
  show-covers arg rows p =
      found_in-covers (λ id. lookup w.files id s) _ _ _ p (msg_id_arg w.python arg)
        (λ id e h. replay-covers (e ∷ []) rows true p)

  pub quote-covers : (arg : String) (p : Pretty) → IsClean arg → Then P (quote w arg s p)
  unfolding quote found_in
  quote-covers arg p h =
      found_in-covers (λ id. lookup w.files id s) _ _ _ p (msg_id_arg w.python (partition arg).0)
        (λ id e found.
          quote_entry-covers e (partition arg).1 p (lookup-IsClean id e found)
            (partition-IsClean arg h).1)

  pub last-covers : (arg : String) (rows : ℕ) (p : Pretty) → Then P (last w arg rows s p)
  unfolding last
  last-covers arg rows p = go (if arg == "" then some (some 3) else count_arg w.python arg)
    where
      listed :
          (o : Option (List Entry))
          → Then P (elim o [
            | none ↦ none
            | some [] ↦ some (shows (dim p (codes "[nothing to replay]") ∷ []) s p)
            | some (e ∷ es) ↦ some (replay w (e ∷ es) rows false s p)
          ])
      listed none = tt
      listed (some []) = shows-covers _ p
      listed (some (e ∷ es)) = replay-covers (e ∷ es) rows false p

      go :
          (o : Option (Option ℕ))
          → Then P (elim o [
            | none ↦ none
            | some none ↦ some (refusal "[/last takes a count]" s p)
            | some (some n) ↦ elim (recent w.files n s) [
              | none ↦ none
              | some [] ↦ some (shows (dim p (codes "[nothing to replay]") ∷ []) s p)
              | some (e ∷ es) ↦ some (replay w (e ∷ es) rows false s p)
            ]
          ])
      go none = tt
      go (some none) = refusal-covers _ p
      go (some (some n)) = listed (recent w.files n s)

  pub find-covers : (arg : String) (rows : ℕ) (p : Pretty) → Then P (find w arg rows s p)
  unfolding find
  find-covers arg rows p =
      if_intro (Then P) (arg == "") (λ _. refusal-covers _ p) (λ _. go (w.python.compile arg))
    where
      listed :
          (es : List Entry)
          → Then P (elim es [
            | [] ↦ some (shows (dim p (codes "[no match]") ∷ []) s p)
            | e ∷ rest ↦ some (replay w (e ∷ rest) rows false s p)
          ])
      listed [] = shows-covers _ p
      listed (e ∷ es) = replay-covers (e ∷ es) rows false p

      go :
          (c : String ⊎ (String → Bool))
          → Then P (elim c [
            | inl error ↦ some (refusal ("[bad regex: " <> error <> "]") s p)
            | inr matches ↦ elim (search matches rows s) [
              | [] ↦ some (shows (dim p (codes "[no match]") ∷ []) s p)
              | e ∷ es ↦ some (replay w (e ∷ es) rows false s p)
            ]
          ])
      go (inl error) = refusal-covers _ p
      go (inr matches) = listed (search matches rows s)
