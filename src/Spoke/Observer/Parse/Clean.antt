-- ===== src/Spoke/Observer/Parse/Clean.antt =====
-- The pieces of a typed line, and the loop over its prefixes.
use Prim.Native.Char.{code}
use moot.Common.{
  ℕ, zero, suc, ◌+◌, ◌≡◌, refl, sym, subst, ◌⊎◌, String, ◌<>◌, codes, codes-append, numeral,
  numeral-All, Bool, true, false, not, ◌&&◌, none, some, List, [], ◌∷◌, ◌==◌, eqb, arith, inl, inr,
  Bool-cases, Option-cases, All, All-append, if◌then◌else◌, if_intro,
}
use mathlib.Core.Option.{none-ne-some, some-injective}
use moot.Core.Proto.Names.{is_text_control, first_control, control_char_pos}
use moot.Core.Proto.Validate.{is_one_of, say_kinds}
use moot.Spoke.Observer.Parse.{
  after, partition, lstrip, rstrip, strip, Prefixes, private_step, kind_step, to_step, is_private,
  is_kind, is_to, left_stripped, prefix_step, prefixes, no_prefixes, say_parsed,
}

-- A text without the control characters that the hub refuses in a text.
unfoldable pub IsClean : String → Type 0
IsClean s = All (λ o. is_text_control o ≡ false) (codes s)

first_control-All :
    (i : ℕ) (cs : List ℕ) → first_control i cs ≡ none → All (λ o. is_text_control o ≡ false) cs
unfolding first_control
first_control-All i [] h = tt
first_control-All i (c ∷ cs) h = elim (Bool-cases (is_text_control c)) [
  | inl e ↦ absurd (ground (arith, h, e))
  | inr e ↦ (e, first_control-All (suc i) cs (rw e at h))
]

All-first_control :
    (i : ℕ) (cs : List ℕ) → All (λ o. is_text_control o ≡ false) cs → first_control i cs ≡ none
unfolding first_control
All-first_control i [] h = refl
All-first_control i (c ∷ cs) h = rw h.0 (All-first_control (suc i) cs h.1)

pub control_char_pos-IsClean : (s : String) → control_char_pos s ≡ none → IsClean s
unfolding control_char_pos IsClean
control_char_pos-IsClean s h = first_control-All 0 (codes s) h

pub IsClean-control_char_pos : (s : String) → IsClean s → control_char_pos s ≡ none
unfolding control_char_pos IsClean
IsClean-control_char_pos s h = All-first_control 0 (codes s) h

pub after-IsClean : (n : ℕ) (s : String) → IsClean s → IsClean (after n s)
unfolding after IsClean codes
after-IsClean zero s h = h
after-IsClean (suc n) String.[] h = tt
after-IsClean (suc n) (String.◌∷◌ c s) h = after-IsClean n s h.1

pub partition-IsClean : (s : String) → IsClean s → IsClean (partition s).0 × IsClean (partition s).1
unfolding partition IsClean codes
partition-IsClean String.[] h = (tt, tt)
partition-IsClean (String.◌∷◌ c s) h = elim (Bool-cases (eqb (code c) 0x20)) [
  | inl e ↦ rw e (tt, h.1)
  | inr e ↦ let rest = partition-IsClean s h.1 in rw e ((h.0, rest.0), rest.1)
]

not_second : (b c : Bool) → (b && not c) ≡ true → c ≡ false
not_second true true h = sym h
not_second true false h = refl
not_second false true h = sym h
not_second false false h = refl

pub append-IsClean : (s t : String) → IsClean s → IsClean t → IsClean (s <> t)
unfolding IsClean
append-IsClean s t h k =
    rw (codes-append s t) (All-append (λ o. is_text_control o ≡ false) (codes s) (codes t) h k)

pub numeral-IsClean : (n : ℕ) → IsClean (numeral n)
unfolding IsClean is_text_control
numeral-IsClean n = numeral-All (λ o. is_text_control o ≡ false) (λ d h k. ground arith) n

module _ (is_space : ℕ → Bool) where
  pub lstrip-IsClean : (s : String) → IsClean s → IsClean (lstrip is_space s)
  unfolding lstrip IsClean codes
  lstrip-IsClean String.[] h = tt
  lstrip-IsClean (String.◌∷◌ c s) h = elim (Bool-cases (is_space (code c))) [
    | inl e ↦ rw e (lstrip-IsClean s h.1)
    | inr e ↦ rw e h
  ]

  rstrip-IsClean : (s : String) → IsClean s → IsClean (rstrip is_space s)
  unfolding rstrip IsClean codes
  rstrip-IsClean String.[] h = tt
  rstrip-IsClean (String.◌∷◌ c s) h =
      if_intro IsClean (is_space (code c) && (rstrip is_space s == "")) (λ _. tt)
        (λ _. (h.0, rstrip-IsClean s h.1))

  pub strip-IsClean : (s : String) → IsClean s → IsClean (strip is_space s)
  unfolding strip
  strip-IsClean s h = rstrip-IsClean (lstrip is_space s) (lstrip-IsClean s h)

  -- What every turn of the loop keeps: a known kind, and a clean text.
  pub record IsSayable (p : Prefixes) : Type 0 where
    pub kind : is_one_of say_kinds p.kind ≡ true
    pub text : IsClean p.text

  -- The three ways on.
  prefix_step-cases :
      (p q : Prefixes)
      → prefix_step is_space p ≡ some q
      → ((q ≡ left_stripped is_space (private_step p)) × (p.seen_private ≡ false))
        ⊎ (((q ≡ left_stripped is_space (kind_step p)) × (p.seen_kind ≡ false))
            ⊎ ((q ≡ left_stripped is_space (to_step p)) × (p.seen_to ≡ false)))
  unfolding is_private is_kind is_to prefix_step
  prefix_step-cases p q h = elim (Bool-cases (is_private p)) [
    | inl e ↦ inl (sym (some-injective _ q (rw (prefix_step, e) at h)), not_second _ _ e)
    | inr e ↦ elim (Bool-cases (is_kind p)) [
      | inl f ↦ inr (inl (sym (some-injective _ q (rw (prefix_step, e, f) at h)), not_second _ _ f))
      | inr f ↦ elim (Bool-cases (is_to p)) [
        | inl g ↦
            inr (inr (sym (some-injective _ q (rw (prefix_step, e, f, g) at h)), not_second _ _ g))
        | inr g ↦ absurd (none-ne-some q (rw (prefix_step, e, f, g) at h))
      ]
    ]
  ]

  prefix_step-IsSayable :
      (p q : Prefixes) → IsSayable p → prefix_step is_space p ≡ some q → IsSayable q
  unfolding left_stripped private_step kind_step to_step
  prefix_step-IsSayable p q v h =
      let parts = partition-IsClean (after 1 p.text) (after-IsClean 1 p.text v.text) in
      elim (prefix_step-cases p q h) [
        | inl (e, _) ↦ subst IsSayable (sym e) (record {
          kind = v.kind;
          text = lstrip-IsClean (after 8 p.text) (after-IsClean 8 p.text v.text);
        })
        | inr (inl (e, _)) ↦ subst IsSayable (sym e) (record {
          kind =
              if_intro (λ k. is_one_of say_kinds k ≡ true)
                (is_one_of say_kinds (partition (after 1 p.text)).0) (λ k. k) (λ _. v.kind);
          text = lstrip-IsClean _ parts.1;
        })
        | inr (inr (e, _)) ↦
            subst IsSayable (sym e) (record { kind = v.kind; text = lstrip-IsClean _ parts.1 })
      ]

  prefixes-IsSayable : (n : ℕ) (p : Prefixes) → IsSayable p → IsSayable (prefixes is_space n p)
  unfolding prefixes
  prefixes-IsSayable zero p v = v
  prefixes-IsSayable (suc n) p v = elim (Option-cases (prefix_step is_space p)) [
    | inl e ↦ rw (prefixes, e) v
    | inr (q, e) ↦ rw (prefixes, e) (prefixes-IsSayable n q (prefix_step-IsSayable p q v e))
  ]

  -- How many of the three kinds of prefix are still free.
  free : Prefixes → ℕ
  free p =
      (if p.seen_kind then 0 else 1)
      + (if p.seen_to then 0 else 1)
      + (if p.seen_private then 0 else 1)

  prefix_step-free :
      (p q : Prefixes) → prefix_step is_space p ≡ some q → suc (free p) ≡ suc (suc (free q))
  unfolding left_stripped private_step kind_step to_step free
  prefix_step-free p q h = elim (prefix_step-cases p q h) [
    | inl (e, s) ↦ rw (e, s) (omega arith)
    | inr (inl (e, s)) ↦ rw (e, s) (omega arith)
    | inr (inr (e, s)) ↦ rw (e, s) (omega arith)
  ]

  prefixes-ends :
      (n : ℕ) (p : Prefixes) → free p ≡ n → prefix_step is_space (prefixes is_space n p) ≡ none
  unfolding prefixes
  prefixes-ends zero p h = elim (Option-cases (prefix_step is_space p)) [
    | inl e ↦ e
    | inr (q, e) ↦ absurd (omega (arith, prefix_step-free p q e))
  ]
  prefixes-ends (suc n) p h = elim (Option-cases (prefix_step is_space p)) [
    | inl e ↦ rw (prefixes, e) e
    | inr (q, e) ↦ rw (prefixes, e) (prefixes-ends n q (omega (arith, prefix_step-free p q e)))
  ]

  -- Three turns are all that the loop over the prefixes takes.
  pub prefixes_end :
      (text : String) → prefix_step is_space (prefixes is_space 3 (no_prefixes text)) ≡ none
  unfolding no_prefixes free
  prefixes_end text = prefixes-ends 3 (no_prefixes text) refl

  -- What a clean line says has a known kind and a clean text.
  pub say_parsed-prefixes :
      (text : String)
      → IsClean text
      → (is_one_of say_kinds (say_parsed is_space (prefixes is_space 3 (no_prefixes text))).kind
          ≡ true)
        × IsClean (say_parsed is_space (prefixes is_space 3 (no_prefixes text))).text
  unfolding say_parsed no_prefixes
  say_parsed-prefixes text h =
      let v = prefixes-IsSayable 3 (no_prefixes text) (record { kind = refl; text = h }) in
      (v.kind, strip-IsClean _ v.text)
