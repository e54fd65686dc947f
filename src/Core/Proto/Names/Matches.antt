-- ===== src/Core/Proto/Names/Matches.antt =====
-- What the regular expression for names accepts.
use moot.Common.{
  ℕ, zero, suc, ◌≤◌, ◌≡◌, ◌↔◌, ◌⊎◌, inl, inr, refl, ap, String, codes, Bool, true, ◌&&◌, List, [],
  ◌∷◌, ◌++◌, All, length, arith, Bool-cases,
}
use moot.Core.Proto.Names.{is_alnum, is_name_char, at_end, match_rest, match_name, is_name}

-- At most n name characters, and then perhaps a line feed.
pub record IsTail (n : ℕ) (cs : List ℕ) : Type 0 where
  pub body : List ℕ
  pub named : All (λ c. is_name_char c ≡ true) body
  pub short : length body ≤ n
  pub ends : (cs ≡ body) ⊎ (cs ≡ body ++ 10 ∷ [])

at_end-IsTail : (n : ℕ) (cs : List ℕ) → at_end cs ≡ true → IsTail n cs
unfolding at_end
at_end-IsTail n [] e = record { body = []; named = tt; short = omega arith; ends = inl refl }
at_end-IsTail n (c ∷ []) e = record {
  body = [];
  named = tt;
  short = omega arith;
  ends = inr (ground arith);
}
at_end-IsTail n (c ∷ d ∷ cs) e = cc

match_rest-IsTail : (n : ℕ) (cs : List ℕ) → match_rest n cs ≡ true → IsTail n cs
unfolding match_rest
match_rest-IsTail zero cs e = at_end-IsTail zero cs e
match_rest-IsTail (suc n) [] e = record {
  body = [];
  named = tt;
  short = omega arith;
  ends = inl refl;
}
match_rest-IsTail (suc n) (c ∷ cs) e = elim (Bool-cases (is_name_char c)) [
  | inl f ↦
      let t = match_rest-IsTail n cs (rw f at e) in
      record {
        body = c ∷ t.body;
        named = (f, t.named);
        short = omega (arith, t.short);
        ends = elim t.ends [ inl g ↦ inl (ap (λ r. c ∷ r) g) | inr g ↦ inr (ap (λ r. c ∷ r) g) ];
      }
  | inr f ↦ at_end-IsTail (suc n) (c ∷ cs) (rw f at e)
]

tail-match_rest :
    (n : ℕ) (body : List ℕ)
    → All (λ c. is_name_char c ≡ true) body
    → length body ≤ n
    → (match_rest n body ≡ true) × (match_rest n (body ++ 10 ∷ []) ≡ true)
unfolding match_rest at_end
tail-match_rest zero [] a s = (refl, refl)
tail-match_rest (suc n) [] a s = (refl, refl)
tail-match_rest zero (c ∷ body) a s = absurd (omega (arith, s))
tail-match_rest (suc n) (c ∷ body) a s =
    let (plain, fed) = tail-match_rest n body a.1 (omega (arith, s)) in (rw a.0 plain, rw a.0 fed)

IsTail-match_rest : (n : ℕ) (cs : List ℕ) → IsTail n cs → match_rest n cs ≡ true
IsTail-match_rest n cs t =
    let both = tail-match_rest n t.body t.named t.short in
    elim t.ends [ inl g ↦ rw g both.0 | inr g ↦ rw g both.1 ]

both_true : (b c : Bool) → (b && c) ≡ true → (b ≡ true) × (c ≡ true)
both_true b c e = ground arith

-- A letter or digit, then at most 31 name characters, then perhaps a line feed.
abbrev pub IsMatch : List ℕ → Type 0
IsMatch [] = ⊥
IsMatch (c ∷ cs) = (is_alnum c ≡ true) × IsTail 31 cs

match_name-IsMatch : (cs : List ℕ) → (match_name cs ≡ true) ↔ IsMatch cs
unfolding match_name
match_name-IsMatch [] = ((λ e. cc), (λ e. absurd e))
match_name-IsMatch (c ∷ cs) = (
  (λ e.
      let both = both_true (is_alnum c) (match_rest 31 cs) e in
      (both.0, match_rest-IsTail 31 cs both.1)),
  (λ m. rw (m.0, IsTail-match_rest 31 cs m.1) refl),
)

-- A text passes as a name if and only if it is a letter or a digit, at most 31 more letters, digits,
-- underscores or hyphens, and then perhaps one line feed: the `$` of the pattern lets it pass.
pub is_name-IsMatch : (s : String) → (is_name s ≡ true) ↔ IsMatch (codes s)
unfolding is_name
is_name-IsMatch s = match_name-IsMatch (codes s)
