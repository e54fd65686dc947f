-- ===== src/Core/Dedup/Laws.antt =====
-- The window against the list of all messages that a sender has had accepted.
pub mod Keys
use moot.Common.{
  ℕ, ◌+◌, ◌≤◌, ◌≡◌, ◌≢◌, refl, sym, ap, subst, String, ◌<>◌, Bool, true, false, ◌&&◌, ◌||◌, ◌∙◌,
  Option, none, some, List, [], ◌∷◌, arith, ◌==◌, eq_iff, keep, leb, Bool-cases, inl, inr,
  eq_of_iff, map, any, All, if◌then◌else◌,
}
use Prim.Native.Char.{Char, code}
use text.Mathlib.TextLemmas.{nil-append, cons-append, cons-eq-cons}
use moot.Common.Dict.{Dict, get, put, has, NodupKeys, get-put, put-NodupKeys}
use moot.Core.Dedup.{DedupWindow, flag, key_text, key, expire, seen}
use moot.Core.Dedup.Laws.Keys.{
  NoLf, lf, nil-line, split_first_line, flag-injective, flag-NoLf, key_text-injective,
}

-- a time that is still within the window
abbrev live : ℕ → ℕ → Option ℕ → Option ℕ
live now window none = none
live now window (some ts) = if leb now (ts + window) then some ts else none

get-keep :
    (now window : ℕ) (k : String) (d : Dict ℕ)
    → NodupKeys d
    → get k (keep (λ e. leb now (e.1 + window)) d) ≡ live now window (get k d)
unfolding get
get-keep now window k [] h = refl
get-keep now window k ((j, ts) ∷ d) h = ground (arith, get-keep now window k d h.1, eq_iff j k)

keep-NodupKeys :
    (now window : ℕ) (d : Dict ℕ) → NodupKeys d → NodupKeys (keep (λ e. leb now (e.1 + window)) d)
unfolding get
keep-NodupKeys now window [] h = tt
keep-NodupKeys now window ((j, ts) ∷ d) h = elim (Bool-cases (leb now (ts + window))) [
  | inl e ↦ rw e (rw (get-keep now window j d h.1, h.0) refl, keep-NodupKeys now window d h.1)
  | inr e ↦ rw e (keep-NodupKeys now window d h.1)
]

abbrev is_live : ℕ → ℕ → Option ℕ → Bool
is_live now window none = false
is_live now window (some ts) = leb now (ts + window)

-- a message with this key was accepted within the window
abbrev accepted : ℕ → ℕ → String → List (String × ℕ) → Bool
accepted now window k [] = false
accepted now window k ((j, ts) ∷ h) = (j == k) && leb now (ts + window) || accepted now window k h

accepted_mono :
    (now later window : ℕ) (k : String) (h : List (String × ℕ))
    → now ≤ later
    → accepted now window k h ≡ false
    → accepted later window k h ≡ false
accepted_mono now later window k [] le e = refl
accepted_mono now later window k ((j, ts) ∷ h) le e =
    ground (arith, accepted_mono now later window k h le, eq_iff j k)

-- The dictionary answers, now and later, as the list of accepted messages does.
pub record Tracks (at : ℕ) (d : DedupWindow) (h : List (String × ℕ)) : Type 0 where
  pub distinct : NodupKeys d.seen_at
  pub answers :
      (k : String) (now : ℕ)
      → at ≤ now
      → is_live now d.window (get k d.seen_at) ≡ accepted now d.window k h

-- After expiry a key is listed if and only if it is still live.
has-expire :
    (now : ℕ) (d : DedupWindow) (k : String)
    → NodupKeys d.seen_at
    → has k (expire now d).seen_at ≡ is_live now d.window (get k d.seen_at)
unfolding has expire
has-expire now d k h = ground (arith, get-keep now d.window k d.seen_at h)

live-live :
    (now later window : ℕ) (o : Option ℕ)
    → now ≤ later
    → is_live later window (live now window o) ≡ is_live later window o
live-live now later window none h = refl
live-live now later window (some ts) h = ground arith

expire-Tracks :
    (at now : ℕ) (d : DedupWindow) (h : List (String × ℕ))
    → at ≤ now
    → Tracks at d h
    → Tracks now (expire now d) h
unfolding expire
expire-Tracks at now d h le t = record {
  distinct = keep-NodupKeys now d.window d.seen_at t.distinct;
  answers = λ k later le'.
      rw
        (
          get-keep now d.window k d.seen_at t.distinct,
          live-live now later d.window (get k d.seen_at) le',
        )
        (t.answers k later (omega arith));
}

put-answers :
    (now window : ℕ) (k : String) (m : Dict ℕ) (h : List (String × ℕ))
    → accepted now window k h ≡ false
    → ((j : String) (later : ℕ)
        → now ≤ later
        → is_live later window (get j m) ≡ accepted later window j h)
    → (j : String) (later : ℕ) → now ≤ later
    → is_live later window (get j (put k now m)) ≡ accepted later window j ((k, now) ∷ h)
put-answers now window k m h new ih j later le =
    rw (get-put k j now m) (elim (Bool-cases (k == j)) [
      | inl e ↦
          let same = (eq_iff k j).0 e in
          rw e (
            ground (
              arith,
              accepted_mono now later window j h le
                  (subst (λ x. accepted now window x h ≡ false) same new),
            ))
      | inr e ↦ rw e (ih j later le)
    ])

-- `seen` at the level of keys: it answers whether the key was accepted within the window, and a
-- message that it lets through is one more accepted message.
pub seen-Tracks :
    (digest : String → String) (at now : ℕ) (d : DedupWindow) (h : List (String × ℕ))
    → (to text : String) (private : Bool) → at ≤ now
    → Tracks at d h
    → let k = key digest to text private in
      let dup = accepted now d.window k h in
      ((seen digest now d to text private).1 ≡ dup)
      × Tracks now (seen digest now d to text private).0 (if dup then h else (k, now) ∷ h)
unfolding seen
seen-Tracks digest at now d h to text private le t =
    let k = key digest to text private in
    let listed = has-expire now d k t.distinct ∙ t.answers k now le in
    let t' = expire-Tracks at now d h le t in
    elim (Bool-cases (accepted now d.window k h)) [
      | inl e ↦ rw (listed, e) (refl, t')
      | inr e ↦
          rw (listed, e)
            (
              refl,
              record {
                distinct = put-NodupKeys k now (expire now d).seen_at t'.distinct;
                answers = put-answers now d.window k (expire now d).seen_at h e t'.answers;
              },
            )
    ]

-- A message that was accepted, and when.
pub record Sent : Type 0 where
  pub to : String
  pub text : String
  pub private : Bool
  pub at : ℕ

abbrev pub entry : (String → String) → Sent → String × ℕ
entry digest m = (key digest m.to m.text m.private, m.at)

abbrev pub same : Sent → String → String → Bool → Bool
same m to text private = (m.to == to) && (flag m.private == flag private) && (m.text == text)

module _ (digest : String → String)
    (collision_free : (s t : String) → digest s ≡ digest t → s ≡ t) where
  same-key :
      (m : Sent) (to text : String) (private : Bool)
      → NoLf m.to
      → NoLf to
      → (key digest m.to m.text m.private == key digest to text private) ≡ same m to text private
  unfolding key
  same-key m to text private n n' =
      eq_of_iff _ _
        (λ e.
          let (tos, flags, texts) =
            key_text-injective m.to to m.text text m.private private n n'
              (collision_free _ _ ((eq_iff _ _).0 e)) in
          ground (
            arith,
            eq_iff m.to to,
            eq_iff (flag m.private) (flag private),
            eq_iff m.text text,
            ap flag flags,
          ))
        (λ e. (eq_iff _ _).1 (
          ground (
            arith,
            eq_iff m.to to,
            eq_iff (flag m.private) (flag private),
            eq_iff m.text text,
            flag-injective m.private private,
          )))

  accepted-same :
      (now window : ℕ) (h : List Sent) (to text : String) (private : Bool)
      → All (λ m. NoLf m.to) h
      → NoLf to
      → accepted now window (key digest to text private) (map (entry digest) h)
        ≡ any (λ m. same m to text private && leb now (m.at + window)) h
  accepted-same now window [] to text private n n' = refl
  accepted-same now window (m ∷ h) to text private n n' =
      rw (same-key m to text private n.0 n', accepted-same now window h to text private n.1 n')

  -- With a digest that never collides, and recipients without line feeds: `seen` reports a
  -- duplicate if and only if the sender has had the same text, to the same recipient and as public
  -- or private, accepted within the window; and it records the message if and only if it lets it
  -- through.
  pub seen_exact :
      (at now : ℕ) (d : DedupWindow) (h : List Sent) (to text : String) (private : Bool)
      → at ≤ now
      → Tracks at d (map (entry digest) h)
      → All (λ m. NoLf m.to) h
      → NoLf to
      → let dup = any (λ m. same m to text private && leb now (m.at + d.window)) h in
        ((seen digest now d to text private).1 ≡ dup)
        × Tracks now (seen digest now d to text private).0 (
            map
              (entry digest)
              (if dup then h else record { to = to; text = text; private = private; at = now } ∷ h))
  seen_exact at now d h to text private le t n n' =
      let step = seen-Tracks digest at now d (map (entry digest) h) to text private le t in
      let e = accepted-same now d.window h to text private n n' in
      let old = map (entry digest) h in
      let after = λ (b : Bool).
        Tracks now (seen digest now d to text private).0
          (if b then old else (key digest to text private, now) ∷ old) in
      (
        step.0 ∙ e,
        elim (Bool-cases (any (λ m. same m to text private && leb now (m.at + d.window)) h)) [
          | inl f ↦ rw f (subst after (e ∙ f) step.1)
          | inr f ↦ rw f (subst after (e ∙ f) step.1)
        ],
      )
