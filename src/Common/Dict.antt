-- ===== src/Common/Dict.antt =====
-- A Python dictionary as an association list in insertion order: a new key goes to the end, an
-- old one keeps its place.
use mathlib.Core.Path.{◌≡◌, refl, sym, subst}
use mathlib.Core.Bool.{Bool, true, false}
use mathlib.Core.Option.{Option, none, some, some-injective}
use mathlib.Core.List.{List, [], ◌∷◌, map}
use native.Mathlib.Omega.{arith}
use Prim.Native.String.{String}
use text.Mathlib.Text.{◌==◌}
use text.Mathlib.TextEquality.{eq_iff}
use text.Mathlib.TextPositions.{eq_refl}
use mathlib.Core.Logic.{inl, inr}
use mathlib.Core.Option
use moot.Common.Tests.{if◌then◌else◌, Bool-cases}
use moot.Common.Lists.{keep}

abbrev pub Dict {ℓ} : Type ℓ → Type ℓ
Dict V = List (String × V)

module _ {ℓ} {V : Type ℓ} where
  unfoldable pub get : String → Dict V → Option V
  get k [] = none
  get k ((j, v) ∷ d) = if j == k then some v else get k d

  unfoldable pub has : String → Dict V → Bool
  has k d = elim (get k d) [ none ↦ false | some v ↦ true ]

  unfoldable pub put : String → V → Dict V → Dict V
  put k v [] = (k, v) ∷ []
  put k v ((j, w) ∷ d) = if j == k then (j, v) ∷ d else (j, w) ∷ put k v d

  unfoldable pub delete : String → Dict V → Dict V
  delete k [] = []
  delete k ((j, v) ∷ d) = let rest = delete k d in if j == k then rest else (j, v) ∷ rest

  -- assignment to fields of the object that a key refers to
  unfoldable pub modify : String → (V → V) → Dict V → Dict V
  modify k f [] = []
  modify k f ((j, v) ∷ d) = if j == k then (j, f v) ∷ d else (j, v) ∷ modify k f d

  unfoldable pub keys : Dict V → List String
  keys = map (λ e. e.0)

  unfoldable pub values : Dict V → List V
  values = map (λ e. e.1)

  pub get-put :
      (k j : String) (v : V) (d : Dict V) → get j (put k v d) ≡ (if k == j then some v else get j d)
  unfolding get put
  get-put k j v [] = refl
  get-put k j v ((i, w) ∷ d) = ground (arith, eq_iff k j, eq_iff i k, eq_iff i j, get-put k j v d)

  pub get-delete :
      (k j : String) (d : Dict V) → get j (delete k d) ≡ (if k == j then none else get j d)
  unfolding get delete
  get-delete k j [] = ground arith
  get-delete k j ((i, v) ∷ d) = ground (arith, get-delete k j d, eq_iff i k, eq_iff i j, eq_iff k j)

  -- No key is listed twice.
  abbrev pub NodupKeys : Dict V → Type ℓ
  NodupKeys [] = Unit
  NodupKeys ((k, v) ∷ d) = (get k d ≡ none) × NodupKeys d

  pub put-NodupKeys : (k : String) (v : V) (d : Dict V) → NodupKeys d → NodupKeys (put k v d)
  unfolding get put
  put-NodupKeys k v [] h = (refl, tt)
  put-NodupKeys k v ((j, w) ∷ d) h = elim (Bool-cases (j == k)) [
    | inl e ↦ rw e h
    | inr e ↦ rw e (
      rw (get-put k j v d) (ground (arith, h.0, eq_iff k j, eq_iff j k)),
      put-NodupKeys k v d h.1,
    )
  ]

  pub delete-NodupKeys : (k : String) (d : Dict V) → NodupKeys d → NodupKeys (delete k d)
  unfolding get delete
  delete-NodupKeys k [] h = tt
  delete-NodupKeys k ((j, w) ∷ d) h = elim (Bool-cases (j == k)) [
    | inl e ↦ rw e (delete-NodupKeys k d h.1)
    | inr e ↦ rw e (rw (get-delete k j d) (ground (arith, h.0)), delete-NodupKeys k d h.1)
  ]

  pub get-modify :
      (k j : String) (f : V → V) (d : Dict V)
      → get j (modify k f d) ≡ (if k == j then Option.map f (get j d) else get j d)
  unfolding get modify
  get-modify k j f [] = ground arith
  get-modify k j f ((i, w) ∷ d) =
      ground (arith, eq_iff k j, eq_iff i k, eq_iff i j, get-modify k j f d)

  pub modify-NodupKeys :
      (k : String) (f : V → V) (d : Dict V) → NodupKeys d → NodupKeys (modify k f d)
  unfolding get modify
  modify-NodupKeys k f [] h = tt
  modify-NodupKeys k f ((j, w) ∷ d) h = elim (Bool-cases (j == k)) [
    | inl e ↦ rw e h
    | inr e ↦ rw e (
      rw (get-modify k j f d) (ground (arith, h.0, eq_iff k j, eq_iff j k)),
      modify-NodupKeys k f d h.1,
    )
  ]

  -- assignment to fields of every value
  unfoldable pub map_values : (V → V) → Dict V → Dict V
  map_values f [] = []
  map_values f ((j, v) ∷ d) = (j, f v) ∷ map_values f d

  pub get-map_values :
      (k : String) (f : V → V) (d : Dict V) → get k (map_values f d) ≡ Option.map f (get k d)
  unfolding get map_values
  get-map_values k f [] = refl
  get-map_values k f ((j, v) ∷ d) = ground (arith, get-map_values k f d)

  pub map_values-NodupKeys : (f : V → V) (d : Dict V) → NodupKeys d → NodupKeys (map_values f d)
  unfolding get map_values
  map_values-NodupKeys f [] h = tt
  map_values-NodupKeys f ((j, w) ∷ d) h =
      (rw (get-map_values j f d) (ground (arith, h.0)), map_values-NodupKeys f d h.1)

  pub modify_absent : (k : String) (f : V → V) (d : Dict V) → get k d ≡ none → modify k f d ≡ d
  unfolding get modify
  modify_absent k f [] h = refl
  modify_absent k f ((j, w) ∷ d) h = ground (arith, modify_absent k f d)

  pub modify_same : (k : String) (d : Dict V) → modify k (λ v. v) d ≡ d
  unfolding modify
  modify_same k [] = refl
  modify_same k ((j, w) ∷ d) = ground (arith, modify_same k d)

  pub modify-modify :
      (k : String) (f g : V → V) (d : Dict V)
      → modify k f (modify k g d) ≡ modify k (λ v. f (g v)) d
  unfolding modify
  modify-modify k f g [] = refl
  modify-modify k f g ((j, w) ∷ d) = ground (arith, modify-modify k f g d)

  -- What holds of every entry.
  abbrev pub Entries {κ} : (String → V → Type κ) → Dict V → Type κ
  Entries P [] = Unit
  Entries P ((k, v) ∷ d) = P k v × Entries P d

module _ {ℓ κ} {V : Type ℓ} (P : String → V → Type κ) where
  pub Entries-get : (k : String) (d : Dict V) {v : V} → Entries P d → get k d ≡ some v → P k v
  unfolding get
  Entries-get k [] {v} e h = cc
  Entries-get k ((j, w) ∷ d) {v} e h = elim (Bool-cases (j == k)) [
    | inl same ↦
        subst (P k) (some-injective w v (rw same at h))
          (subst (λ x. P x w) ((eq_iff j k).0 same) e.0)
    | inr other ↦ Entries-get k d e.1 (rw other at h)
  ]

  pub Entries-put : (k : String) (v : V) (d : Dict V) → Entries P d → P k v → Entries P (put k v d)
  unfolding put
  Entries-put k v [] e h = (h, tt)
  Entries-put k v ((j, w) ∷ d) e h = elim (Bool-cases (j == k)) [
    | inl same ↦ rw same (subst (λ x. P x v) (sym ((eq_iff j k).0 same)) h, e.1)
    | inr new ↦ rw new (e.0, Entries-put k v d e.1 h)
  ]

  pub Entries-delete : (k : String) (d : Dict V) → Entries P d → Entries P (delete k d)
  unfolding delete
  Entries-delete k [] e = tt
  Entries-delete k ((j, w) ∷ d) e = elim (Bool-cases (j == k)) [
    | inl same ↦ rw same (Entries-delete k d e.1)
    | inr new ↦ rw new (e.0, Entries-delete k d e.1)
  ]

  pub Entries-modify :
      (k : String) (f : V → V) (d : Dict V)
      → ((j : String) (v : V) → P j v → P j (f v))
      → Entries P d
      → Entries P (modify k f d)
  unfolding modify
  Entries-modify k f [] keeps e = tt
  Entries-modify k f ((j, w) ∷ d) keeps e = elim (Bool-cases (j == k)) [
    | inl same ↦ rw same (keeps j w e.0, e.1)
    | inr new ↦ rw new (e.0, Entries-modify k f d keeps e.1)
  ]

  pub Entries-assign :
      (k : String) (v : V) (d : Dict V) → P k v → Entries P d → Entries P (modify k (λ _. v) d)
  unfolding modify
  Entries-assign k v [] h e = tt
  Entries-assign k v ((j, w) ∷ d) h e = elim (Bool-cases (j == k)) [
    | inl same ↦ rw same (subst (λ x. P x v) (sym ((eq_iff j k).0 same)) h, e.1)
    | inr new ↦ rw new (e.0, Entries-assign k v d h e.1)
  ]

  pub Entries-map_values :
      (f : V → V) (d : Dict V)
      → ((j : String) (v : V) → P j v → P j (f v))
      → Entries P d
      → Entries P (map_values f d)
  unfolding map_values
  Entries-map_values f [] keeps e = tt
  Entries-map_values f ((j, w) ∷ d) keeps e = (keeps j w e.0, Entries-map_values f d keeps e.1)

  pub Entries-keep : (p : String × V → Bool) (d : Dict V) → Entries P d → Entries P (keep p d)
  Entries-keep p [] e = tt
  Entries-keep p ((j, w) ∷ d) e = elim (Bool-cases (p (j, w))) [
    | inl stays ↦ rw stays (e.0, Entries-keep p d e.1)
    | inr goes ↦ rw goes (Entries-keep p d e.1)
  ]

module _ {ℓ κ μ} {V : Type ℓ} (P : String → V → Type κ) (Q : String → V → Type μ) where
  pub Entries-imp :
      ((j : String) (v : V) → P j v → Q j v) → (d : Dict V) → Entries P d → Entries Q d
  Entries-imp f [] e = tt
  Entries-imp f ((j, w) ∷ d) e = (f j w e.0, Entries-imp f d e.1)

  pub Entries-and : (d : Dict V) → Entries P d → Entries Q d → Entries (λ k v. P k v × Q k v) d
  Entries-and [] e f = tt
  Entries-and ((j, w) ∷ d) e f = ((e.0, f.0), Entries-and d e.1 f.1)

module _ {ℓ} {V : Type ℓ} where
  -- With distinct keys, every entry is the one that a lookup finds.
  pub Entries-found : (d : Dict V) → NodupKeys d → Entries (λ k v. get k d ≡ some v) d
  unfolding get
  Entries-found [] n = tt
  Entries-found ((j, w) ∷ d) n = (
    rw (eq_refl j) refl,
    Entries-imp (λ k v. get k d ≡ some v) (λ k v. (if j == k then some w else get k d) ≡ some v)
        (λ k v h. elim (Bool-cases (j == k)) [
          | inl same ↦ ground (arith, n.0, h, eq_iff j k)
          | inr other ↦ rw other h
        ])
        d (Entries-found d n.1),
  )
