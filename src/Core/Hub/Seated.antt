-- ===== src/Core/Hub/Seated.antt =====
-- The registry's invariant: names, connections and participants fit together, and everybody is
-- sound. This file has the invariant and the rules for single assignments; the children go through
-- the operations.
pub mod Routes
pub mod Leaves
pub mod Admits
pub mod Deliver
pub mod Says
pub mod Joins
pub mod Commands
pub mod Ticks
pub mod Frames
use moot.Common.{
  ℕ, ◌<◌, ◌≡◌, ◌≢◌, refl, sym, ap, ◌∙◌, subst, String, Bool, true, false, not, Option, none, some,
  List, [], ◌∷◌, arith, ◌==◌, eq_iff, keep, eqb, if◌then◌else◌, if_intro, Option-cases, ◌⊎◌, inl,
  inr,
}
use mathlib.Core.Path.{fun_ext}
use moot.Common.Dict
use moot.Common.Dict.{
  Dict, NodupKeys, modify_absent, Entries-assign, Entries, Entries-get, Entries-put, Entries-delete,
  Entries-modify, Entries-map_values, Entries-keep, put-NodupKeys, delete-NodupKeys,
  modify-NodupKeys, map_values-NodupKeys,
}
use moot.Core.Config.{Config}
use moot.Core.Server.{StreamClient}
use moot.Core.Hub.State.{Hub, Participant, live, on, at_client}
use moot.Core.Hub.Util.{touch_activity, set_idle}
use moot.Core.Hub.Quiet.{Quiet}
use moot.Core.Buffer.{ContextBuffer}
use moot.Core.Hub.Sound.{IsSane, IsSound, IsSoundBuffer}

-- A participant is listed under its name, on a connection of that name.
pub record IsSeat (c : Config) (names : ℕ → String) (k : String) (p : Participant) : Type 0 where
  pub listed : p.name ≡ k
  pub named : k ≢ ""
  pub connection : names p.client ≡ k
  pub sound : IsSound c p

pub record IsGrave (c : Config) (k : String) (p : Participant) : Type 0 where
  pub listed : p.name ≡ k
  pub sound : IsSound c p

pub record IsRegistry (c : Config) (participants dead : Dict Participant) (names : ℕ → String)
    : Type 0 where
  pub sane : IsSane c
  pub distinct : NodupKeys participants
  pub seats : Entries (IsSeat c names) participants
  pub graves : Entries (IsGrave c) dead

abbrev pub names_of : Hub → ℕ → String
names_of h c = (h.connections c).name

abbrev pub IsSeated : Hub → Type 0
IsSeated h = IsRegistry h.config h.participants h.dead (names_of h)

pub Quiet-IsSeated : {h h' : Hub} → Quiet h h' → IsSeated h → IsSeated h'
Quiet-IsSeated {h} {h'} q v =
    subst (λ n. IsRegistry h'.config h'.participants h'.dead n) (sym (fun_ext q.names))
      (subst (λ (s : Hub). IsRegistry s.config s.participants s.dead (names_of h)) (sym q.same) v)

-- A change of a participant that keeps its place and its soundness.
pub record Keeps (c : Config) (f : Participant → Participant) : Type 0 where
  pub name : (p : Participant) → (f p).name ≡ p.name
  pub client : (p : Participant) → (f p).client ≡ p.client
  pub sound : (p : Participant) → IsSound c p → IsSound c (f p)

pub Keeps-IsSeat :
    {c : Config} {f : Participant → Participant} {names : ℕ → String}
    → Keeps c f
    → (k : String) (p : Participant) → IsSeat c names k p
    → IsSeat c names k (f p)
Keeps-IsSeat {names} k j p s = record {
  listed = k.name p ∙ s.listed;
  named = s.named;
  connection = ap names (k.client p) ∙ s.connection;
  sound = k.sound p s.sound;
}

pub on-IsSeated :
    (name : String) (f : Participant → Participant) (h : Hub)
    → Keeps h.config f
    → IsSeated h
    → IsSeated (on name f h)
unfolding on
on-IsSeated name f h k v = record {
  sane = v.sane;
  distinct = modify-NodupKeys name f h.participants v.distinct;
  seats =
      Entries-modify (IsSeat h.config (names_of h)) name f h.participants (Keeps-IsSeat k) v.seats;
  graves = v.graves;
}

pub all-IsSeated :
    (f : Participant → Participant) (h : Hub)
    → Keeps h.config f
    → IsSeated h
    → IsSeated (record h { participants = Dict.map_values f h.participants })
all-IsSeated f h k v = record {
  sane = v.sane;
  distinct = map_values-NodupKeys f h.participants v.distinct;
  seats =
      Entries-map_values (IsSeat h.config (names_of h)) f h.participants (Keeps-IsSeat k) v.seats;
  graves = v.graves;
}

pub get-IsSeat :
    (h : Hub) (k : String) {p : Participant}
    → IsSeated h
    → Dict.get k h.participants ≡ some p
    → IsSeat h.config (names_of h) k p
get-IsSeat h k v e = Entries-get (IsSeat h.config (names_of h)) k h.participants v.seats e

-- A participant as it is in the registry, or one that is not registered.
abbrev pub IsCurrent : Hub → Participant → Type 0
IsCurrent h q = (Dict.get q.name h.participants ≡ none) ⊎ IsSeat h.config (names_of h) q.name q

pub live-IsCurrent : (h : Hub) (p : Participant) → IsSeated h → IsCurrent h (live h p)
unfolding live
live-IsCurrent h p v = elim (Option-cases (Dict.get p.name h.participants)) [
  | inl e ↦ rw (e, live) (inl e)
  | inr (q, e) ↦
      let s = get-IsSeat h p.name v e in
      rw (e, live) (inr (subst (λ n. IsSeat h.config (names_of h) n q) (sym s.listed) s))
]

pub name-live : (h : Hub) (p : Participant) → IsSeated h → (live h p).name ≡ p.name
unfolding live
name-live h p v = elim (Option-cases (Dict.get p.name h.participants)) [
  | inl e ↦ rw (e, live) refl
  | inr (q, e) ↦ rw (e, live) (get-IsSeat h p.name v e).listed
]

-- The same participant with other contents.
pub assign-IsSeated :
    (q r : Participant) (h : Hub)
    → r.name ≡ q.name
    → r.client ≡ q.client
    → (IsSound h.config q → IsSound h.config r)
    → IsCurrent h q
    → IsSeated h
    → IsSeated (on q.name (λ _. r) h)
unfolding on
assign-IsSeated q r h n c f (inl absent) v =
    rw (modify_absent q.name (λ _. r) h.participants absent) v
assign-IsSeated q r h n c f (inr s) v = record {
  sane = v.sane;
  distinct = modify-NodupKeys q.name (λ _. r) h.participants v.distinct;
  seats =
      Entries-assign (IsSeat h.config (names_of h)) q.name r h.participants
        (record {
          listed = n;
          named = s.named;
          connection = ap (names_of h) c ∙ s.connection;
          sound = f s.sound;
        })
        v.seats;
  graves = v.graves;
}

-- The same participant with another context.
pub context-IsSeated :
    (q : Participant) (b : ContextBuffer) (h : Hub)
    → (IsSound h.config q → IsSoundBuffer h.config.context_cap b)
    → IsCurrent h q
    → IsSeated h
    → IsSeated (on q.name (λ r. record r { context = b }) h)
unfolding on
context-IsSeated q b h f (inl absent) v =
    rw (modify_absent q.name (λ r. record r { context = b }) h.participants absent) v
context-IsSeated q b h f (inr s) v =
    on-IsSeated q.name (λ r. record r { context = b }) h
      (record {
        name = λ r. refl;
        client = λ r. refl;
        sound = λ r t. record { context = f s.sound; bounded = t.bounded; wakes = t.wakes };
      })
      v
