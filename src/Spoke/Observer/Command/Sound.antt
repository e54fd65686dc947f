-- ===== src/Spoke/Observer/Command/Sound.antt =====
-- What the seat can look up, and what a property of all outcomes has to hold of.
use Prim.Native.String.{String}
use moot.Common.{
  ℕ, ◌+◌, ◌≡◌, ◌≢◌, refl, sym, ◌∙◌, subst, Bool, true, false, not, Option, none, some, List, [],
  ◌∷◌, eqb, inl, inr, Bool-cases, Option-cases, All,
}
use mathlib.Core.Option.{none-ne-some, some-injective}
use moot.Core.Proto.Json.{Json}
use moot.Spoke.Observer.Parse.{Statement, state_frame}
use moot.Spoke.Observer.Parse.Clean.{IsClean}
use moot.Spoke.Observer.Seat.{Entry, Seat, next_seq}
use moot.Spoke.Observer.Seat.Lookup.{known_peer, last_with, first_with, transcript_msgs}
use moot.Spoke.Observer.Pretty.{Pretty}
use moot.Spoke.Observer.Command.{cmd_frame, close, roster_frame}
use moot.Spoke.Observer.Command.Replies.{World, Outgoing, Reply, sends, sends_say}
use moot.Spoke.Observer.Command.Accepted.{IsFair, IsCleanEntry}

-- The messages that the seat can look up are clean, and nobody has the empty name.
pub record IsSound (w : World) (s : Seat) : Type 0 where
  pub ring : All IsCleanEntry s.ring
  pub recorded : (es : List Entry) → transcript_msgs w.files ≡ some es → All IsCleanEntry es
  pub nobody : known_peer "" s ≡ false

-- What a property of outcomes has to hold of.
pub record Covers (s : Seat) (P : Reply → Type 0) : Type 0 where
  pub quiet :
      (out : Outgoing) (p : Pretty)
      → out.frames ≡ []
      → P (record { out = out; seat = s; pretty = p })
  pub says : (say : Statement) (p : Pretty) → IsFair say → P (sends_say say s p)
  pub states :
      (is_space : ℕ → Bool) (state detail : String) (p : Pretty)
      → P (sends (state_frame is_space state detail ∷ []) [] s p)
  pub closes : (arg : String) (p : Pretty) → arg ≢ "" → IsClean arg → P (close arg s p)
  pub lists : (p : Pretty) → P (sends (roster_frame (s.seq + 1) ∷ []) [] (next_seq s).1 p)
  pub commands :
      (cmd : String) (args : Option Json) (p : Pretty)
      → P (sends (cmd_frame cmd (next_seq s).0 args ∷ []) [] (next_seq s).1 p)

-- What holds of an outcome, if there is one.
abbrev pub Then : (Reply → Type 0) → Option Reply → Type 0
Then P none = Unit
Then P (some o) = P o

pub not-not : (b : Bool) → not b ≡ false → b ≡ true
not-not true h = refl
not-not false h = sym h

-- The entry that the ring has for an id is one of the ring's; likewise in the transcript.
module _ (Q : Entry → Type 0) where
  pub last_with-All :
      (id : ℕ) (es : List Entry) (e : Entry) → All Q es → last_with id es ≡ some e → Q e
  unfolding last_with
  last_with-All id [] e a h = absurd (none-ne-some e h)
  last_with-All id (x ∷ es) e a h = elim (Option-cases (last_with id es)) [
    | inr (y, found) ↦ last_with-All id es e a.1 (found ∙ (rw (last_with, found) at h))
    | inl missing ↦ elim (Bool-cases (eqb x.id id)) [
      | inl same ↦ subst Q (some-injective x e (rw (last_with, missing, same) at h)) a.0
      | inr other ↦ absurd (none-ne-some e (rw (last_with, missing, other) at h))
    ]
  ]

  pub first_with-All :
      (id : ℕ) (es : List Entry) (e : Entry) → All Q es → first_with id es ≡ some e → Q e
  unfolding first_with
  first_with-All id [] e a h = absurd (none-ne-some e h)
  first_with-All id (x ∷ es) e a h = elim (Bool-cases (eqb x.id id)) [
    | inl same ↦ subst Q (some-injective x e (rw (first_with, same) at h)) a.0
    | inr other ↦ first_with-All id es e a.1 (rw (first_with, other) at h)
  ]
