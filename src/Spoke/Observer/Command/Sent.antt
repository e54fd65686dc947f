-- ===== src/Spoke/Observer/Command/Sent.antt =====
-- What the seat sends for a typed line: its says against the hub's validation, and the sequence
-- numbers.
use Prim.Native.String.{String}
use moot.Common.{
  ℕ, ◌+◌, ◌≡◌, ◌≢◌, refl, subst, true, none, some, List, [], ◌∷◌, ◌==◌, ◌⊎◌, inl, inr, All,
  eq_false_of_ne, ne_of_eq_false, if_intro,
}
use mathlib.Core.Bool.{false≢true}
use moot.Common.Dict
use moot.Common.Dict.{Dict}
use moot.Common.Int.{pos}
use moot.Core.Hub.State.{Host}
use moot.Core.Hub.Hello.Backlog.{is_text}
use moot.Core.Proto.Json.{Json}
use moot.Core.Proto.Validate.{ok, validate}
use moot.Spoke.Observer.Parse.{say_frame, state_frame}
use mathlib.Core.Option.{none-ne-some}
use moot.Spoke.Observer.Parse.Clean.{IsClean}
use moot.Spoke.Observer.Seat.{Seat, next_seq}
use moot.Spoke.Observer.Pretty.{Pretty}
use moot.Spoke.Observer.Command.{cmd_frame, close, roster_frame, build_outgoing}
use moot.Spoke.Observer.Command.Replies.{World, Reply, no_outgoing, sends, sends_say}
use moot.Spoke.Observer.Command.Accepted.{say_frame-valid}
use moot.Spoke.Observer.Command.Sound.{IsSound, Covers, Then}
use moot.Spoke.Observer.Command.Cases.{build_outgoing-covers}

-- A say is one that the hub's validation takes.
pub IsAccepted : Host → Dict Json → Type 0
IsAccepted host f = is_text "t" "say" f ≡ true → validate host f ≡ ok tt

module _ (host : Host) (s : Seat) where
  closes-IsAccepted :
      (arg : String) (p : Pretty)
      → arg ≢ ""
      → IsClean arg
      → All (IsAccepted host) (close arg s p).out.frames
  unfolding close IsAccepted sends cmd_frame is_text Dict.get
  closes-IsAccepted arg p h clean =
      let some_text = eq_false_of_ne arg "" h in
      rw (close, some_text)
        (
          λ _. say_frame-valid host _ _ (record {
            to = ne_of_eq_false "*" "" refl;
            kind = refl;
            text = clean;
            private = refl;
          }),
          (λ e. absurd (false≢true e), tt),
        )

  IsAccepted-Covers : Covers s (λ o. All (IsAccepted host) o.out.frames)
  unfolding IsAccepted sends sends_say state_frame roster_frame cmd_frame is_text Dict.get
  IsAccepted-Covers = record {
    quiet = λ out p e. rw e tt;
    says = λ say p fair. (λ _. say_frame-valid host say _ fair, tt);
    states = λ is_space state detail p. (λ e. absurd (false≢true e), tt);
    closes = closes-IsAccepted;
    lists = λ p. (λ e. absurd (false≢true e), tt);
    commands = λ cmd args p. (λ e. absurd (false≢true e), tt);
  }

-- If the messages that the seat can look up are clean and nobody has the empty name, then every say
-- that a typed line, plain or a command, makes the seat send passes the validation of the hub.
pub build_outgoing-IsAccepted :
    (host : Host) (w : World) (line : String) (rows : ℕ) (s : Seat) (p : Pretty) (o : Reply)
    → IsSound w s
    → build_outgoing w line rows s p ≡ some o
    → All (IsAccepted host) o.out.frames
build_outgoing-IsAccepted host w line rows s p o v e =
    subst (Then (λ o. All (IsAccepted host) o.out.frames)) e
      (build_outgoing-covers w s _ v (IsAccepted-Covers host s) line rows p)

-- The frames with a sequence number have the numbers after the first, up to the last.
pub Numbered : ℕ → List (Dict Json) → ℕ → Type 0
Numbered n [] m = n ≡ m
Numbered n (f ∷ fs) m =
    ((Dict.get "seq" f ≡ none) × Numbered n fs m)
    ⊎ ((Dict.get "seq" f ≡ some (Json.int (pos (n + 1)))) × Numbered (n + 1) fs m)

pub record IsNumbered (s : Seat) (o : Reply) : Type 0 where
  pub numbered : Numbered s.seq o.out.frames o.seat.seq
  pub rest : o.seat ≡ record s { seq = o.seat.seq }
  pub refused : (detail : String) → o.out.error ≡ some detail → o.seat ≡ s

IsNumbered-Covers : (s : Seat) → Covers s (IsNumbered s)
unfolding Numbered sends sends_say state_frame roster_frame cmd_frame next_seq say_frame no_outgoing
    Dict.get close
IsNumbered-Covers s = record {
  quiet = λ out p e. record { numbered = rw e refl; rest = refl; refused = λ d h. refl };
  says = λ say p fair. record {
    numbered = inr (refl, refl);
    rest = refl;
    refused = λ d h. absurd (none-ne-some d h);
  };
  states = λ is_space state detail p. record {
    numbered = inl (
      if_intro (λ (d : Dict Json). Dict.get "seq" d ≡ none) (detail == "") (λ _. refl) (λ _. refl),
      refl,
    );
    rest = refl;
    refused = λ d h. absurd (none-ne-some d h);
  };
  closes = λ arg p h clean.
      rw (close, eq_false_of_ne arg "" h)
        (record {
          numbered = inr (refl, inr (refl, refl));
          rest = refl;
          refused = λ d k. absurd (none-ne-some d k);
        });
  lists = λ p. record {
    numbered = inr (refl, refl);
    rest = refl;
    refused = λ d h. absurd (none-ne-some d h);
  };
  commands = λ cmd args p. record {
    numbered = inr (refl, refl);
    rest = refl;
    refused = λ d h. absurd (none-ne-some d h);
  };
}

-- In a seat as above, the frames that a typed line makes the seat send and that have a sequence
-- number have the next ones in order, and nothing else of the seat changes; a refusal leaves the
-- whole seat as it was.
pub build_outgoing-IsNumbered :
    (w : World) (line : String) (rows : ℕ) (s : Seat) (p : Pretty) (o : Reply)
    → IsSound w s
    → build_outgoing w line rows s p ≡ some o
    → IsNumbered s o
build_outgoing-IsNumbered w line rows s p o v e =
    subst (Then (IsNumbered s)) e (build_outgoing-covers w s _ v (IsNumbered-Covers s) line rows p)
