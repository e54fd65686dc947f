-- ===== src/Spoke/Observer/Command/Cases.antt =====
-- What a typed line comes to: nothing that is sent, or one of six ways to send.
use Prim.Native.String.{String}
use moot.Common.{
  ℕ, refl, true, not, ◌&&◌, Option, none, some, [], ◌∷◌, ◌==◌, ne_of_eq_false, inl, inr, Bool-cases,
  Option-cases, if_intro,
}
use moot.Core.Proto.Names.{control_char_pos}
use moot.Core.Proto.Validate.{is_one_of, states, commands}
use moot.Spoke.Observer.Parse.{
  Typed, typed_say, typed_state, starts_with, after, partition, strip, parse_outgoing, prefixes,
  no_prefixes, say_parsed,
}
use moot.Spoke.Observer.Parse.Clean.{
  IsClean, control_char_pos-IsClean, after-IsClean, partition-IsClean, strip-IsClean,
  say_parsed-prefixes,
}
use moot.Spoke.Observer.Seat.{Seat}
use moot.Spoke.Observer.Pretty.{Pretty}
use moot.Spoke.Observer.Command.{
  close, seat_commands, cmd_args, hub_command, command, refused_at, line_outgoing, build_outgoing,
}
use moot.Spoke.Observer.Command.Replies.{World, Reply, no_outgoing, sends, say_outgoing}
use moot.Spoke.Observer.Command.Sound.{IsSound, Covers, Then}
use moot.Spoke.Observer.Command.Finds.{
  refusal-covers, shows-covers, say_outgoing-covers, show-covers, quote-covers, last-covers,
  find-covers,
}

module _ (w : World) (s : Seat) (P : Reply → Type 0) (v : IsSound w s) (k : Covers s P) where
  hub_command-covers : (cmd arg : String) (p : Pretty) → Then P (hub_command w.python cmd arg s p)
  unfolding hub_command
  hub_command-covers cmd arg p = elim (Option-cases (cmd_args w.python cmd arg)) [
    | inl e ↦ rw (hub_command, e) tt
    | inr (args, e) ↦ rw (hub_command, e) (k.commands cmd args p)
  ]

  close-covers : (arg : String) (p : Pretty) → IsClean arg → P (close arg s p)
  unfolding close
  close-covers arg p h = elim (Bool-cases (arg == "")) [
    | inl e ↦ rw (close, e) (refusal-covers w s P v k _ p)
    | inr e ↦ k.closes arg p (ne_of_eq_false arg "" e) h
  ]

  command-covers :
      (cmd arg : String) (rows : ℕ) (p : Pretty) → IsClean arg → Then P (command w cmd arg rows s p)
  unfolding command
  command-covers cmd arg rows p h =
      if_intro (Then P) (not (is_one_of seat_commands cmd) && not (is_one_of commands cmd))
        (λ _. refusal-covers w s P v k _ p)
        (λ _.
          if_intro (Then P) (cmd == "show") (λ _. show-covers w s P v k arg rows p)
            (λ _.
              if_intro (Then P) (cmd == "last") (λ _. last-covers w s P v k arg rows p)
                (λ _.
                  if_intro (Then P) (cmd == "find") (λ _. find-covers w s P v k arg rows p)
                    (λ _.
                      if_intro (Then P) (cmd == "q") (λ _. quote-covers w s P v k arg p h)
                        (λ _.
                          if_intro (Then P) (cmd == "help") (λ _. shows-covers w s P v k _ p)
                            (λ _.
                              if_intro (Then P) (cmd == "close") (λ _. close-covers arg p h)
                                (λ _.
                                  if_intro (Then P) (cmd == "roster") (λ _. k.lists p)
                                    (λ _.
                                      if_intro (Then P) ((cmd == "goal") && (arg == ""))
                                        (λ _. refusal-covers w s P v k _ p)
                                        (λ _. hub_command-covers cmd arg p)))))))))

  line_outgoing-covers : (line : String) (p : Pretty) → IsClean line → P (line_outgoing w line s p)
  unfolding line_outgoing parse_outgoing no_outgoing
  line_outgoing-covers line p h =
      let is_space = w.place.unicode.is_space in
      let text = strip is_space line in
      let parts = partition (strip is_space (after 6 text)) in
      let said = say_parsed-prefixes is_space text (strip-IsClean is_space line h) in
      if_intro on (starts_with "!state" text)
        (λ _.
          if_intro on (is_one_of states parts.0) (λ _. k.states is_space parts.0 parts.1 p)
            (λ _. k.quiet _ p refl))
        (λ _.
          say_outgoing-covers w s P v k
            (say_parsed is_space (prefixes is_space 3 (no_prefixes text))) p said.0 said.1)
    where
      on : Option Typed → Type 0
      on o = P (elim o [
        | none ↦ record { out = record no_outgoing { ignored = true }; seat = s; pretty = p }
        | some (typed_state frame) ↦ sends (frame ∷ []) [] s p
        | some (typed_say say) ↦ say_outgoing w.python say s p
      ])

  -- Every outcome of a typed line, in a sound seat, has a property that covers the ways to send.
  pub build_outgoing-covers :
      (line : String) (rows : ℕ) (p : Pretty) → Then P (build_outgoing w line rows s p)
  unfolding build_outgoing refused_at
  build_outgoing-covers line rows p = elim (Option-cases (control_char_pos line)) [
    | inr (i, e) ↦ rw (build_outgoing, e) (refusal-covers w s P v k _ p)
    | inl e ↦
        let clean = control_char_pos-IsClean line e in
        let parts = partition-IsClean (after 1 line) (after-IsClean 1 line clean) in
        rw (build_outgoing, e)
          (if_intro (Then P) (starts_with "/" line)
            (λ _.
              command-covers (partition (after 1 line)).0 _ rows p
                (strip-IsClean w.place.unicode.is_space _ parts.1))
            (λ _. line_outgoing-covers line p clean))
  ]
