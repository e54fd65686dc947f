-- ===== src/Spoke/Observer/Command.antt =====
-- spoke/observer.py: what a typed line makes the seat do. `none` stands for an exception.
pub mod Sound
pub mod Finds
pub mod Quote
pub mod Replies
pub mod Accepted
pub mod Cases
pub mod Sent
use Prim.Native.String
use Prim.Native.String.{count}
use moot.Common.{
  ℕ, zero, suc, ◌+◌, ◌-◌, max, String, ◌<>◌, codes, numeral, join, Bool, true, false, not, ◌&&◌,
  ◌||◌, Option, none, some, List, [], ◌∷◌, ◌++◌, ◌==◌, ◌⊎◌, inl, inr, ltb, leb, eqb, length,
  take_last, is_empty, map, if◌then◌else◌,
}
use moot.Common.Dict.{Dict}
use moot.Common.Int.{ℤ, pos}
use moot.Core.Proto.Json.{Json, field, end}
use moot.Core.Proto.Names.{control_char_pos}
use moot.Core.Proto.Validate.{commands, is_one_of}
use moot.Spoke.Terminal.Width.{display_pos}
use moot.Spoke.Observer.Parse.{
  starts_with, after, partition, strip, Statement, say_frame, typed_say, typed_state,
  parse_outgoing,
}
use moot.Spoke.Observer.Seat.{Entry, Echo, Seat, next_seq}
use moot.Spoke.Observer.Seat.Lookup.{Files, lookup, recent, search, known_peer, peer_names}
use moot.Spoke.Observer.Pretty.{Place, Pretty, dim, replay_lines}
use moot.Spoke.Observer.Command.Replies.{
  Python, World, Outgoing, Reply, no_outgoing, refusal, sends, shows, no_peer, echo_of, sends_say,
  say_outgoing, count_arg, msg_id_arg,
}
use moot.Spoke.Observer.Command.Quote.{
  quote_excerpt, first_chars, excerpt, question, quote_entry, quote,
}

unfoldable pub replay_all : Place → Bool → List Entry → Pretty → List (List ℕ) × Pretty
replay_all w full [] p = ([], p)
replay_all w full (e ∷ es) p =
    let (rows, q) = replay_lines w e full p in
    let (more, r) = replay_all w full es q in (rows ++ more, r)

unfoldable pub with_marker : ℕ → List (List ℕ) → Pretty → List (List ℕ)
with_marker max_rows rows p =
    let cap = max 1 max_rows in
    if ltb cap (length rows)
    then take_last cap rows
      ++ dim p
          (codes "[+" ++ codes (numeral (length rows - cap)) ++ codes " more rows — transcript]")
        ∷ []
    else rows ++ dim p (codes "[end of replay]") ∷ []

unfoldable pub replay : World → List Entry → ℕ → Bool → Seat → Pretty → Reply
unfolding shows replay_all with_marker
replay w records max_rows full s p =
    let (rows, q) = replay_all w.place full records p in shows (with_marker max_rows rows q) s q

unfoldable pub show : World → String → ℕ → Seat → Pretty → Option Reply
unfolding refusal replay msg_id_arg lookup
show w arg max_rows s p = elim (msg_id_arg w.python arg) [
  | none ↦ none
  | some none ↦ some (refusal "[/show takes a message id]" s p)
  | some (some id) ↦ elim (lookup w.files id s) [
    | none ↦ none
    | some none ↦ some (
        refusal
          ("[no message #" <> numeral id <> " — not in this seat's buffer or today's transcript]") s
          p)
    | some (some e) ↦ some (replay w (e ∷ []) max_rows true s p)
  ]
]

-- the last messages, three where no count is given
unfoldable pub last : World → String → ℕ → Seat → Pretty → Option Reply
unfolding refusal replay shows count_arg recent
last w arg max_rows s p = elim (if arg == "" then some (some 3) else count_arg w.python arg) [
  | none ↦ none
  | some none ↦ some (refusal "[/last takes a count]" s p)
  | some (some n) ↦ elim (recent w.files n s) [
    | none ↦ none
    | some [] ↦ some (shows (dim p (codes "[nothing to replay]") ∷ []) s p)
    | some (e ∷ es) ↦ some (replay w (e ∷ es) max_rows false s p)
  ]
]

unfoldable pub find : World → String → ℕ → Seat → Pretty → Option Reply
unfolding refusal replay shows search
find w arg max_rows s p =
    if arg == "" then some (refusal "[/find needs a regex]" s p) else elim (w.python.compile arg) [
      | inl error ↦ some (refusal ("[bad regex: " <> error <> "]") s p)
      | inr matches ↦ elim (search matches max_rows s) [
        | [] ↦ some (shows (dim p (codes "[no match]") ∷ []) s p)
        | e ∷ es ↦ some (replay w (e ∷ es) max_rows false s p)
      ]
    ]

unfoldable pub cmd_frame : String → ℕ → Option Json → Dict Json
cmd_frame cmd seq args =
    ("t", Json.str "cmd")
    ∷ ("cmd", Json.str cmd)
    ∷ ("seq", Json.int (pos seq))
    ∷ elim args [ none ↦ [] | some v ↦ ("args", v) ∷ [] ]

-- a broadcast `done`, then `reset`
unfoldable pub close : String → Seat → Pretty → Reply
unfolding refusal sends echo_of next_seq cmd_frame
close arg s p =
    let done : Statement = record { to = "*"; kind = "done"; text = arg; private = false } in
    let (say_seq, t) = next_seq s in
    let (cmd_seq, r) = next_seq t in
    if arg == ""
    then refusal "[/close needs a closing statement]" s p
    else sends (say_frame done (pos say_seq) ∷ cmd_frame "reset" cmd_seq none ∷ [])
        ((say_seq, echo_of done) ∷ []) r p

abbrev pub seat_commands : List String
seat_commands = "roster" ∷ "show" ∷ "last" ∷ "find" ∷ "q" ∷ "help" ∷ "close" ∷ []

unfoldable pub help_lines : List String
help_lines =
    "text → broadcast · @name text → direct · !kind text → claim, question,"
    ∷ "  answer, result, objection, done, note · @name !private text → only that"
    ∷ "  peer and the observers see it · prefixes in any order"
    ∷ "!state idle|busy|blocked [detail] → set your own state"
    ∷ "hub commands: /goal TEXT /freeze /resume [n] /reset /mute /unmute /roster"
    ∷ "  /close TEXT (says done, then resets the round budget)"
    ∷ "local commands (never reach the hub): /show #N /last [n] /find REGEX"
    ∷ "  /q N @name text (quote #N in a question; a private #N stays private)" ∷ "  /help"
    ∷ "/find searches this seat's buffer; /show and /last also read today's" ∷ "  transcript" ∷ []

unfoldable pub unknown_command : String → String
unknown_command cmd =
    "[unknown command '/" <> cmd
    <> "' — /freeze /resume /reset /mute /unmute /goal /roster /show /last /find /q /close /help]"

unfoldable pub roster_frame : ℕ → Dict Json
roster_frame seq = ("t", Json.str "roster") ∷ ("seq", Json.int (pos seq)) ∷ []

unfoldable pub cmd_args : Python → String → String → Option (Option Json)
unfolding count_arg
cmd_args py cmd arg =
    if cmd == "resume"
    then elim (count_arg py arg) [
      | none ↦ none
      | some none ↦ some none
      | some (some n) ↦ some (some (Json.obj (field "n" (Json.int (pos n)) end)))
    ]
    else some (if cmd == "goal" then some (Json.obj (field "text" (Json.str arg) end)) else none)

-- a command that the hub carries out
unfoldable pub hub_command : Python → String → String → Seat → Pretty → Option Reply
unfolding sends next_seq cmd_frame cmd_args
hub_command py cmd arg s p = elim (cmd_args py cmd arg) [
  | none ↦ none
  | some args ↦ let (seq, t) = next_seq s in some (sends (cmd_frame cmd seq args ∷ []) [] t p)
]

unfoldable pub command : World → String → String → ℕ → Seat → Pretty → Option Reply
unfolding refusal sends shows show last find quote close hub_command next_seq roster_frame
    unknown_command help_lines
command w cmd arg max_rows s p =
    if not (is_one_of seat_commands cmd) && not (is_one_of commands cmd)
    then some (refusal (unknown_command cmd) s p)
    else if cmd == "show"
    then show w arg max_rows s p
    else if cmd == "last"
    then last w arg max_rows s p
    else if cmd == "find"
    then find w arg max_rows s p
    else if cmd == "q"
    then quote w arg s p
    else if cmd == "help"
    then some (shows (map (λ line. dim p (codes line)) help_lines) s p)
    else if cmd == "close"
    then some (close arg s p)
    else if cmd == "roster"
    then some (sends (roster_frame (s.seq + 1) ∷ []) [] (next_seq s).1 p)
    else if (cmd == "goal") && (arg == "")
    then some (refusal "[/goal needs a text]" s p)
    else hub_command w.python cmd arg s p

unfoldable pub refused_at : String → ℕ → Seat → Pretty → Reply
unfolding refusal
refused_at line ctrl s p =
    refusal
      ("[control characters at col "
        <> numeral (display_pos (codes line) ctrl + 1)
        <> " — not sent]")
      s p

unfoldable pub line_outgoing : World → String → Seat → Pretty → Reply
unfolding no_outgoing sends say_outgoing
line_outgoing w line s p = elim (parse_outgoing w.place.unicode.is_space line) [
  | none ↦ record { out = record no_outgoing { ignored = true }; seat = s; pretty = p }
  | some (typed_state frame) ↦ sends (frame ∷ []) [] s p
  | some (typed_say say) ↦ say_outgoing w.python say s p
]

unfoldable pub build_outgoing : World → String → ℕ → Seat → Pretty → Option Reply
unfolding refused_at command line_outgoing
build_outgoing w line max_rows s p = elim (control_char_pos line) [
  | some ctrl ↦ some (refused_at line ctrl s p)
  | none ↦
      if starts_with "/" line
      then (let (cmd, arg) = partition (after 1 line) in
          command w cmd (strip w.place.unicode.is_space arg) max_rows s p)
      else some (line_outgoing w line s p)
]
