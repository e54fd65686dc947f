-- ===== src/Spoke/Inbox.antt =====
-- cli/inbox.py: the file bridge. An inbox grows by itself, so what is appended to it, and what the
-- clock says, arrives as a list of looks. `int` and `str`, UTF-8 and the control socket are
-- parameters.
pub mod Clean
pub mod Delivered
pub mod Ends
pub mod Laws
mod Tests
use Prim.Native.String.{String}
use moot.Common.{
  ℕ, ◌+◌, Bool, true, false, Option, none, some, List, [], ◌∷◌, ◌++◌, ◌<>◌, ◌==◌, ltb, leb, length,
  drop, if◌then◌else◌,
}
use moot.Common.Dict
use moot.Common.Dict.{Dict}
use moot.Core.Proto.Json.{Json}
use moot.Spoke.Terminal.Keys.{unix_lines}
use moot.Spoke.Observer.Seat.{str_or_empty}

-- `decode` and `encode` are strict UTF-8, and `decode` may raise; `reply` is the
-- answer to each report on the control socket; `rounded` is a time in seconds.
pub record Place : Type 0 where
  pub strip : String → String
  pub int_of : String → Option ℕ
  pub decimal : ℕ → String
  pub decode : List ℕ → Option (List ℕ)
  pub encode : List ℕ → List ℕ
  pub reply : ℕ → Dict Json
  pub show_value : Option Json → String
  pub rounded : ℕ → String

-- the inbox and the cursor beside it, the states that were reported, and what was printed: of the
-- inbox, in other lines, and on the error stream
pub record Bridge : Type 0 where
  pub inbox : Option (List ℕ)
  pub cursor : Option String
  pub reported : List String
  pub printed : List ℕ
  pub notes : List String
  pub complaints : List String

pub data Code : Type 0 where
  found : Code
  nothing : Code
  failed : Code
  waiting : Code

-- what the inbox got since the look before, and the clock
pub record Look : Type 0 where
  pub grown : List ℕ
  pub clock : ℕ

unfoldable pub report : Place → String → Bridge → Bridge
report p state b =
    let frame = p.reply (length b.reported) in
    let t = record b { reported = b.reported ++ state ∷ [] } in
    let complaint =
      "moot: state "
      <> state
      <> " not reported ("
      <> p.show_value (Dict.get "code" frame)
      <> ": "
      <> p.show_value (Dict.get "detail" frame)
      <> ")" in
    if str_or_empty (Dict.get "t" frame) == "ok"
    then t
    else record t { complaints = t.complaints ++ complaint ∷ [] }

unfoldable pub read_cursor : Place → Bridge → Option ℕ
read_cursor p b = elim b.cursor [
  | none ↦ some 0
  | some text ↦ if p.strip text == "" then some 0 else p.int_of (p.strip text)
]

unfoldable pub contents : Bridge → List ℕ
contents b = elim b.inbox [ none ↦ [] | some bytes ↦ bytes ]

-- `_size`, of a file that need not be there
unfoldable pub size : Bridge → ℕ
unfolding contents
size b = length (contents b)

unfoldable pub grow : List ℕ → Bridge → Bridge
unfolding contents
grow [] b = b
grow (byte ∷ bytes) b = record b { inbox = some (contents b ++ byte ∷ bytes) }

-- The file is open in text mode, which makes line feeds of the line ends.
unfoldable pub consume_unread : Place → ℕ → Bridge → Code × Bridge
consume_unread p start b = elim b.inbox [
  | none ↦ (failed, b)
  | some bytes ↦ elim (p.decode (drop start bytes)) [
    | none ↦ (failed, b)
    | some text ↦
        let read = unix_lines text in
        (
          found,
          record b {
            cursor = some (p.decimal (start + length (p.encode read)));
            printed = b.printed ++ read;
          },
        )
  ]
]

-- what is appended while the command sleeps before it reads comes last
unfoldable pub wait_loop : Place → List Look → List ℕ → ℕ → ℕ → String → Bridge → Code × Bridge
unfolding report size grow consume_unread
wait_loop p [] settled start deadline timeout b = (waiting, b)
wait_loop p (look ∷ looks) settled start deadline timeout b =
    let t = grow look.grown b in
    let rest = wait_loop p looks settled start deadline timeout t in
    if ltb start (size t)
    then consume_unread p start (grow settled (report p "busy" t))
    else if leb deadline look.clock
    then (
      nothing,
      record t {
        notes = t.notes ++ ("(no new messages within " <> timeout <> "s — run wait again)") ∷ [];
      },
    )
    else rest

unfoldable pub run_wait : Place → ℕ → ℕ → List Look → List ℕ → Bridge → Code × Bridge
unfolding wait_loop read_cursor
run_wait p now timeout looks settled b = elim (read_cursor p b) [
  | none ↦ (failed, b)
  | some start ↦
      wait_loop p looks settled start (now + timeout) (p.rounded timeout) (report p "idle" b)
]

-- the size that the loop saw last; `none` is a loop that still runs
unfoldable pub peek_loop : List Look → ℕ → ℕ → ℕ → Bridge → Option ℕ × Bridge
unfolding size grow
peek_loop [] start deadline seen b = (none, b)
peek_loop (look ∷ looks) start deadline seen b =
    let t = grow look.grown b in
    let rest = peek_loop looks start deadline (size t) t in
    if leb deadline look.clock
    then (some seen, b)
    else if ltb start (size t)
    then (some (size t), t)
    else rest

unfoldable pub run_peek : Place → ℕ → ℕ → List Look → List ℕ → Bridge → Code × Bridge
unfolding peek_loop read_cursor report consume_unread grow
run_peek p now settle looks settled b = elim (read_cursor p b) [
  | none ↦ (failed, b)
  | some start ↦
      let (last, t) = peek_loop looks start (now + settle) 0 (report p "idle" b) in
      elim last [
        | none ↦ (waiting, t)
        | some seen ↦
            let u = report p "busy" t in
            if leb seen start
            then (nothing, record u { notes = u.notes ++ "(nothing new)" ∷ [] })
            else consume_unread p start (grow settled u)
      ]
]
