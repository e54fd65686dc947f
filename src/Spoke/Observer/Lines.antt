-- ===== src/Spoke/Observer/Lines.antt =====
-- spoke/observer.py: the display lines of the hub's frames. `none` is an exception.
use Prim.Native.String.{String}
use moot.Common.{
  ℕ, codes, numeral, ◌||◌, Option, none, some, List, [], ◌∷◌, ◌++◌, ◌==◌, if◌then◌else◌,
}
use moot.Common.Dict
use moot.Common.Dict.{Dict}
use moot.Core.Hub.State.{Host}
use moot.Core.Hub.Hello.Request.{str_value}
use moot.Core.Proto.Json.{Json, truthy}
use moot.Spoke.Render.{items, object, shown, is_true}
use moot.Spoke.Observer.Seat.{msg_id, ring_entry, str_at, str_or_empty}
use moot.Spoke.Observer.Pretty.{Place, Pretty, c, dim, who, msg_lines, dot}

-- the suffix of a message in a deliver frame
unfoldable pub deliver_suffix : String → Dict Json → List ℕ
deliver_suffix round m =
    codes "  r"
    ++ codes round
    ++ (elim (msg_id m) as (λ _. List ℕ) [ none ↦ [] | some id ↦ codes " #" ++ codes (numeral id) ])
    ++ (if is_true (Dict.get "private" m) then dot ++ codes "private" else [])

unfoldable pub deliver_each : Place → String → List Json → Pretty → Option (List (List ℕ) × Pretty)
unfolding object ring_entry deliver_suffix
deliver_each w round [] p = some ([], p)
deliver_each w round (v ∷ vs) p = elim (object v) [
  | none ↦ none
  | some m ↦ elim (ring_entry 0 m) [
    | none ↦ none
    | some e ↦
        let (rows, q) =
          msg_lines w w.now e.sender e.to e.kind (codes e.text) (deliver_suffix round m) p in
        elim (deliver_each w round vs q) [ none ↦ none | some (more, r) ↦ some (rows ++ more, r) ]
  ]
]

unfoldable pub deliver_lines : Place → Host → Dict Json → Pretty → Option (List (List ℕ) × Pretty)
unfolding deliver_each items
deliver_lines w host frame p = elim (shown host "round" frame) [
  | none ↦ none
  | some round ↦ elim (items frame "msgs") [ none ↦ none | some vs ↦ deliver_each w round vs p ]
]

-- `" ".join(f"{k}={v}" …)` but for the keys "t" and "event"
unfoldable pub extra_of : Host → Dict Json → List ℕ
unfolding str_value
extra_of host [] = []
extra_of host ((k, v) ∷ rest) =
    let more = extra_of host rest in
    let this = codes k ++ codes "=" ++ codes (str_value host v) in
    if k == "t" || (k == "event") then more else this ++ joined more
  where
    joined : List ℕ → List ℕ
    joined [] = []
    joined (o ∷ os) = 0x20 ∷ o ∷ os

unfoldable pub event_line : Place → Host → Dict Json → Pretty → Option (List ℕ)
unfolding extra_of
event_line w host frame p = elim (shown host "event" frame) [
  | none ↦ none
  | some event ↦ some (dim p (w.now ++ dot ++ codes event ++ codes " " ++ extra_of host frame))
]

-- `frame.get(key)`, formatted: None where it is not there
unfoldable pub got : Host → String → Dict Json → List ℕ
unfolding str_value
got host key frame = elim (Dict.get key frame) [
  | none ↦ codes "None"
  | some Json.null ↦ codes "None"
  | some v ↦ codes (str_value host v)
]

unfoldable pub retry_part : Host → Option Json → List ℕ
unfolding str_value
retry_part host none = []
retry_part host (some Json.null) = []
retry_part host (some v) = codes " (retry in " ++ codes (str_value host v) ++ codes "s)"

unfoldable pub err_line : Place → Host → Dict Json → Pretty → List ℕ
unfolding got retry_part
err_line w host frame p = c p "31" (
    w.now
    ++ codes " ! "
    ++ got host "code" frame
    ++ codes ": "
    ++ got host "detail" frame
    ++ retry_part host (Dict.get "retry_after" frame))

unfoldable pub roster_peers : Host → List Json → Pretty → Option (List (List ℕ) × Pretty)
unfolding object
roster_peers host [] p = some ([], p)
roster_peers host (v ∷ vs) p = elim (object v) [
  | none ↦ none
  | some m ↦ elim (str_at "name" m) [
    | none ↦ none
    | some name ↦ elim (shown host "state" m) [
      | none ↦ none
      | some state ↦
          let (coloured, q) = who name p in
          let done = if truthy (Dict.get "finished" m) then codes " done" else [] in
          elim (roster_peers host vs q) [
            | none ↦ none
            | some (more, r) ↦ some ((coloured ++ codes ":" ++ codes state ++ done) ∷ more, r)
          ]
    ]
  ]
]

-- `", ".join(…)`
unfoldable pub with_commas : List (List ℕ) → List ℕ
with_commas [] = []
with_commas (a ∷ []) = a
with_commas (a ∷ b ∷ rest) = a ++ codes ", " ++ with_commas (b ∷ rest)

unfoldable pub roster_row : Place → Host → Dict Json → Pretty → Option (List ℕ × Pretty)
unfolding roster_peers with_commas items
roster_row w host frame p = elim (items frame "peers") [
  | none ↦ none
  | some vs ↦ elim (roster_peers host vs p) [
    | none ↦ none
    | some (peers, q) ↦ elim (shown host "round" frame) [
      | none ↦ none
      | some round ↦
          let goal = str_or_empty (Dict.get "goal" frame) in
          let flags =
            (if truthy (Dict.get "frozen" frame) then codes " frozen" else [])
            ++ (if truthy (Dict.get "muted" frame) then codes " muted" else []) in
          let tail = if goal == "" then [] else codes "  goal: " ++ codes goal in
          some (
            dim p w.now
                ++ codes " roster r"
                ++ codes round
                ++ flags
                ++ codes "  "
                ++ with_commas peers
                ++ tail,
            q,
          )
    ]
  ]
]

unfoldable pub lines : Place → Host → Dict Json → Pretty → Option (List (List ℕ) × Pretty)
unfolding deliver_lines event_line err_line roster_row
lines w host frame p =
    let t = str_or_empty (Dict.get "t" frame) in
    if t == "deliver"
    then deliver_lines w host frame p
    else if t == "event"
    then elim (event_line w host frame p) [ none ↦ none | some line ↦ some (line ∷ [], p) ]
    else if t == "err"
    then some (err_line w host frame p ∷ [], p)
    else if t == "roster"
    then elim (roster_row w host frame p) [ none ↦ none | some (line, q) ↦ some (line ∷ [], q) ]
    else some ([], p)
