-- ===== src/Spoke/Observer/Status.antt =====
-- spoke/observer.py: the floor in one row. `none` is an exception; times in thousandths. The hub sends
-- no negative count, and a list of names in queued_from.
use Prim.Native.String.{String}
use moot.Common.{
  ℕ, suc, ◌-◌, ◌/◌, ◌%◌, codes, numeral, true, false, not, ◌&&◌, Option, none, some, List, [], ◌∷◌,
  ◌++◌, ◌==◌, ltb, join, if◌then◌else◌,
}
use moot.Common.Dict
use moot.Common.Dict.{Dict}
use moot.Common.Int.{pos}
use moot.Core.Hub.State.{Host}
use moot.Core.Hub.Hello.Request.{str_value}
use moot.Core.Hub.Hello.Backlog.{is_text}
use moot.Core.Proto.Json.{Json, elements, truthy}
use moot.Spoke.Render.{items, object, shown}
use moot.Spoke.Terminal.{Unicode}
use moot.Spoke.Terminal.Width.{clip_cells}
use moot.Spoke.Observer.Seat.{str_or_empty}
use moot.Spoke.Observer.Pretty.{dot}

-- whole seconds
unfoldable pub dur : ℕ → List ℕ
dur total =
    let rest = total % 60 in
    if ltb total 60
    then codes (numeral total) ++ codes "s"
    else codes (numeral (total / 60))
      ++ codes "m"
      ++ (if ltb rest 10 then codes "0" else [])
      ++ codes (numeral rest)
      ++ codes "s"

unfoldable pub shown_state : Unicode → Host → Dict Json → Option (List ℕ)
shown_state u host p = elim (shown host "state" p) [
  | none ↦ none
  | some state ↦
      let detail = str_or_empty (Dict.get "blocked_detail" p) in
      some (
        if (state == "blocked") && not (detail == "")
        then codes "blocked(" ++ clip_cells u (codes detail) 20 ++ codes ")"
        else codes state)
]

-- `busy_for` of a peer that is not idle, where it is positive
unfoldable pub busy_part : Dict Json → List ℕ
unfolding dur
busy_part p = if is_text "state" "idle" p then [] else elim (Dict.get "busy_for" p) [
  | some (Json.int (pos (suc n))) ↦ codes " " ++ dur (suc n)
  | some (Json.float (suc n)) ↦ codes " " ++ dur (suc n / 1000)
  | some (Json.bool true) ↦ codes " 1s"
  | _ ↦ []
]

unfoldable pub name_list : Host → Option Json → List String
unfolding str_value
name_list host (some (Json.arr vs)) = names (elements vs)
  where
    names : List Json → List String
    names [] = []
    names (v ∷ rest) = str_value host v ∷ names rest
name_list host _ = []

unfoldable pub queued_part : Host → Dict Json → List ℕ
unfolding name_list
queued_part host p = elim (Dict.get "queued" p) [
  | some (Json.int (pos (suc n))) ↦
      codes " "
      ++ codes (numeral (suc n))
      ++ codes "q("
      ++ codes (join "," (name_list host (Dict.get "queued_from" p)))
      ++ codes ")"
  | _ ↦ []
]

unfoldable pub context_part : Dict Json → List ℕ
context_part p = elim (Dict.get "context" p) [
  | some (Json.int (pos (suc n))) ↦ codes " " ++ codes (numeral (suc n)) ++ codes "c"
  | _ ↦ []
]

unfoldable pub peer_segment : Unicode → Host → Dict Json → Option (List ℕ)
unfolding shown_state busy_part queued_part context_part
peer_segment u host p = elim (shown_state u host p) [
  | none ↦ none
  | some state ↦ elim (shown host "name" p) [
    | none ↦ none
    | some name ↦ some (
        codes name
        ++ codes " "
        ++ state
        ++ busy_part p
        ++ queued_part host p
        ++ context_part p
        ++ (if truthy (Dict.get "finished" p) then codes " done" else []))
  ]
]

-- the peers that are no observers
unfoldable pub segments : Unicode → Host → List Json → Option (List (List ℕ))
unfolding peer_segment
segments u host [] = some []
segments u host (v ∷ vs) = elim (object v) [
  | none ↦ none
  | some p ↦ elim (is_text "kind" "observer" p) [
    | true ↦ segments u host vs
    | false ↦ elim (peer_segment u host p) [
      | none ↦ none
      | some seg ↦ elim (segments u host vs) [ none ↦ none | some rest ↦ some (seg ∷ rest) ]
    ]
  ]
]

-- `" · ".join(segments)`
unfoldable pub dotted : List (List ℕ) → List ℕ
dotted [] = []
dotted (a ∷ []) = a
dotted (a ∷ b ∷ rest) = a ++ dot ++ dotted (b ∷ rest)

unfoldable pub head_part : Host → Dict Json → Option (List ℕ)
unfolding str_value
head_part host roster = elim (shown host "round" roster) [
  | none ↦ none
  | some round ↦ elim (Dict.get "max_rounds" roster) [
    | none ↦ some (codes "r" ++ codes round)
    | some Json.null ↦ some (codes "r" ++ codes round)
    | some v ↦ some (codes "r" ++ codes round ++ codes "/" ++ codes (str_value host v))
  ]
]

unfoldable pub flag_parts : Dict Json → List (List ℕ)
flag_parts roster =
    let goal = str_or_empty (Dict.get "goal" roster) in
    (if truthy (Dict.get "frozen" roster) then codes "frozen" ∷ [] else [])
    ++ (if truthy (Dict.get "muted" roster) then codes "muted" ∷ [] else [])
    ++ (if goal == "" then [] else (codes "goal: " ++ codes goal) ∷ [])

unfoldable pub status_band : Unicode → Host → Dict Json → ℕ → String → Option (List ℕ)
unfolding head_part segments flag_parts dotted
status_band u host roster width me = elim (head_part host roster) [
  | none ↦ none
  | some head ↦ elim (items roster "peers") [
    | none ↦ none
    | some vs ↦ elim (segments u host vs) [
      | none ↦ none
      | some segs ↦
          let own = if me == "" then [] else (codes "@" ++ codes me) ∷ [] in
          some (clip_cells u (dotted (own ++ head ∷ [] ++ segs ++ flag_parts roster)) (width - 2))
    ]
  ]
]
