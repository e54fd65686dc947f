-- ===== src/Spoke/Render.antt =====
-- spoke/render.py: the lines of a frame, as text for a model. An exception, for a field that is not
-- there or has the wrong type, is `none`.
use moot.Common.{
  ℕ, String, ◌<>◌, numeral, join, Bool, true, false, not, ◌||◌, Option, none, some, List, [], ◌∷◌,
  ◌==◌, eqb, keep, is_empty, map, if◌then◌else◌,
}
use moot.Common.Dict
use moot.Common.Dict.{Dict}
use moot.Common.Int.{pos}
use moot.Core.Proto.Json.{Json, entries, elements}
use moot.Core.Hub.State.{Host}
use moot.Core.Hub.Hello.Request.{str_value}
use moot.Core.Hub.Hello.Backlog.{is_text}

infixl 5 ◌>>=◌
abbrev ◌>>=◌ {ℓ κ} : {A : Type ℓ} {B : Type κ} → Option A → (A → Option B) → Option B
none >>= f = none
some a >>= f = f a

-- `frame[key]`, formatted
unfoldable pub shown : Host → String → Dict Json → Option String
unfolding str_value
shown host key d = elim (Dict.get key d) [ none ↦ none | some v ↦ some (str_value host v) ]

unfoldable pub object : Json → Option (Dict Json)
object (Json.obj fs) = some (entries fs)
object _ = none

unfoldable pub items : Dict Json → String → Option (List Json)
items frame key = elim (Dict.get key frame) [ some (Json.arr vs) ↦ some (elements vs) | _ ↦ none ]

-- what the function makes of every element, if it makes something of all
unfoldable pub each {ℓ} : {A : Type ℓ} → (A → Option String) → List A → Option (List String)
each f [] = some []
each f (x ∷ xs) = do line ← f x; lines ← each f xs; some (line ∷ lines)

unfoldable pub int_id : Option Json → ℕ
int_id (some (Json.int (pos n))) = n
int_id _ = 0

unfoldable pub message_head : Option String → ℕ → String
message_head round msg_id =
    let label : String = elim round [ none ↦ "context" | some r ↦ "r" <> r ] in
    if eqb msg_id 0 then "[" <> label <> "]" else "[" <> label <> " #" <> numeral msg_id <> "]"

unfoldable pub message_line : Option String → ℕ → String → String → String → String → Bool → String
unfolding message_head
message_line round msg_id sender to kind text private =
    message_head round msg_id
    <> " "
    <> sender
    <> " → "
    <> to
    <> (if private then " · private" else "")
    <> " · "
    <> kind
    <> ": "
    <> text

-- `None if overheard else frame["round"]`; a round that is null reads like None
unfoldable pub round_of : Host → Bool → Dict Json → Option (Option String)
unfolding str_value
round_of host true frame = some none
round_of host false frame = elim (Dict.get "round" frame) [
  | none ↦ none
  | some Json.null ↦ some none
  | some v ↦ some (some (str_value host v))
]

unfoldable pub is_true : Option Json → Bool
is_true (some (Json.bool b)) = b
is_true _ = false

unfoldable pub deliver_line : Host → Dict Json → Json → Option String
unfolding object shown int_id message_line round_of is_true is_text
deliver_line host frame v = do
  m ← object v
  addressing ← Dict.get "addressing" m
  round ← round_of host (is_text "addressing" "overheard" m) frame
  sender ← shown host "from" m
  to ← shown host "to" m
  kind ← shown host "kind" m
  text ← shown host "text" m
  some (
      message_line round (int_id (Dict.get "id" m)) sender to kind text
        (is_true (Dict.get "private" m)))

unfoldable pub deliver : Host → Dict Json → Option (List String)
unfolding items each deliver_line
deliver host frame = do msgs ← items frame "msgs"; each (deliver_line host frame) msgs

-- `", {role}"`, where the role is shown
unfoldable pub role_part : Dict Json → String
unfolding is_text
role_part p = elim (Dict.get "role" p) [
  | some (Json.str role) ↦ if is_text "kind" "observer" p || (role == "") then "" else ", " <> role
  | _ ↦ ""
]

unfoldable pub peer_text : Host → Json → Option String
unfolding object shown role_part
peer_text host v = do
  p ← object v
  name ← shown host "name" p
  kind ← shown host "kind" p
  state ← shown host "state" p
  some (name <> " (" <> kind <> role_part p <> ", " <> state <> ")")

unfoldable pub peers : Host → Dict Json → Option String
unfolding items each peer_text
peers host frame = do
  vs ← items frame "peers"
  texts ← each (peer_text host) vs
  some (if is_empty texts then "none" else join ", " texts)

unfoldable pub limit_of : Host → Dict Json → String
unfolding str_value
limit_of host frame = elim (Dict.get "limits" frame) [
  | some (Json.obj fs) ↦ elim (Dict.get "max_rounds" (entries fs)) [
    | none ↦ ""
    | some Json.null ↦ ""
    | some v ↦ "/" <> str_value host v
  ]
  | _ ↦ ""
]

unfoldable pub rounds : Host → Dict Json → Option String
unfolding shown limit_of
rounds host frame = do round ← shown host "round" frame; some (round <> limit_of host frame)

unfoldable pub kind_part : Dict Json → String
kind_part frame = elim (Dict.get "kind" frame) [ some (Json.str k) ↦ " (" <> k <> ")" | _ ↦ "" ]

unfoldable pub welcome : Host → Dict Json → Option String
unfolding shown kind_part peers rounds
welcome host frame = do
  name ← shown host "name" frame
  others ← peers host frame
  round ← rounds host frame
  some (
      "[moot] joined as "
      <> name
      <> kind_part frame
      <> " · peers: "
      <> others
      <> " · round "
      <> round)

unfoldable pub rejoined_line : Host → Dict Json → Option String
unfolding shown peers rounds
rejoined_line host frame = do
  name ← shown host "name" frame
  round ← rounds host frame
  others ← peers host frame
  some ("[moot] rejoined as " <> name <> " · round " <> round <> " · peers: " <> others)

unfoldable pub event : Host → Dict Json → Option (List String)
unfolding shown str_value
event host frame = do
  name ← shown host "event" frame
  let rest = join " " (
      map (λ e. e.0 <> "=" <> str_value host e.1)
        (keep (λ e. not ((e.0 == "t") || (e.0 == "event"))) frame))
  some ((if rest == "" then "[event] " <> name else "[event] " <> name <> " · " <> rest) ∷ [])

unfoldable pub err : Host → Dict Json → Option (List String)
unfolding shown str_value
err host frame = do
  code ← shown host "code" frame
  let detail : String = elim (Dict.get "detail" frame) [ none ↦ "None" | some v ↦ str_value host v ]
  let line = "[err] " <> code <> " · " <> detail
  some (elim (Dict.get "retry_after" frame) [
    | none ↦ line ∷ []
    | some Json.null ↦ line ∷ []
    | some v ↦ (line <> " · retry in " <> str_value host v <> "s") ∷ []
  ])

unfoldable pub roster_line : Host → Json → Option String
unfolding object shown
roster_line host v = do
  p ← object v
  name ← shown host "name" p
  kind ← shown host "kind" p
  state ← shown host "state" p
  some ("[roster] " <> name <> " (" <> kind <> ", " <> state <> ")")

unfoldable pub render : Host → Dict Json → Option (List String)
unfolding deliver event err items each roster_line welcome is_text
render host frame =
    if is_text "t" "deliver" frame
    then deliver host frame
    else if is_text "t" "event" frame
    then event host frame
    else if is_text "t" "err" frame
    then err host frame
    else if is_text "t" "ok" frame
    then some []
    else if is_text "t" "roster" frame
    then (do vs ← items frame "peers"; each (roster_line host) vs)
    else if is_text "t" "welcome" frame
    then (do line ← welcome host frame; some (line ∷ []))
    else some []
