-- ===== src/Core/Hub/Hello/Request.antt =====
-- core/hub.py: what a hello frame asks for.
use moot.Common.{String, Option, none, some, List, [], map, if◌then◌else◌}
use moot.Common.Dict
use moot.Common.Dict.{Dict}
use moot.Core.Proto.Json.{Json, truthy, elements}
use moot.Core.Hub.State.{Host}
use moot.Core.Hub.Say.{text_field}

-- What a hello frame asks for.
pub record Hello : Type 0 where
  pub name : String
  pub kind : String
  pub role : String
  pub caps : List String
  pub room : Option String

unfoldable pub str_value : Host → Json → String
str_value host (Json.str s) = s
str_value host v = host.str_of v

-- `str(frame.get("role") or "")`
unfoldable pub role_field : Host → Dict Json → String
role_field host frame = if truthy (Dict.get "role" frame) then text_field host "role" frame else ""

unfoldable pub caps_field : Host → Dict Json → List String
unfolding str_value
caps_field host frame = elim (Dict.get "caps" frame) [
  | some (Json.arr vs) ↦ map (str_value host) (elements vs)
  | _ ↦ []
]

unfoldable pub room_field : Dict Json → Option String
room_field frame = elim (Dict.get "room" frame) [ some (Json.str s) ↦ some s | _ ↦ none ]

unfoldable pub hello_of : Host → Dict Json → Hello
unfolding role_field caps_field room_field
hello_of host frame = record {
  name = text_field host "name" frame;
  kind = text_field host "kind" frame;
  role = role_field host frame;
  caps = caps_field host frame;
  room = room_field frame;
}
