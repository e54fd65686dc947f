-- ===== src/Spoke/Conn/Tests.antt =====
-- A connection at concrete inputs.
use Prim.Native.String.{String}
use moot.Common.{◌≡◌, ◌↔◌, refl, true, false, Option, none, some, [], ◌∷◌, map, ◌==◌, if◌then◌else◌}
use moot.Common.Dict
use moot.Core.Hub.State.{Host}
use moot.Core.Hub.Hello.Request.{hello_of}
use moot.Core.Hub.Hello.Backlog.{is_text}
use moot.Core.Proto.Json.{Json, Fields, field, end, entries}
use moot.Core.Proto.Validate.{ok, validate_hello}
use moot.Spoke.Conn.{Conn, hello_frame, frames, connected, connect}
use moot.Spoke.Conn.Laws.{IsAllowed, hello_frame-hello_of, connect-frames}

abbrev host : Host
host = record {
  sha256_hex = λ s. s;
  repr = λ s. s;
  repr_value = λ v. "value";
  str_of = λ v. "value";
  split = λ s. s ∷ [];
  casefold = λ s. s;
  strip = λ s. s;
  time_of_day = λ t. "12:00:00";
}

hello_frame-hello_of_example :
    ((validate_hello host (hello_frame "alpha" "claude" "" ("idle-events" ∷ [])) ≡ ok tt)
      ↔ IsAllowed host "alpha" "claude" "")
    × (hello_of host (hello_frame "alpha" "claude" "" ("idle-events" ∷ [])) ≡ record {
      name = "alpha";
      kind = "claude";
      role = "";
      caps = "idle-events" ∷ [];
      room = none;
    })
hello_frame-hello_of_example = hello_frame-hello_of host "alpha" "claude" "" ("idle-events" ∷ [])

abbrev welcome : Fields
welcome = field "t" (Json.str "welcome") end

abbrev ping : Fields
ping = field "t" (Json.str "ping") end

-- two kinds of frames, by their types
abbrev dumps : Json → String
dumps v = elim v [ Json.obj (field k (Json.str t) fs) ↦ t | _ ↦ "null" ]

abbrev loads : String → Option Json
loads line =
    if line == "welcome"
    then some (Json.obj welcome)
    else if line == "ping"
    then some (Json.obj ping)
    else none

connect-frames_example :
    (c : Conn) × (connect host loads (some ("welcome" ∷ "ping" ∷ [])) "alpha" "claude" "" []
      ≡ connected c (entries welcome))
    × (c.sent ≡ hello_frame "alpha" "claude" "" [] ∷ [])
    × (c.closed ≡ false)
    × (frames loads c.inbound ≡ (map entries (ping ∷ []), true))
unfolding is_text entries Dict.get
connect-frames_example =
    connect-frames loads dumps host "alpha" "claude" "" [] welcome (ping ∷ []) refl
      (refl, (refl, tt))
