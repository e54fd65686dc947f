-- ===== src/Spoke/Conn.antt =====
-- spoke/conn.py: the client side of the wire. The other side of a connection is the lines that
-- still come, behind which it is closed; it takes what is sent.
pub mod Laws
mod Tests
use Prim.Native.String.{String}
use moot.Common.{◌<>◌, Bool, true, false, Option, none, some, List, [], ◌∷◌, ◌++◌, if◌then◌else◌}
use moot.Common.Dict
use moot.Common.Dict.{Dict}
use moot.Common.Int.{pos}
use moot.Core.Hub.State.{Host}
use moot.Core.Hub.Hello.Request.{str_value}
use moot.Core.Hub.Hello.Backlog.{is_text}
use moot.Core.Proto.Json.{Json, Items, Fields, nil, cons, entries}

pub record Conn : Type 0 where
  pub inbound : List String
  pub sent : List (Dict Json)
  pub closed : Bool

unfoldable pub send : Dict Json → Conn → Conn
send frame c = record c { sent = c.sent ++ frame ∷ [] }

unfoldable pub close : Conn → Conn
close c = record c { closed = true }

-- `raised` is an exception: a line that is no JSON, or no object.
pub data Received : Type 0 where
  frame : Fields → Received
  eof : Received
  raised : Received

unfoldable pub read_line : (String → Option Json) → String → Received
read_line loads line = elim (loads line) [ some (Json.obj fs) ↦ frame fs | _ ↦ raised ]

unfoldable pub recv : (String → Option Json) → Conn → Received × Conn
unfolding read_line
recv loads c = elim c.inbound [
  | [] ↦ (eof, c)
  | line ∷ rest ↦ (read_line loads line, record c { inbound = rest })
]

-- what `frames` yields, and whether the end was that of the connection
unfoldable pub frames : (String → Option Json) → List String → List (Dict Json) × Bool
unfolding read_line
frames loads [] = ([], true)
frames loads (line ∷ lines) =
    let (later, clean) = frames loads lines in
    elim (read_line loads line) [
      | frame fs ↦ (entries fs ∷ later, clean)
      | eof ↦ ([], true)
      | raised ↦ ([], false)
    ]

unfoldable pub texts : List String → Items
texts [] = nil
texts (s ∷ ss) = cons (Json.str s) (texts ss)

unfoldable pub hello_frame : String → String → String → List String → Dict Json
unfolding texts
hello_frame name kind role caps =
    ("t", Json.str "hello")
    ∷ ("proto", Json.int (pos 1))
    ∷ ("name", Json.str name)
    ∷ ("kind", Json.str kind)
    ∷ ("role", Json.str role)
    ∷ ("caps", Json.arr (texts caps))
    ∷ []

-- The OSError of the connect, an exception of the first `recv`, a HubError with its code and
-- detail, or a connection with its welcome.
pub data Handshake : Type 0 where
  unreachable : Handshake
  failed : Conn → Handshake
  hub_error : String → String → Conn → Handshake
  connected : Conn → Dict Json → Handshake

-- `str(frame.get(key))`
unfoldable pub str_get : Host → String → Dict Json → String
str_get host key f = elim (Dict.get key f) [ none ↦ "None" | some v ↦ str_value host v ]

unfoldable pub on_welcome : Host → Fields → Conn → Handshake
unfolding str_get close
on_welcome host fs c =
    if is_text "t" "err" (entries fs)
    then hub_error (str_get host "code" (entries fs)) (str_get host "detail" (entries fs)) (close c)
    else if is_text "t" "welcome" (entries fs)
    then connected c (entries fs)
    else hub_error "malformed" ("expected welcome, got " <> host.repr_value (Json.obj fs)) (close c)

-- `answers` are the lines that a hub at this home sends, if there is one.
unfoldable pub connect :
    Host
    → (String → Option Json)
    → Option (List String)
    → String
    → String
    → String
    → List String
    → Handshake
unfolding recv send close on_welcome hello_frame
connect host loads answers name kind role caps = elim answers [
  | none ↦ unreachable
  | some lines ↦
      let c =
        send (hello_frame name kind role caps)
          (record { inbound = lines; sent = []; closed = false }) in
      let (received, d) = recv loads c in
      elim received [
        | eof ↦ hub_error "closed" "hub closed the connection during hello" (close d)
        | raised ↦ failed d
        | frame fs ↦ on_welcome host fs d
      ]
]
