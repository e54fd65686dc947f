-- ===== src/Core/Hub/Util.antt =====
-- core/hub.py, the section `util`, with `_touch_activity`, `_err_raw` and `_set_idle`.
use moot.Common.{
  ℕ, ◌+◌, ◌-◌, ◌*◌, ◌/◌, ◌%◌, String, join, Bool, true, false, not, ◌&&◌, ◌||◌, Option, none, some,
  List, [], ◌∷◌, ◌++◌, ◌==◌, ltb, eqb, any, if◌then◌else◌,
}
use Prim.Native.Nat.{Ordering}
use Prim.Native.String.{compare, len}
use moot.Common.Dict
use moot.Common.Dict.{Dict}
use moot.Common.Int.{ℤ, pos}
use moot.Core.Types.{idle}
use moot.Core.Proto.{ErrCode, code_text}
use moot.Core.Proto.Json.{Json}
use moot.Core.Frame.{Frame, Record}
use moot.Core.Server
use moot.Core.Hub.State.{Hub, Participant, is_observer, on, at_client, is_connected, roll}

unfoldable pub insert_sorted : String → List String → List String
insert_sorted s [] = s ∷ []
insert_sorted s (t ∷ ts) = elim (compare s t) [
  | Ordering.gt ↦ t ∷ insert_sorted s ts
  | _ ↦ s ∷ t ∷ ts
]

-- `sorted(names)`, by code points
unfoldable pub sorted : List String → List String
unfolding insert_sorted
sorted [] = []
sorted (s ∷ ss) = insert_sorted s (sorted ss)

unfoldable pub member : String → List String → Bool
member s ss = any (λ t. s == t) ss

-- `set.add` and `set.discard`, a set being a list
unfoldable pub add : String → List String → List String
unfolding member
add s ss = if member s ss then ss else s ∷ ss

unfoldable pub discard : String → List String → List String
discard s [] = []
discard s (t ∷ ts) = let rest = discard s ts in if s == t then rest else t ∷ rest

-- `round(n / d)`: to the nearest number, and to the even one from half way
unfoldable pub round_div : ℕ → ℕ → ℕ
round_div n d =
    let q = n / d in
    let r = n % d in if ltb (2 * r) d || (eqb (2 * r) d && eqb (q % 2) 0) then q else q + 1

unfoldable pub next_id : Hub → Hub × ℕ
next_id h = (record h { msg_counter = h.msg_counter + 1 }, h.msg_counter + 1)

unfoldable pub roster_detail : Hub → String
roster_detail h =
    let names = join ", " (sorted (Dict.keys h.participants)) in
    if names == "" then "(empty)" else names

-- milliseconds since the participant's last frame
unfoldable pub idle_for : Hub → Participant → ℕ
idle_for h p = h.clock.monotonic - p.last_rx

unfoldable pub send_client : ℕ → Frame → Hub → Hub
send_client c frame h = at_client c (Server.send h.config.outbound_queue_max frame) h

unfoldable pub send : Participant → Frame → Hub → Hub
unfolding send_client
send p frame h = send_client p.client frame h

unfoldable pub err : Participant → ErrCode → String → Option ℤ → Option ℕ → Hub → Hub
unfolding send
err p code detail seq retry_after h = send p (Frame.err code detail seq retry_after) h

unfoldable pub err_raw : ℕ → ErrCode → String → Option ℤ → Hub → Hub
unfolding send_client
err_raw c code detail seq h = send_client c (Frame.err code detail seq none) h

unfoldable pub append_record : Record → Hub → Hub
append_record r h = record h { transcript = h.transcript ++ r ∷ [] }

-- `skip` is the name of the participant to leave out
unfoldable pub skipped : Option String → Participant → Bool
skipped none p = false
skipped (some name) p = p.name == name

-- the loop of `_emit_event` over the participants
unfoldable pub to_observers : Option String → Frame → List Participant → Hub → Hub
unfolding send
to_observers skip frame [] h = h
to_observers skip frame (p ∷ ps) h =
    to_observers skip frame ps
      (if is_observer p && not (skipped skip p) && is_connected h p then send p frame h else h)

unfoldable pub emit_event : String → Option String → Dict Json → Hub → Hub
unfolding to_observers append_record
emit_event event skip extra h =
    append_record (Record.event event h.clock.wall extra)
      (to_observers skip (Frame.event event extra) (roll h) h)

abbrev pub number : ℕ → Json
number n = Json.int (pos n)

unfoldable pub rejected_extra : Option ℕ → Bool → Dict Json
rejected_extra retry_after private =
    elim retry_after [ none ↦ [] | some t ↦ ("retry_after", Json.float t) ∷ [] ]
    ++ (if private then ("private", Json.bool true) ∷ [] else [])

unfoldable pub emit_rejected :
    Participant → ErrCode → String → String → String → Option ℕ → Bool → Hub → Hub
unfolding emit_event rejected_extra
emit_rejected p code to kind text retry_after private h =
    if is_observer p
    then h
    else emit_event "rejected" none
        (("name", Json.str p.name)
          ∷ ("code", Json.str (code_text code))
          ∷ ("to", Json.str to)
          ∷ ("kind", Json.str kind)
          ∷ ("bytes", number (len text))
          ∷ rejected_extra retry_after private)
        h

unfoldable pub notify : String → String → Hub → Hub
notify title message h =
    if h.config.notifications then record h { notices = h.notices ++ (title, message) ∷ [] } else h

unfoldable pub touch_activity : Hub → Hub
touch_activity h = record h { last_activity = h.clock.monotonic; stall_latched = false }

unfoldable pub set_idle : Participant → Hub → Hub
set_idle p = on p.name λ q. record q { state = idle; blocked_since = none; blocked_detail = none }
