-- ===== src/Core/Hub/Hello.antt =====
-- core/hub.py, the section `hello`: registration, reclaim and late join. `handle` reads no result
-- of it. Where a constructor raises ValueError the hub is left as it is at that point, and the read
-- loop drops the connection.
pub mod Request
pub mod Backlog
use moot.Common.{
  ℕ, ◌+◌, ◌*◌, ◌/◌, String, ◌<>◌, numeral, Bool, true, false, not, ◌&&◌, ◌||◌, Option, none, some,
  List, [], ◌∷◌, map, ◌==◌, keep, is_empty, length, if◌then◌else◌,
}
use moot.Common.Dict
use moot.Common.Dict.{Dict}
use moot.Common.Int.{pos}
use moot.Core.Types.{Msg, tag, overheard, idle}
use moot.Core.Buffer
use moot.Core.Bucket
use moot.Core.Proto.{malformed, name_taken}
use moot.Core.Proto.Json.{Json, truthy, elements}
use moot.Core.Proto.Suggest.{suggest_name}
use moot.Core.Frame.{Frame, Peer, Record}
use moot.Core.Hub.State.{
  Host, Hub, Participant, is_observer, live, on, at_client, is_connected, roll,
}
use moot.Core.Hub.Util.{discard, send, err_raw, append_record, emit_event, touch_activity}
use moot.Core.Hub.Delivery.{deliver, flush_queue}
use moot.Core.Hub.Lifecycle.{disconnect, close_client}
use moot.Core.Hub.Route.{addressing, last_n}
use moot.Core.Hub.Say.{text_field}
use moot.Core.Hub.Hello.Backlog.{
  id_value, ts_value, text_or, msg_from_record, is_text, backlog, append_all, late_join,
}
use moot.Core.Hub.Hello.Request.{Hello, str_value, role_field, caps_field, room_field, hello_of}

-- the previous holder of the name, if its transport has gone
unfoldable pub reap : String → Hub → Hub
reap name h = elim (Dict.get name h.participants) [
  | none ↦ h
  | some old ↦ if is_connected h old then h else disconnect old.client h
]

unfoldable pub declare_room : Hello → Hub → Hub
declare_room r h = elim r.room [
  | none ↦ h
  | some room ↦
      append_record
        (Record.event "room_declared" h.clock.wall
          (("room", Json.str room) ∷ ("name", Json.str r.name) ∷ []))
        h
]

-- Fuel for the search: one more than the names that are taken.
unfoldable pub suggestion : String → Hub → Option String
suggestion name h =
    suggest_name (length h.participants + length h.dead + 1) name
      (λ n. not (Dict.has n h.participants) && not (Dict.has n h.dead))

unfoldable pub refuse_taken : ℕ → String → Hub → Hub
unfolding suggestion
refuse_taken c name h = elim (suggestion name h) [
  | none ↦ h
  | some free ↦ close_client c (err_raw c name_taken free none h)
]

unfoldable pub reclaimed : ℕ → Hello → Hub → Participant → Participant
reclaimed c r h p = record p {
  client = c;
  kind = r.kind;
  role = r.role;
  caps = r.caps;
  state = idle;
  last_rx = h.clock.monotonic;
  awaiting_pong = false;
  finished = false;
  blocked_since = none;
  blocked_detail = none;
}

unfoldable pub new_participant : ℕ → Hello → Hub → Option Participant
new_participant c r h = elim (Buffer.create h.config.context_cap) [
  | none ↦ none
  | some context ↦
      elim (Bucket.create h.clock.monotonic h.config.rate_burst h.config.rate_messages
        h.config.rate_window) [
          | none ↦ none
          | some bucket ↦ some (record {
            name = r.name;
            kind = r.kind;
            role = r.role;
            caps = r.caps;
            client = c;
            context = context;
            bucket = bucket;
            dedup = record { window = h.config.dedup_window; seen_at = [] };
            state = idle;
            queue = [];
            queue_dropped = 0;
            finished = false;
            last_rx = h.clock.monotonic;
            busy_since = 0;
            last_say = 0;
            blocked_since = none;
            blocked_detail = none;
            awaiting_pong = false;
            pong_deadline = 0;
          })
        ]
]

unfoldable pub peer : Participant → Peer
peer q = record { name = q.name; kind = q.kind; role = q.role; state = q.state }

abbrev pub goal_field : Hub → Option String
goal_field h = if h.goal == "" then none else some h.goal

unfoldable pub welcome : Participant → Hub → Hub
unfolding peer
welcome p h =
    send p
      (Frame.welcome (record {
        name = p.name;
        round = h.round;
        peers = map peer (keep (λ q. not (q.name == p.name)) (roll h));
        rate =
            numeral h.config.rate_messages <> "/" <> numeral (h.config.rate_window / 1000) <> "s";
        max_rounds = h.max_rounds;
        goal = goal_field h;
      }))
      h

-- from `self.participants[name] = p` on
unfoldable pub admit : ℕ → Bool → Participant → Hub → Hub
unfolding welcome late_join
admit c rejoined p h =
    let listed =
      at_client c (λ s. record s { name = p.name })
        (record h { participants = Dict.put p.name p h.participants }) in
    let welcomed = welcome p listed in
    let caught_up = if not rejoined || is_observer p then late_join p welcomed else welcomed in
    let told =
      emit_event "peer_joined" (some p.name)
        (("name", Json.str p.name) ∷ ("kind", Json.str p.kind) ∷ ("role", Json.str p.role) ∷ [])
        (touch_activity caught_up) in
    if rejoined && not (is_empty (live told p).queue) then flush_queue p told else told

unfoldable pub register : ℕ → Hello → Hub → Hub
unfolding reclaimed new_participant admit
register c r h = elim (Dict.get r.name h.dead) [
  | some p ↦ admit c true (reclaimed c r h p) (record h {
    dead = Dict.delete r.name h.dead;
    blocked_notified = discard r.name h.blocked_notified;
  })
  | none ↦ elim (new_participant c r h) [ none ↦ h | some p ↦ admit c false p h ]
]

unfoldable pub join_hub : ℕ → Hello → Hub → Hub
unfolding refuse_taken register declare_room
join_hub c r h =
    let declared = declare_room r h in
    if Dict.has r.name declared.participants
    then refuse_taken c r.name declared
    else register c r declared

unfoldable pub handle_hello : ℕ → Dict Json → Hub → Hub
unfolding hello_of reap join_hub
handle_hello c frame h =
    let r = hello_of h.host frame in
    if (h.connections c).name == ""
    then join_hub c r (reap r.name h)
    else err_raw c malformed ("already registered as " <> h.host.repr (h.connections c).name) none h
