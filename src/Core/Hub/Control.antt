-- ===== src/Core/Hub/Control.antt =====
-- core/hub.py, the sections `state`, `cmd` and `roster`.
use moot.Common.{
  ℕ, ◌+◌, ◌-◌, max, String, ◌<>◌, Bool, true, false, not, ◌||◌, Option, none, some, List, [], ◌∷◌,
  map, ◌==◌, leb, length, if◌then◌else◌,
}
use moot.Common.Dict
use moot.Common.Dict.{Dict}
use moot.Common.Int.{ℤ, pos}
use moot.Core.Types.{State, Msg, idle, busy, blocked, overheard, tag, is_idle, is_blocked}
use moot.Core.Buffer
use moot.Core.Proto.{system_sender, forbidden}
use moot.Core.Proto.Json.{Json, entries}
use moot.Core.Frame.{Frame, RosterPeer}
use moot.Core.Hub.State.{Hub, Participant, is_observer, live, on, roll}
use moot.Core.Hub.Util.{
  sorted, add, discard, round_div, idle_for, send, err, emit_event, number, touch_activity,
}
use moot.Core.Hub.Delivery.{flush_queue, system_message}
use moot.Core.Hub.Say.{text_field}
use moot.Core.Hub.Hello.{peer, goal_field}

-- the validation makes sure that it is one of the three
unfoldable pub state_of : String → State
state_of s = if s == "idle" then idle else if s == "busy" then busy else blocked

unfoldable pub opt_text : String → Dict Json → Option String
opt_text key frame = elim (Dict.get key frame) [ some (Json.str s) ↦ some s | _ ↦ none ]

unfoldable pub same_detail : Option String → Option String → Bool
same_detail none none = true
same_detail (some s) (some t) = s == t
same_detail _ _ = false

-- A new block, or a new detail, starts the timer; a heartbeat does not.
unfoldable pub report_blocked : Participant → State → Option String → Hub → Hub
unfolding same_detail
report_blocked p prev detail h =
    if not (is_blocked prev) || not (same_detail (live h p).blocked_detail detail)
    then record (on p.name
        (λ q. record q { blocked_since = some h.clock.monotonic; blocked_detail = detail }) h) {
          blocked_notified = discard p.name h.blocked_notified;
        }
    else h

unfoldable pub clear_blocked : Participant → Hub → Hub
clear_blocked p h = on p.name (λ q. record q { blocked_since = none; blocked_detail = none }) h

unfoldable pub after_report : Participant → State → State → Option String → Hub → Hub
unfolding report_blocked clear_blocked
after_report p prev blocked detail h = report_blocked p prev detail h
after_report p prev idle detail h = flush_queue p (clear_blocked p h)
after_report p prev busy detail h = clear_blocked p h

unfoldable pub set_state : Participant → State → Hub → Hub
set_state p s h =
    on p.name
      (λ q. record q {
        state = s;
        busy_since = if is_idle s then q.busy_since else h.clock.monotonic;
      })
      h

unfoldable pub handle_state : Participant → Dict Json → Hub → Hub
unfolding state_of opt_text after_report set_state
handle_state p frame h =
    let s = state_of (text_field h.host "state" frame) in
    after_report p (live h p).state s (opt_text "detail" frame) (set_state p s h)

-- `proto.opt_seq`
unfoldable pub opt_seq : Dict Json → Option ℤ
opt_seq frame = elim (Dict.get "seq" frame) [ some (Json.int n) ↦ some n | _ ↦ none ]

unfoldable pub args_of : Dict Json → Dict Json
args_of frame = elim (Dict.get "args" frame) [ some (Json.obj fs) ↦ entries fs | _ ↦ [] ]

unfoldable pub freeze : Hub → Hub
freeze h = emit_event "frozen" none (("round", number h.round) ∷ []) (record h { frozen = true })

-- A number of rounds adds to the budget; without one, a hub at its limit gets a fresh budget.
unfoldable pub resumed_limit : Option Json → Hub → ℕ
resumed_limit (some (Json.int (pos n))) h = max h.max_rounds h.round + n
resumed_limit _ h =
    if leb h.max_rounds h.round then h.round + h.config.initial_max_rounds else h.max_rounds

unfoldable pub resume : Dict Json → Hub → Hub
unfolding resumed_limit
resume args h =
    let limit = resumed_limit (Dict.get "n" args) h in
    emit_event "resumed" none (("round", number h.round) ∷ ("max_rounds", number limit) ∷ [])
      (record h { max_rounds = limit; frozen = false })

unfoldable pub reset : Hub → Hub
reset h =
    emit_event "reset" none
      (("round", number 0)
        ∷ ("from_round", number h.round)
        ∷ ("max_rounds", number h.max_rounds)
        ∷ [])
      (record h { round = 0; frozen = false })

unfoldable pub mute : Hub → Hub
mute h =
    system_message "moot: mute mode active — say to other agents is rejected (err: muted)"
      (emit_event "muted" none [] (record h { muted = true }))

unfoldable pub unmute : Hub → Hub
unmute h =
    system_message "moot: mute mode lifted — agent→agent allowed again"
      (emit_event "unmuted" none [] (record h { muted = false }))

unfoldable pub goal_line : String → ℕ → Msg
goal_line text ts = record {
  id = 0;
  sender = system_sender;
  to = "*";
  kind = "note";
  text = "moot goal: " <> text;
  ts = ts;
  addressing = none;
  seq = none;
  private = false;
}

unfoldable pub buffer_goal : String → Hub → Hub
unfolding goal_line
buffer_goal text h =
    let line = tag (goal_line text h.clock.wall) overheard in
    record h {
      participants =
          Dict.map_values
            (λ q. if is_observer q then q else record q { context = Buffer.append q.context line })
            h.participants;
    }

-- the durable copy: `write_goal` writes the text and a line feed
unfoldable pub write_goal : String → Hub → Hub
write_goal text h = record h { goal_file = some (text <> "\n") }

unfoldable pub set_goal : String → Hub → Hub
unfolding buffer_goal write_goal
set_goal text h = write_goal text (
    buffer_goal text
      (emit_event "goal_set" none (("text", Json.str text) ∷ []) (record h { goal = text })))

unfoldable pub run_cmd : String → Dict Json → Hub → Hub
unfolding freeze resume reset mute unmute set_goal
run_cmd cmd args h =
    if cmd == "freeze"
    then freeze h
    else if cmd == "resume"
    then resume args h
    else if cmd == "reset"
    then reset h
    else if cmd == "mute"
    then mute h
    else if cmd == "goal"
    then set_goal (text_field h.host "text" args) h
    else if cmd == "unmute"
    then unmute h
    else h

unfoldable pub handle_cmd : Participant → Dict Json → Hub → Hub
unfolding opt_seq args_of run_cmd
handle_cmd p frame h =
    if is_observer p
    then send p (Frame.ok_cmd (opt_seq frame))
        (touch_activity (run_cmd (text_field h.host "cmd" frame) (args_of frame) h))
    else err p forbidden "cmd is observer-only" (opt_seq frame) none h

-- in tenths of a second; 0 for a participant that is idle
unfoldable pub busy_for : Hub → Participant → ℕ
busy_for h q = if is_idle q.state then 0 else round_div (h.clock.monotonic - q.busy_since) 100

unfoldable pub senders : List Msg → List String
senders [] = []
senders (m ∷ ms) = add m.sender (senders ms)

unfoldable pub roster_peer : Hub → Participant → RosterPeer
unfolding busy_for senders
roster_peer h q = record {
  peer = peer q;
  idle_for = round_div (idle_for h q) 100;
  busy_for = busy_for h q;
  finished = q.finished;
  queued = length q.queue;
  queued_from = sorted (senders q.queue);
  dropped = q.queue_dropped;
  context = length q.context.items;
  blocked_detail = q.blocked_detail;
}

unfoldable pub handle_roster : Participant → Dict Json → Hub → Hub
unfolding roster_peer opt_seq
handle_roster p frame h =
    send p
      (Frame.roster (record {
        round = h.round;
        max_rounds = h.max_rounds;
        frozen = h.frozen;
        muted = h.muted;
        seq = opt_seq frame;
        goal = goal_field h;
        peers = map (roster_peer h) (roll h);
      }))
      h
