-- ===== src/Core/Hub/Delivery.antt =====
-- core/hub.py, the section `delivery`.
pub mod Slices
use moot.Common.{
  ℕ, ◌+◌, String, ◌<>◌, numeral, false, not, ◌&&◌, ◌||◌, Option, none, some, List, [], ◌∷◌, ◌++◌,
  map, ◌==◌, leb, eqb, any, keep, take, drop, length, is_empty, if◌then◌else◌,
}
use moot.Core.Types.{Msg, to_wire, direct, busy, is_overheard, is_idle}
use moot.Core.Buffer
use moot.Core.Proto.{system_sender}
use moot.Core.Frame.{Frame, Record}
use moot.Core.Hub.State.{Hub, Participant, is_observer, live, on, is_connected, roll}
use moot.Core.Hub.Util.{send, append_record, touch_activity, next_id}
use moot.Core.Hub.Session.{check_round_limit, check_session_done}

-- With cap 0 and an empty queue the source's `del` would raise; a cap is positive.
unfoldable pub enqueue_at : ℕ → Msg → Participant → Participant
enqueue_at cap msg q =
    if leb cap (length q.queue)
    then record q { queue = drop 1 q.queue ++ msg ∷ []; queue_dropped = q.queue_dropped + 1 }
    else record q { queue = q.queue ++ msg ∷ [] }

unfoldable pub enqueue : Participant → Msg → Hub → Hub
unfolding enqueue_at
enqueue p msg h = on p.name (enqueue_at h.config.queue_cap msg) h

-- `sorted(msgs, key=lambda m: m.id)`, which keeps the order of equal ids
unfoldable pub insert_by_id : Msg → List Msg → List Msg
insert_by_id m [] = m ∷ []
insert_by_id m (x ∷ xs) =
    let rest = insert_by_id m xs in if leb m.id x.id then m ∷ x ∷ xs else x ∷ rest

unfoldable pub sort_by_id : List Msg → List Msg
unfolding insert_by_id
sort_by_id [] = []
sort_by_id (m ∷ ms) = insert_by_id m (sort_by_id ms)

abbrev pub ids : List Msg → List ℕ
ids = map λ m. m.id

unfoldable pub set_busy : Participant → Hub → Hub
set_busy p h = on p.name (λ q. record q { state = busy; busy_since = h.clock.monotonic }) h

unfoldable pub deliver : Participant → List Msg → Hub → Hub
unfolding set_busy
deliver p msgs h =
    let sorted = sort_by_id msgs in
    let sent = send p (Frame.deliver h.round (map to_wire sorted)) h in
    let noted =
      append_record
        (Record.deliver p.name sent.round (ids sorted)
          (ids (keep (λ m. is_overheard m.addressing) sorted)) sent.clock.wall)
        sent in
    if is_observer p then noted else touch_activity (set_busy p noted)

-- `wake[-1].id`
unfoldable pub last_id : List Msg → Option ℕ
last_id [] = none
last_id (m ∷ []) = some m.id
last_id (m ∷ n ∷ ms) = last_id (n ∷ ms)

unfoldable pub dropped_notice : Participant → Msg
dropped_notice p = record {
  id = 0;
  sender = system_sender;
  to = p.name;
  kind = "note";
  text = numeral p.queue_dropped <> " addressed messages dropped while you were busy";
  ts = 0;
  addressing = some direct;
  seq = none;
  private = false;
}

-- the queue with the notice of what was dropped in front
unfoldable pub pending : Participant → List Msg
unfolding dropped_notice
pending p = if eqb p.queue_dropped 0 then p.queue else dropped_notice p ∷ p.queue

-- What one flush sends, and the participant after it: the first `cap` wakes, and the context up to
-- the last of them, or all of it if no wake stays behind.
unfoldable pub slice : ℕ → Participant → List Msg × List Msg × Participant
unfolding pending last_id
slice cap p =
    let wake = take cap (pending p) in
    let rest = drop cap (pending p) in
    let upto = if is_empty rest then none else last_id wake in
    let (drained, context) = Buffer.drain p.context upto in
    (wake, drained ++ wake, record p { queue = rest; queue_dropped = 0; context = context })

-- the part of `_flush_queue` after the queue has been cut
unfoldable pub send_slice : Participant → List Msg → List Msg → Hub → Hub
send_slice p wake msgs h = check_session_done (
    if any (λ m. not (m.sender == system_sender)) wake
    then check_round_limit (deliver p msgs (record h { round = h.round + 1 }))
    else deliver p msgs h)

unfoldable pub flush_now : Participant → Hub → Hub
unfolding send_slice
flush_now q h =
    let (wake, msgs, after) = slice h.config.deliver_wake_cap q in
    send_slice q wake msgs (on q.name (λ _. after) h)

-- Nobody reads the source's Boolean result.
unfoldable pub flush_queue : Participant → Hub → Hub
unfolding flush_now
flush_queue p h =
    if is_empty (live h p).queue || not (is_connected h (live h p))
    then h
    else flush_now (live h p) h

unfoldable pub system_note : String → ℕ → ℕ → String → Msg
system_note text id ts to = record {
  id = id;
  sender = system_sender;
  to = to;
  kind = "note";
  text = text;
  ts = ts;
  addressing = some direct;
  seq = none;
  private = false;
}

-- the context up to the message, and the message
unfoldable pub wake_with : Participant → Msg → Hub → Hub
wake_with q msg h =
    let (drained, context) = Buffer.drain q.context (some msg.id) in
    deliver q (drained ++ msg ∷ []) (on q.name (λ r. record r { context = context }) h)

-- an idle agent is woken with its context and the message, a busy one gets it queued
unfoldable pub wake_or_queue : Participant → Msg → Hub → Hub
unfolding enqueue wake_with
wake_or_queue p msg h =
    if is_idle (live h p).state && is_connected h (live h p)
    then wake_with (live h p) msg h
    else enqueue p msg h

unfoldable pub system_message_to : String → List Participant → Hub → Hub
unfolding system_note wake_or_queue next_id
system_message_to text [] h = h
system_message_to text (p ∷ ps) h =
    let (h', id) = next_id h in
    let told = wake_or_queue p (system_note text id h.clock.wall p.name) h' in
    system_message_to text ps (if is_observer p then h else told)

unfoldable pub system_message : String → Hub → Hub
unfolding system_message_to
system_message text h = system_message_to text (roll h) h
