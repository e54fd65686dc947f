-- ===== src/Core/Hub/Say.antt =====
-- core/hub.py, the section `say`: the checks, the acceptance, and what follows it.
use moot.Common.{
  ℕ, ◌+◌, String, ◌<>◌, join, Bool, true, false, not, ◌&&◌, ◌||◌, Option, none, some, List, [], ◌∷◌,
  ◌++◌, map, ◌==◌, keep, is_empty, if◌then◌else◌,
}
use moot.Common.Dict
use moot.Common.Dict.{Dict}
use moot.Common.Int.{ℤ, pos}
use moot.Core.Types.{Msg, is_idle}
use moot.Core.Bucket
use moot.Core.Dedup
use moot.Core.Proto.{ErrCode, unknown_recipient, rate_limited, duplicate, frozen, muted}
use moot.Core.Proto.Json.{Json, truthy}
use moot.Core.Proto.Suggest.{take_chars}
use moot.Core.Frame.{Frame, Record}
use moot.Core.Hub.State.{Host, Hub, Participant, is_observer, live, on, is_connected, roll}
use moot.Core.Hub.Util.{
  member, round_div, next_id, roster_detail, send, err, append_record, emit_rejected, notify,
  touch_activity, set_idle,
}
use moot.Core.Hub.Session.{check_session_done, check_round_limit}
use moot.Core.Hub.Delivery.{flush_queue}
use moot.Core.Hub.Route.{
  Say, Routing, targets_agent, targets_observer, observer_present, last_n, message, msg_record,
  offer_all, deliver_all,
}

-- `str(frame[key])`. The validation makes sure that the key is there.
unfoldable pub text_field : Host → String → Dict Json → String
text_field host key frame = elim (Dict.get key frame) [
  | none ↦ ""
  | some (Json.str s) ↦ s
  | some v ↦ host.str_of v
]

unfoldable pub int_field : String → Dict Json → ℤ
int_field key frame = elim (Dict.get key frame) [ some (Json.int n) ↦ n | _ ↦ pos 0 ]

unfoldable pub say_of : Host → Dict Json → Say
unfolding text_field int_field
say_of host frame = record {
  to = text_field host "to" frame;
  kind = text_field host "kind" frame;
  text = text_field host "text" frame;
  seq = int_field "seq" frame;
  private = truthy (Dict.get "private" frame);
}

-- an err frame to the sender, and the event for the observers
unfoldable pub refuse : Participant → Say → ErrCode → String → Option ℕ → Hub → Hub × Bool
refuse p s code detail retry_after h = (
  emit_rejected p code s.to s.kind s.text retry_after s.private
      (err p code detail (some s.seq) retry_after h),
  false,
)

-- whom an observer's say asks something
unfoldable pub asked : Say → Hub → List String
asked s h =
    if s.to == "*"
    then map (λ q. q.name) (keep (λ q. not (is_observer q) && is_connected h q) (roll h))
    else if targets_agent h s.to
    then s.to ∷ []
    else []

unfoldable pub note_asker : Participant → Say → Hub → Hub
unfolding asked
note_asker p s h =
    if is_observer p
    then (if is_empty (asked s h) then h else record h {
      last_observer_say = some h.clock.monotonic;
      quorum_expected = asked s h;
      quorum_latched = false;
    })
    else record h { session_done_at = none }

unfoldable pub remember : Msg → Hub → Hub
remember m h = record (append_record (Record.msg h.round (msg_record m)) h) {
  recent = last_n h.config.recent_window (h.recent ++ msg_record m ∷ []);
}

-- The round goes up first, so that the observers' frames carry the number of the wake.
unfoldable pub send_out : Routing → Hub
send_out r =
    if is_empty r.woken
    then deliver_all r.observers r.hub
    else check_round_limit
        (deliver_all r.woken (deliver_all r.observers (record r.hub { round = r.hub.round + 1 })))

-- an agent's message to an observer who is away
unfoldable pub notify_absent : Participant → Say → Hub → Hub
notify_absent p s h =
    if not (is_observer p)
      && (targets_observer h s.to && not (observer_present (some s.to) h)
          || (s.to == "*") && (s.kind == "question") && not (observer_present none h))
    then notify "moot"
        (p.name
          <> " → "
          <> s.to
          <> " · "
          <> s.kind
          <> ": "
          <> take_chars 80 (join " " (h.host.split s.text)))
        h
    else h

unfoldable pub route : Participant → Msg → Hub → Routing
route p m h =
    offer_all p.name m (roll h) (record { hub = h; queued = 0; woken = []; observers = [] })

unfoldable pub confirm : Participant → Say → Msg → Routing → Hub
unfolding send_out notify_absent
confirm p s m r =
    touch_activity (notify_absent p s (send p (Frame.ok_say m.id r.queued s.seq) (send_out r)))

unfoldable pub accept : Participant → Say → Hub → Hub
unfolding note_asker remember route confirm next_id
accept p s h =
    let (h', id) = next_id h in
    let m = message p s id h.clock.wall in
    let stamped = on p.name (λ q. record q { last_say = h.clock.monotonic }) h' in
    confirm p s m (route p m (remember m (note_asker p s stamped)))

unfoldable pub check_duplicate : Participant → Say → Hub → Hub × Bool
unfolding refuse accept
check_duplicate p s h =
    let (d, dup) =
      Dedup.seen h.host.sha256_hex h.clock.monotonic (live h p).dedup s.to s.text s.private in
    let h' = on p.name (λ q. record q { dedup = d }) h in
    if dup
    then refuse p s duplicate "identical message within dedup window" none h'
    else (accept p s h', true)

unfoldable pub refuse_rate : Participant → Say → Hub → Hub × Bool
unfolding refuse
refuse_rate p s h =
    let (b, wait) = Bucket.retry_after h.clock.monotonic (live h p).bucket in
    refuse p s rate_limited "rate limit" (some (round_div wait.parts wait.per_ms))
      (on p.name (λ q. record q { bucket = b }) h)

unfoldable pub check_rate : Participant → Say → Hub → Hub × Bool
unfolding check_duplicate refuse_rate
check_rate p s h =
    let (b, ok) = Bucket.take h.clock.monotonic (live h p).bucket in
    let h' = on p.name (λ q. record q { bucket = b }) h in
    if ok then check_duplicate p s h' else refuse_rate p s h'

-- the guards that come first: why a say is refused outright
unfoldable pub barred : Participant → Say → Hub → Option ErrCode
barred p s h =
    if not (is_observer p) && h.frozen
    then some frozen
    else if not (is_observer p) && h.muted && ((s.to == "*") || targets_agent h s.to)
    then some muted
    else if not (s.to == "*") && not (Dict.has s.to h.participants)
    then some unknown_recipient
    else none

unfoldable pub barred_detail : ErrCode → Say → Hub → String
barred_detail frozen s h = "hub is frozen — waiting for resume"
barred_detail muted s h =
    "mute mode active (broadcast and agent→agent blocked; direct to observers allowed)"
barred_detail _ s h = "unknown recipient " <> h.host.repr s.to <> " — roster: " <> roster_detail h

unfoldable pub route_say : Participant → Say → Hub → Hub × Bool
unfolding barred barred_detail check_rate
route_say p s h = elim (barred p s h) [
  | some code ↦ refuse p s code (barred_detail code s h) none h
  | none ↦ if is_observer p then (accept p s h, true) else check_rate p s h
]

unfoldable pub mark_done : Participant → Hub → Hub
mark_done p h = check_session_done (on p.name (λ q. record q { finished = true }) h)

-- A say from a participant without idle events shows that it is idle again.
unfoldable pub infer_idle : Participant → Hub → Hub
infer_idle p h =
    if not (member "idle-events" (live h p).caps) && not (is_idle (live h p).state)
    then flush_queue p (set_idle p h)
    else h

unfoldable pub after_say : Participant → Say → Hub → Hub
unfolding mark_done
after_say p s h =
    if s.kind == "done" then mark_done p h else on p.name (λ q. record q { finished = false }) h

unfoldable pub handle_say : Participant → Dict Json → Hub → Hub
unfolding route_say infer_idle after_say say_of
handle_say p frame h =
    let s = say_of h.host frame in
    let (routed, accepted) = route_say p s h in
    let inferred = infer_idle p routed in
    if accepted && not (is_observer p) then after_say p s inferred else inferred
