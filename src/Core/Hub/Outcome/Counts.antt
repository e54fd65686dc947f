-- ===== src/Core/Hub/Outcome/Counts.antt =====
-- The last id and the window of recent records, while a say is routed.
use moot.Common.{
  ℕ, ◌+◌, ◌≡◌, refl, ap, ◌∙◌, String, true, not, ◌&&◌, List, [], ◌∷◌, ◌++◌, ◌==◌, leb, is_empty,
  if_intro,
}
use moot.Common.Dict.{Dict}
use moot.Core.Types.{Msg, Addressing, direct, broadcast, overheard, tag, is_idle}
use moot.Core.Proto.Json.{Json}
use moot.Core.Frame.{Frame}
use moot.Core.Hub.State.{Hub, Participant, is_observer, live, on, is_connected, roll}
use moot.Core.Hub.Util.{append_record, touch_activity, next_id}
use moot.Core.Hub.Session.{freeze_at_limit, check_round_limit}
use moot.Core.Hub.Delivery.{enqueue, set_busy, deliver}
use moot.Core.Hub.Route.{
  Say, Routing, wake, overhear, offer_agent, offer_observer, offer, offer_all, deliver_all,
  addressing, message, msg_record, last_n,
}
use moot.Core.Hub.Say.{asked, note_asker, remember, send_out, route, confirm, accept}
use moot.Core.Hub.Quiet.{Quiet, delivered-Quiet, limit_alert-Quiet}
use moot.Core.Hub.Seated.Says.{confirmed-Quiet}

-- What counts the messages: the last id, and the window of recent records.
pub record Ledger : Type 0 where
  pub msg_counter : ℕ
  pub recent : List (Dict Json)
  pub window : ℕ

abbrev pub ledger : Hub → Ledger
ledger h = record {
  msg_counter = h.msg_counter;
  recent = h.recent;
  window = h.config.recent_window;
}

pub Quiet-ledger : {h h' : Hub} → Quiet h h' → ledger h' ≡ ledger h
Quiet-ledger q = ap ledger q.same

pub ledger-deliver :
    (p : Participant) (msgs : List Msg) (h : Hub) → ledger (deliver p msgs h) ≡ ledger h
unfolding deliver set_busy touch_activity on
ledger-deliver p msgs h =
    let noted = Quiet-ledger (delivered-Quiet p _ _ h) in
    if_intro (λ h'. ledger h' ≡ ledger h) (is_observer p) (λ _. noted) (λ _. noted)

pub ledger-deliver_all :
    (batches : List (Participant × List Msg)) (h : Hub) → ledger (deliver_all batches h) ≡ ledger h
unfolding deliver_all
ledger-deliver_all [] h = refl
ledger-deliver_all ((q, batch) ∷ rest) h =
    ledger-deliver_all rest (deliver q batch h) ∙ ledger-deliver q batch h

pub ledger-check_round_limit : (h : Hub) → ledger (check_round_limit h) ≡ ledger h
unfolding check_round_limit freeze_at_limit
ledger-check_round_limit h =
    if_intro (λ h'. ledger h' ≡ ledger h) (leb h.max_rounds h.round && not h.frozen)
      (λ _. Quiet-ledger (limit_alert-Quiet "round_limit" _ _ (record h { frozen = true })))
      (λ _. refl)

pub ledger-offer_agent :
    (q : Participant) (mode : Addressing) (m : Msg) (r : Routing)
    → ledger (offer_agent q mode m r).hub ≡ ledger r.hub
unfolding offer_agent wake overhear enqueue on
ledger-offer_agent q overheard m r =
    if_intro (λ (x : Routing). ledger x.hub ≡ ledger r.hub) m.private (λ _. refl) (λ _. refl)
ledger-offer_agent q direct m r =
    if_intro (λ (x : Routing). ledger x.hub ≡ ledger r.hub)
      (is_idle (live r.hub q).state && is_connected r.hub q) (λ _. refl) (λ _. refl)
ledger-offer_agent q broadcast m r =
    if_intro (λ (x : Routing). ledger x.hub ≡ ledger r.hub)
      (is_idle (live r.hub q).state && is_connected r.hub q) (λ _. refl) (λ _. refl)

pub ledger-offer :
    (sender : String) (m : Msg) (q : Participant) (r : Routing)
    → ledger (offer sender m q r).hub ≡ ledger r.hub
unfolding offer offer_observer
ledger-offer sender m q r =
    if_intro (λ (x : Routing). ledger x.hub ≡ ledger r.hub) (q.name == sender) (λ _. refl)
      (λ _.
        if_intro (λ (x : Routing). ledger x.hub ≡ ledger r.hub) (is_observer q)
          (λ _.
            if_intro (λ (x : Routing). ledger x.hub ≡ ledger r.hub) (is_connected r.hub q)
              (λ _. refl) (λ _. refl))
          (λ _. ledger-offer_agent q (addressing q m.to) (tag m (addressing q m.to)) r))

pub ledger-offer_all :
    (sender : String) (m : Msg) (qs : List Participant) (r : Routing)
    → ledger (offer_all sender m qs r).hub ≡ ledger r.hub
unfolding offer_all
ledger-offer_all sender m [] r = refl
ledger-offer_all sender m (q ∷ qs) r =
    ledger-offer_all sender m qs (offer sender m q r) ∙ ledger-offer sender m q r

pub ledger-send_out : (r : Routing) → ledger (send_out r) ≡ ledger r.hub
unfolding send_out
ledger-send_out r =
    if_intro (λ h'. ledger h' ≡ ledger r.hub) (is_empty r.woken)
      (λ _. ledger-deliver_all r.observers r.hub)
      (λ _.
        ledger-check_round_limit _
        ∙ ledger-deliver_all r.woken _
        ∙ ledger-deliver_all r.observers (record r.hub { round = r.hub.round + 1 }))

pub ledger-confirm :
    (p : Participant) (s : Say) (m : Msg) (r : Routing) → ledger (confirm p s m r) ≡ ledger r.hub
unfolding confirm touch_activity
ledger-confirm p s m r =
    Quiet-ledger (confirmed-Quiet p s (Frame.ok_say m.id r.queued s.seq) (send_out r))
    ∙ ledger-send_out r

pub ledger-note_asker : (p : Participant) (s : Say) (h : Hub) → ledger (note_asker p s h) ≡ ledger h
unfolding note_asker
ledger-note_asker p s h =
    if_intro (λ h'. ledger h' ≡ ledger h) (is_observer p)
      (λ _. if_intro (λ h'. ledger h' ≡ ledger h) (is_empty (asked s h)) (λ _. refl) (λ _. refl))
      (λ _. refl)

-- The ledger after a message of the sender has been entered.
abbrev pub entered : Participant → Say → Hub → Ledger
entered p s h = record {
  msg_counter = h.msg_counter + 1;
  recent =
      last_n h.config.recent_window
        (h.recent ++ msg_record (message p s (h.msg_counter + 1) h.clock.wall) ∷ []);
  window = h.config.recent_window;
}

pub enter : Msg → Ledger → Ledger
enter m l = record l { recent = last_n l.window (l.recent ++ msg_record m ∷ []) }

pub ledger-remember : (m : Msg) (h : Hub) → ledger (remember m h) ≡ enter m (ledger h)
unfolding remember append_record enter
ledger-remember m h = refl

pub ledger-accept : (p : Participant) (s : Say) (h : Hub) → ledger (accept p s h) ≡ entered p s h
unfolding accept route next_id on enter
ledger-accept p s h =
    let (h', id) = next_id h in
    let m = message p s id h.clock.wall in
    let stamped = on p.name (λ q. record q { last_say = h.clock.monotonic }) h' in
    let noted = remember m (note_asker p s stamped) in
    ledger-confirm p s m (route p m noted)
    ∙ ledger-offer_all p.name m (roll noted) _
    ∙ ledger-remember m (note_asker p s stamped)
    ∙ ap (enter m) (ledger-note_asker p s stamped)
