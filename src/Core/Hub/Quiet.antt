-- ===== src/Core/Hub/Quiet.antt =====
-- What output changes: connections but not their names, the transcript and the notices.
use moot.Common.{
  ℕ, String, ◌≡◌, refl, ◌∙◌, Bool, not, ◌&&◌, Option, none, List, [], ◌∷◌, arith, if_intro, any,
}
use moot.Common.Dict.{Dict}
use moot.Common.Int.{ℤ}
use moot.Core.Proto.{ErrCode}
use moot.Core.Proto.Json.{Json}
use moot.Core.Frame.{Frame, Record}
use moot.Core.Server
use moot.Core.Server.{StreamClient, new_client}
use moot.Core.Hub.State.{Hub, Participant, is_observer, at_client, is_connected, roll}
use moot.Core.Hub.Util.{
  send_client, send, err, err_raw, append_record, skipped, to_observers, emit_event, emit_rejected,
  notify,
}
use moot.Core.Hub.Session.{warn_unattended}

-- the hub without its output
abbrev pub silent : Hub → Hub
silent h = record h { connections = λ _. new_client; transcript = []; notices = [] }

pub record Quiet (h h' : Hub) : Type 0 where
  pub same : silent h' ≡ silent h
  pub names : (c : ℕ) → (h'.connections c).name ≡ (h.connections c).name

pub Quiet-refl : (h : Hub) → Quiet h h
Quiet-refl h = record { same = refl; names = λ c. refl }

pub Quiet-trans : {h h' h'' : Hub} → Quiet h h' → Quiet h' h'' → Quiet h h''
Quiet-trans p q = record { same = q.same ∙ p.same; names = λ c. q.names c ∙ p.names c }

name-send : (max : ℕ) (f : Frame) (c : StreamClient) → (Server.send max f c).name ≡ c.name
unfolding Server.send
name-send max f c = ground arith

name-close : (c : StreamClient) → (Server.close c).name ≡ c.name
unfolding Server.close
name-close c = ground arith

pub at_client-Quiet :
    (c : ℕ) (f : StreamClient → StreamClient) (h : Hub)
    → ((s : StreamClient) → (f s).name ≡ s.name)
    → Quiet h (at_client c f h)
unfolding at_client
at_client-Quiet c f h keeps = record {
  same = refl;
  names = λ k. ground (arith, keeps (h.connections k));
}

pub send_client-Quiet : (c : ℕ) (f : Frame) (h : Hub) → Quiet h (send_client c f h)
unfolding send_client
send_client-Quiet c f h =
    at_client-Quiet c (Server.send h.config.outbound_queue_max f) h
      (name-send h.config.outbound_queue_max f)

pub close-Quiet : (c : ℕ) (h : Hub) → Quiet h (at_client c Server.close h)
close-Quiet c h = at_client-Quiet c Server.close h name-close

pub send-Quiet : (p : Participant) (f : Frame) (h : Hub) → Quiet h (send p f h)
unfolding send
send-Quiet p f h = send_client-Quiet p.client f h

pub err-Quiet :
    (p : Participant) (code : ErrCode) (detail : String) (seq : Option ℤ) (retry : Option ℕ)
    (h : Hub)
    → Quiet h (err p code detail seq retry h)
unfolding err
err-Quiet p code detail seq retry h = send-Quiet p (Frame.err code detail seq retry) h

pub err_raw-Quiet :
    (c : ℕ) (code : ErrCode) (detail : String) (seq : Option ℤ) (h : Hub)
    → Quiet h (err_raw c code detail seq h)
unfolding err_raw
err_raw-Quiet c code detail seq h = send_client-Quiet c (Frame.err code detail seq none) h

pub append_record-Quiet : (r : Record) (h : Hub) → Quiet h (append_record r h)
unfolding append_record
append_record-Quiet r h = record { same = refl; names = λ c. refl }

pub notify-Quiet : (title text : String) (h : Hub) → Quiet h (notify title text h)
unfolding notify
notify-Quiet title text h =
    if_intro (Quiet h) h.config.notifications (λ _. record { same = refl; names = λ c. refl })
      (λ _. Quiet-refl h)

pub to_observers-Quiet :
    (skip : Option String) (f : Frame) (ps : List Participant) (h : Hub)
    → Quiet h (to_observers skip f ps h)
unfolding to_observers
to_observers-Quiet skip f [] h = Quiet-refl h
to_observers-Quiet skip f (p ∷ ps) h =
    Quiet-trans
      (if_intro (Quiet h) (is_observer p && not (skipped skip p) && is_connected h p)
        (λ _. send-Quiet p f h) (λ _. Quiet-refl h))
      (to_observers-Quiet skip f ps _)

pub emit_event-Quiet :
    (event : String) (skip : Option String) (extra : Dict Json) (h : Hub)
    → Quiet h (emit_event event skip extra h)
unfolding emit_event
emit_event-Quiet event skip extra h =
    Quiet-trans (to_observers-Quiet skip (Frame.event event extra) (roll h) h)
      (append_record-Quiet (Record.event event h.clock.wall extra) _)

pub emit_rejected-Quiet :
    (p : Participant) (code : ErrCode) (to kind text : String) (retry : Option ℕ) (private : Bool)
    (h : Hub)
    → Quiet h (emit_rejected p code to kind text retry private h)
unfolding emit_rejected
emit_rejected-Quiet p code to kind text retry private h =
    if_intro (Quiet h) (is_observer p) (λ _. Quiet-refl h)
      (λ _. emit_event-Quiet "rejected" none _ h)

pub warn_unattended-Quiet : (h : Hub) → Quiet h (warn_unattended h)
unfolding warn_unattended
warn_unattended-Quiet h =
    if_intro (Quiet h) (any is_observer (roll h)) (λ _. Quiet-refl h)
      (λ _. append_record-Quiet (Record.event "freeze_without_observer" h.clock.wall []) h)

-- One output after others, as rules that follow the code from its last step back.
module _ {h h' : Hub} (q : Quiet h h') where
  pub send_after : (p : Participant) (f : Frame) → Quiet h (send p f h')
  send_after p f = Quiet-trans q (send-Quiet p f h')

  pub err_after :
      (p : Participant) (code : ErrCode) (detail : String) (seq : Option ℤ) (retry : Option ℕ)
      → Quiet h (err p code detail seq retry h')
  err_after p code detail seq retry = Quiet-trans q (err-Quiet p code detail seq retry h')

  pub append_record_after : (r : Record) → Quiet h (append_record r h')
  append_record_after r = Quiet-trans q (append_record-Quiet r h')

  pub emit_event_after :
      (event : String) (skip : Option String) (extra : Dict Json)
      → Quiet h (emit_event event skip extra h')
  emit_event_after event skip extra = Quiet-trans q (emit_event-Quiet event skip extra h')

  pub notify_after : (title text : String) → Quiet h (notify title text h')
  notify_after title text = Quiet-trans q (notify-Quiet title text h')

  pub warn_unattended_after : Quiet h (warn_unattended h')
  warn_unattended_after = Quiet-trans q (warn_unattended-Quiet h')

pub ruleset quiet_rules = (
  Quiet-refl, send_after, err_after, append_record_after, emit_event_after, notify_after,
  warn_unattended_after,
)

-- a frame that is sent and recorded
pub delivered-Quiet :
    (p : Participant) (f : Frame) (r : Record) (h : Hub) → Quiet h (append_record r (send p f h))
delivered-Quiet p f r h = search quiet_rules

-- an event that the notifier tells too
pub alert-Quiet :
    (event : String) (extra : Dict Json) (text : String) (h : Hub)
    → Quiet h (notify "moot" text (emit_event event none extra h))
alert-Quiet event extra text h = search quiet_rules

-- the same where perhaps nobody sees it
pub limit_alert-Quiet :
    (event : String) (extra : Dict Json) (text : String) (h : Hub)
    → Quiet h (warn_unattended (notify "moot" text (emit_event event none extra h)))
limit_alert-Quiet event extra text h = search quiet_rules
