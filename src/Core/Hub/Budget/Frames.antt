-- ===== src/Core/Hub/Budget/Frames.antt =====
-- Inbound frames against the budget of rounds.
use moot.Common.{
  ℕ, ◌≡◌, sym, ◌∙◌, subst, String, Bool, true, false, not, ◌&&◌, ◌||◌, Option, none, some, List, [],
  ◌∷◌, arith, ◌==◌, eqb, is_empty, eq_iff, if◌then◌else◌, if_intro, Option-cases, inl, inr,
}
use moot.Common.Dict
use moot.Common.Dict.{Dict}
use moot.Core.Config.{Config}
use moot.Core.Clock.{Clock}
use moot.Core.Proto.{malformed}
use moot.Core.Proto.Json.{Json}
use moot.Core.Proto.Validate.{ok, req_str, opt_obj, rounds_ok, validate_type, validate}
use moot.Core.Proto.Validate.Accepted.{Check-cases, bind_ok, req_str_ok, valid_rounds}
use moot.Core.Frame.{Record}
use moot.Core.Hub.State.{Host, Hub, Participant, is_observer, live, on, at_client, is_connected}
use moot.Core.Hub.Util.{emit_event, touch_activity, discard}
use moot.Core.Hub.Lifecycle.{bury, bury_holder, close_client, disconnect}
use moot.Core.Hub.Say.{text_field}
use moot.Core.Hub.Hello.{
  reap, declare_room, reclaimed, new_participant, welcome, admit, register, join_hub, handle_hello,
}
use moot.Core.Hub.Hello.Request.{Hello, hello_of}
use moot.Core.Hub.Hello.Backlog.{backlog, late_join}
use moot.Core.Hub.Control.{opt_seq, args_of}
use moot.Core.Hub.Dispatch.{life_sign, handle_registered, handle_valid, handle}
use moot.Core.Hub.Init.{new_hub}
use moot.Core.Hub.Quiet.{err_raw-Quiet, emit_event-Quiet, close-Quiet}
use moot.Core.Hub.Sound.{IsSane}
use moot.Core.Hub.Seated.Joins.{declare_room-Quiet, refuse_taken-Quiet}
use moot.Core.Hub.Seated.Admits.{welcome-Quiet}
use moot.Core.Hub.Seated.Commands.{handle_roster-Quiet}
use moot.Core.Hub.Seated.Frames.{text_field_str}
use moot.Core.Hub.Budget.{
  IsWithin, InBudget, Quiet-InBudget, budget-deliver, check_session_done-InBudget,
  flush_queue-InBudget,
}
use moot.Core.Hub.Budget.Says.{handle_say-InBudget}
use moot.Core.Hub.Budget.Commands.{handle_state-InBudget, handle_cmd-InBudget}

bury_holder-InBudget :
    (c : ℕ) (o : Option Participant) (h : Hub) → InBudget h → InBudget (bury_holder c o h)
unfolding bury_holder bury touch_activity
bury_holder-InBudget c none h w = w
bury_holder-InBudget c (some p) h w =
    if_intro InBudget (eqb p.client c)
      (λ _. check_session_done-InBudget _ (
        Quiet-InBudget
          (emit_event-Quiet "peer_left" none (("name", Json.str p.name) ∷ []) (
            touch_activity (record h {
              dead = Dict.put p.name p h.dead;
              participants = Dict.delete p.name h.participants;
              blocked_notified = discard p.name h.blocked_notified;
            })))
          w))
      (λ _. w)

pub disconnect-InBudget : (c : ℕ) (h : Hub) → InBudget h → InBudget (disconnect c h)
unfolding disconnect close_client
disconnect-InBudget c h w =
    Quiet-InBudget (close-Quiet c _)
      (bury_holder-InBudget c (Dict.get (h.connections c).name h.participants) h w)

reap-InBudget : (name : String) (h : Hub) → InBudget h → InBudget (reap name h)
unfolding reap
reap-InBudget name h w = elim (Option-cases (Dict.get name h.participants)) [
  | inl e ↦ rw (e, reap) w
  | inr (p, e) ↦
      rw (e, reap)
        (if_intro InBudget (is_connected h p) (λ _. w) (λ _. disconnect-InBudget p.client h w))
]

late_join-InBudget : (p : Participant) (h : Hub) → InBudget h → InBudget (late_join p h)
unfolding late_join on
late_join-InBudget p h w =
    if_intro InBudget (is_observer p)
      (λ _.
        if_intro InBudget (is_empty (backlog p h)) (λ _. w)
          (λ _. subst IsWithin (sym (budget-deliver p _ h)) w))
      (λ _. w)

admit-InBudget :
    (c : ℕ) (rejoined : Bool) (p : Participant) (h : Hub)
    → InBudget h
    → InBudget (admit c rejoined p h)
unfolding admit touch_activity at_client
admit-InBudget c rejoined p h w =
    let listed =
      at_client c (λ s. record s { name = p.name })
        (record h { participants = Dict.put p.name p h.participants }) in
    let welcomed = welcome p listed in
    let w1 = Quiet-InBudget (welcome-Quiet p listed) w in
    let caught_up = if not rejoined || is_observer p then late_join p welcomed else welcomed in
    let w2 =
      if_intro InBudget (not rejoined || is_observer p) (λ _. late_join-InBudget p welcomed w1)
        (λ _. w1) in
    let told =
      emit_event "peer_joined" (some p.name)
        (("name", Json.str p.name) ∷ ("kind", Json.str p.kind) ∷ ("role", Json.str p.role) ∷ [])
        (touch_activity caught_up) in
    let w3 =
      Quiet-InBudget (emit_event-Quiet "peer_joined" (some p.name) _ (touch_activity caught_up))
        w2 in
    if_intro InBudget (rejoined && not (is_empty (live told p).queue))
      (λ _. flush_queue-InBudget p told w3) (λ _. w3)

register-InBudget : (c : ℕ) (r : Hello) (h : Hub) → InBudget h → InBudget (register c r h)
unfolding register
register-InBudget c r h w = elim (Option-cases (Dict.get r.name h.dead)) [
  | inl absent ↦
      rw (absent, register)
        (elim (Option-cases (new_participant c r h)) [
          | inl e ↦ rw e w
          | inr (p, e) ↦ rw e (admit-InBudget c false p h w)
        ])
  | inr (p, found) ↦ rw (found, register) (admit-InBudget c true (reclaimed c r h p) _ w)
]

handle_hello-InBudget :
    (c : ℕ) (frame : Dict Json) (h : Hub) → InBudget h → InBudget (handle_hello c frame h)
unfolding handle_hello join_hub
handle_hello-InBudget c frame h w =
    let r = hello_of h.host frame in
    let reaped = reap r.name h in
    let declared = declare_room r reaped in
    let dw = Quiet-InBudget (declare_room-Quiet r reaped) (reap-InBudget r.name h w) in
    if_intro InBudget ((h.connections c).name == "")
      (λ _.
        if_intro InBudget (Dict.has r.name declared.participants)
          (λ _. Quiet-InBudget (refuse_taken-Quiet c r.name declared) dw)
          (λ _. register-InBudget c r declared dw))
      (λ _. Quiet-InBudget (err_raw-Quiet c malformed _ none h) w)

args_of_ok : (frame args : Dict Json) → opt_obj frame ≡ ok args → args_of frame ≡ args
unfolding opt_obj args_of
args_of_ok frame args e = ground arith

resume_rounds :
    (host : Host) (frame : Dict Json)
    → validate host frame ≡ ok tt
    → text_field host "t" frame ≡ "cmd"
    → text_field host "cmd" frame ≡ "resume"
    → rounds_ok (Dict.get "n" (args_of frame)) ≡ true
unfolding validate validate_type
resume_rounds host frame e t resume =
    let (s, at, e') = bind_ok (req_str frame "t") (λ t. validate_type host t frame) tt e in
    let same = sym (text_field_str host frame "t" s (req_str_ok frame "t" s at)) ∙ t in
    let (cmd, args, found, given, fine) =
      valid_rounds host frame (subst (λ t. validate_type host t frame ≡ ok tt) same e') in
    subst (λ d. rounds_ok (Dict.get "n" d) ≡ true) (sym (args_of_ok frame args given))
      (fine (sym (text_field_str host frame "cmd" cmd found) ∙ resume))

handle_registered-InBudget :
    (c : ℕ) (frame : Dict Json) (p : Participant) (h : Hub)
    → validate h.host frame ≡ ok tt
    → InBudget h
    → InBudget (handle_registered c (text_field h.host "t" frame) frame p h)
unfolding handle_registered
handle_registered-InBudget c frame p h e w =
    let t = text_field h.host "t" frame in
    if_intro InBudget (t == "say") (λ _. handle_say-InBudget p frame h w)
      (λ _.
        if_intro InBudget (t == "state") (λ _. handle_state-InBudget p frame h w)
          (λ _.
            if_intro InBudget (t == "cmd")
              (λ is_cmd.
                handle_cmd-InBudget p frame h
                  (resume_rounds h.host frame e ((eq_iff t "cmd").0 is_cmd)) w)
              (λ _.
                if_intro InBudget (t == "roster")
                  (λ _. Quiet-InBudget (handle_roster-Quiet p frame h) w)
                  (λ _. if_intro InBudget (t == "bye") (λ _. disconnect-InBudget c h w) (λ _. w)))))

handle_valid-InBudget :
    (c : ℕ) (frame : Dict Json) (h : Hub)
    → validate h.host frame ≡ ok tt
    → InBudget h
    → InBudget (handle_valid c (text_field h.host "t" frame) frame h)
unfolding handle_valid life_sign on
handle_valid-InBudget c frame h e w =
    if_intro InBudget (text_field h.host "t" frame == "hello")
      (λ _. handle_hello-InBudget c frame h w)
      (λ _. elim (Option-cases (Dict.get (h.connections c).name h.participants)) [
        | inl absent ↦
            rw absent (Quiet-InBudget (err_raw-Quiet c malformed "hello expected first" none h) w)
        | inr (p, found) ↦ rw found (handle_registered-InBudget c frame p (life_sign p h) e w)
      ])

-- Whatever frame a connection sends, valid or not: a hub that is frozen or has rounds left, and
-- whose limit is positive, still is so afterwards.
pub handle-InBudget :
    (c : ℕ) (frame : Dict Json) (h : Hub) → InBudget h → InBudget (handle c frame h)
unfolding handle
handle-InBudget c frame h w = elim (Check-cases (validate h.host frame)) [
  | inl (code, detail, e) ↦
      rw (e, handle) (Quiet-InBudget (err_raw-Quiet c code detail (opt_seq frame) h) w)
  | inr e ↦ rw (e, handle) (handle_valid-InBudget c frame h e w)
]

-- A hub of a sane configuration starts within its budget.
pub new_hub-InBudget :
    (host : Host) (config : Config) (clock : Clock) (transcript : List Record)
    (recent : List (Dict Json))
    → IsSane config
    → InBudget (new_hub host config clock transcript recent)
unfolding new_hub
new_hub-InBudget host config clock transcript recent sane = record {
  fresh = sane.rounds;
  some_rounds = sane.rounds;
  left = λ _. sane.rounds;
}
