-- ===== src/Core/Hub/Seated/Joins.antt =====
-- Registration and reclaim against the registry's invariant.
use moot.Common.{
  ℕ, zero, suc, ◌≡◌, ◌≢◌, refl, sym, ◌∙◌, subst, String, true, false, Option, none, some, [], ◌∷◌,
  arith, ◌==◌, eq_iff, eqb, if_intro, Option-cases, inl, inr,
}
use mathlib.Core.Option.{some-injective}
use moot.Common.Dict
use moot.Common.Dict.{
  Dict, NodupKeys, Entries, Entries-get, Entries-put, Entries-delete, Entries-imp, put-NodupKeys,
  delete-NodupKeys,
}
use moot.Core.Buffer
use moot.Core.Bucket
use moot.Core.Proto.{name_taken, malformed}
use moot.Core.Proto.Json.{Json}
use moot.Core.Hub.State.{Hub, Participant, is_connected}
use moot.Core.Hub.Util.{discard, emit_event, touch_activity, number}
use moot.Core.Hub.Session.{check_session_done, end_session, clear_finished, agents, all_done}
use moot.Core.Hub.Lifecycle.{bury, bury_holder, close_client, disconnect}
use moot.Core.Hub.Hello.{
  reap, declare_room, suggestion, refuse_taken, reclaimed, new_participant, register, join_hub,
  handle_hello,
}
use moot.Core.Hub.Hello.Request.{Hello, hello_of}
use moot.Core.Hub.Quiet.{
  Quiet, Quiet-trans, Quiet-refl, close-Quiet, err_raw-Quiet, append_record-Quiet, emit_event-Quiet,
  notify-Quiet,
}
use moot.Core.Hub.Sound.{IsSoundBuffer, IsSound}
use moot.Core.Hub.Seated.{IsGrave, IsSeated, names_of, Quiet-IsSeated}
use moot.Core.Hub.Seated.Leaves.{reap-IsSeated}
use moot.Core.Hub.Seated.Admits.{admit-IsSeated}

-- The end of a session leaves the names of the connections.
names-check_session_done : (c : ℕ) (h : Hub) → names_of (check_session_done h) c ≡ names_of h c
unfolding check_session_done end_session clear_finished
names-check_session_done c h =
    if_intro (λ h'. names_of h' c ≡ names_of h c) (all_done (agents h))
      (λ _.
        let told = emit_event "session_done" none (("round", number h.round) ∷ []) h in
        (notify-Quiet "moot" "session_done — all agents finished"
            (record told { session_done_at = some told.clock.wall })).names
          c
        ∙ (emit_event-Quiet "session_done" none _ h).names c)
      (λ _. refl)

names-bury_holder :
    (c d : ℕ) (o : Option Participant) (h : Hub) → names_of (bury_holder d o h) c ≡ names_of h c
unfolding bury_holder bury touch_activity
names-bury_holder c d none h = refl
names-bury_holder c d (some p) h =
    if_intro (λ h'. names_of h' c ≡ names_of h c) (eqb p.client d)
      (λ _.
        names-check_session_done c _
        ∙ (emit_event-Quiet "peer_left" none (("name", Json.str p.name) ∷ []) (record h {
          dead = Dict.put p.name p h.dead;
          participants = Dict.delete p.name h.participants;
          blocked_notified = discard p.name h.blocked_notified;
          last_activity = h.clock.monotonic;
          stall_latched = false;
        })).names
            c)
      (λ _. refl)

names-reap : (c : ℕ) (name : String) (h : Hub) → names_of (reap name h) c ≡ names_of h c
unfolding reap disconnect close_client
names-reap c name h = elim (Option-cases (Dict.get name h.participants)) [
  | inl e ↦ rw (e, reap) refl
  | inr (p, e) ↦
      rw (e, reap)
        (if_intro (λ h'. names_of h' c ≡ names_of h c) (is_connected h p) (λ _. refl)
          (λ _.
            (close-Quiet p.client _).names c
            ∙ names-bury_holder c p.client (Dict.get (h.connections p.client).name h.participants)
                h))
]

pub declare_room-Quiet : (r : Hello) (h : Hub) → Quiet h (declare_room r h)
unfolding declare_room
declare_room-Quiet r h = elim (Option-cases r.room) [
  | inl e ↦ rw (e, declare_room) (Quiet-refl h)
  | inr (room, e) ↦ rw (e, declare_room) (append_record-Quiet _ h)
]

pub refuse_taken-Quiet : (c : ℕ) (name : String) (h : Hub) → Quiet h (refuse_taken c name h)
unfolding refuse_taken close_client
refuse_taken-Quiet c name h = elim (Option-cases (suggestion name h)) [
  | inl e ↦ rw (e, refuse_taken) (Quiet-refl h)
  | inr (free, e) ↦
      rw (e, refuse_taken) (Quiet-trans (err_raw-Quiet c name_taken free none h) (close-Quiet c _))
]

create-IsSoundBuffer :
    (cap : ℕ) (b : Buffer.ContextBuffer) → Buffer.create cap ≡ some b → IsSoundBuffer cap b
unfolding Buffer.create
create-IsSoundBuffer zero b e = cc
create-IsSoundBuffer (suc n) b e =
    subst (IsSoundBuffer (suc n)) (some-injective _ b e)
      (record { capped = refl; bounded = omega arith; overheard = tt })

new_participant-IsSound :
    (c : ℕ) (r : Hello) (h : Hub) (p : Participant)
    → new_participant c r h ≡ some p
    → (p.name ≡ r.name) × (p.client ≡ c) × IsSound h.config p
unfolding new_participant
new_participant-IsSound c r h p e = elim (Option-cases (Buffer.create h.config.context_cap)) [
  | inl f ↦ cc
  | inr (context, f) ↦
      elim (Option-cases (
        Bucket.create h.clock.monotonic h.config.rate_burst h.config.rate_messages
          h.config.rate_window)) [
            | inl g ↦ cc
            | inr (bucket, g) ↦
                subst (λ q. (q.name ≡ r.name) × (q.client ≡ c) × IsSound h.config q)
                  (some-injective _ p (rw (f, g, new_participant) at e))
                  (
                    refl,
                    refl,
                    record {
                      context = create-IsSoundBuffer h.config.context_cap context f;
                      bounded = omega arith;
                      wakes = tt;
                    },
                  )
          ]
]

register-IsSeated :
    (c : ℕ) (r : Hello) (h : Hub)
    → (h.connections c).name ≡ ""
    → r.name ≢ ""
    → IsSeated h
    → IsSeated (register c r h)
unfolding register reclaimed
register-IsSeated c r h free named v = elim (Option-cases (Dict.get r.name h.dead)) [
  | inl absent ↦
      rw (absent, register)
        (elim (Option-cases (new_participant c r h)) [
          | inl e ↦ rw e v
          | inr (p, e) ↦
              let (same, at, sound) = new_participant-IsSound c r h p e in
              rw e
                (admit-IsSeated c false p h at free (subst (λ n. n ≢ "") (sym same) named) sound v)
        ])
  | inr (p, found) ↦
      let g = Entries-get (IsGrave h.config) r.name h.dead v.graves found in
      rw (found, register)
        (admit-IsSeated c true (reclaimed c r h p) _ refl free
          (subst (λ n. n ≢ "") (sym g.listed) named)
          (record { context = g.sound.context; bounded = g.sound.bounded; wakes = g.sound.wakes })
          (record {
            sane = v.sane;
            distinct = v.distinct;
            seats = v.seats;
            graves = Entries-delete (IsGrave h.config) r.name h.dead v.graves;
          }))
]

join_hub-IsSeated :
    (c : ℕ) (r : Hello) (h : Hub)
    → (h.connections c).name ≡ ""
    → r.name ≢ ""
    → IsSeated h
    → IsSeated (join_hub c r h)
unfolding join_hub
join_hub-IsSeated c r h free named v =
    let declared = declare_room r h in
    let dv = Quiet-IsSeated (declare_room-Quiet r h) v in
    if_intro IsSeated (Dict.has r.name declared.participants)
      (λ _. Quiet-IsSeated (refuse_taken-Quiet c r.name declared) dv)
      (λ _. register-IsSeated c r declared ((declare_room-Quiet r h).names c ∙ free) named dv)

pub handle_hello-IsSeated :
    (c : ℕ) (frame : Dict Json) (h : Hub)
    → (hello_of h.host frame).name ≢ ""
    → IsSeated h
    → IsSeated (handle_hello c frame h)
unfolding handle_hello
handle_hello-IsSeated c frame h named v =
    let r = hello_of h.host frame in
    if_intro IsSeated ((h.connections c).name == "")
      (λ free.
        join_hub-IsSeated c r (reap r.name h)
          (names-reap c r.name h ∙ (eq_iff (h.connections c).name "").0 free) named
          (reap-IsSeated r.name h v))
      (λ _. Quiet-IsSeated (err_raw-Quiet c malformed _ none h) v)
