-- ===== src/Core/Hub/Seated/Admits.antt =====
-- The admission of a participant against the registry's invariant.
use moot.Common.{
  ℕ, ◌<◌, ◌≡◌, ◌≢◌, refl, sym, ap, ◌∙◌, String, Bool, not, ◌&&◌, ◌||◌, some, List, [], ◌∷◌, arith,
  eqb, eqb_iff, is_empty, if◌then◌else◌, if_intro, Bool-cases, inl, inr,
}
use moot.Common.Dict
use moot.Common.Dict.{
  Dict, NodupKeys, Entries, Entries-get, Entries-put, Entries-delete, Entries-imp, put-NodupKeys,
  delete-NodupKeys,
}
use moot.Core.Types.{Msg, overheard, tag, is_overheard}
use moot.Core.Buffer
use moot.Core.Proto.Json.{Json}
use moot.Core.Hub.State.{Hub, Participant, is_observer, live, at_client}
use moot.Core.Hub.Util.{emit_event, touch_activity}
use moot.Core.Hub.Hello.{welcome, admit}
use moot.Core.Hub.Hello.Backlog.{backlog, append_all, late_join}
use moot.Core.Hub.Quiet.{Quiet, emit_event-Quiet, send-Quiet}
use moot.Core.Hub.Sound.{IsSoundBuffer, IsSound, append-IsSoundBuffer}
use moot.Core.Hub.Seated.{IsSeat, IsSeated, names_of, Quiet-IsSeated, on-IsSeated}
use moot.Core.Hub.Seated.Deliver.{deliver-IsSeated, flush_queue-IsSeated}

pub append_all-IsSoundBuffer :
    (cap : ℕ) (b : Buffer.ContextBuffer) (ms : List Msg)
    → 0 < cap
    → IsSoundBuffer cap b
    → IsSoundBuffer cap (append_all b ms)
unfolding append_all tag is_overheard
append_all-IsSoundBuffer cap b [] h s = s
append_all-IsSoundBuffer cap b (m ∷ ms) h s =
    append_all-IsSoundBuffer cap (Buffer.append b (tag m overheard)) ms h
      (append-IsSoundBuffer cap b (tag m overheard) h refl s)

pub late_join-IsSeated : (p : Participant) (h : Hub) → IsSeated h → IsSeated (late_join p h)
unfolding late_join
late_join-IsSeated p h v =
    if_intro IsSeated (is_observer p)
      (λ _. if_intro IsSeated (is_empty (backlog p h)) (λ _. v) (λ _. deliver-IsSeated p _ h v))
      (λ _.
        on-IsSeated p.name (λ q. record q { context = append_all q.context (backlog p h) }) h
          (record {
            name = λ q. refl;
            client = λ q. refl;
            sound = λ q s. record {
              context =
                  append_all-IsSoundBuffer h.config.context_cap q.context (backlog p h)
                    v.sane.context s.context;
              bounded = s.bounded;
              wakes = s.wakes;
            };
          })
          v)

-- Naming a connection that nobody sits on leaves the seats.
pub name_connection-IsSeat :
    (c : ℕ) (name : String) (h : Hub)
    → (h.connections c).name ≡ ""
    → (k : String) (q : Participant) → IsSeat h.config (names_of h) k q
    → IsSeat h.config (names_of (at_client c (λ s. record s { name = name }) h)) k q
unfolding at_client
name_connection-IsSeat c name h free k q s = record {
  listed = s.listed;
  named = s.named;
  connection = elim (Bool-cases (eqb q.client c)) [
    | inl same ↦
        absurd (s.named (sym s.connection ∙ ap (names_of h) ((eqb_iff q.client c).0 same) ∙ free))
    | inr other ↦ rw (other, names_of) s.connection
  ];
  sound = s.sound;
}

pub list-IsSeated :
    (c : ℕ) (p : Participant) (h : Hub)
    → p.client ≡ c
    → (h.connections c).name ≡ ""
    → p.name ≢ ""
    → IsSound h.config p
    → IsSeated h
    → IsSeated (
        at_client c
          (λ s. record s { name = p.name })
          (record h { participants = Dict.put p.name p h.participants }))
unfolding at_client
list-IsSeated c p h at free named s v =
    let names = names_of (at_client c (λ s. record s { name = p.name }) h) in
    record {
      sane = v.sane;
      distinct = put-NodupKeys p.name p h.participants v.distinct;
      seats =
          Entries-put (IsSeat h.config names) p.name p h.participants
            (Entries-imp (IsSeat h.config (names_of h)) (IsSeat h.config names)
              (name_connection-IsSeat c p.name h free) h.participants v.seats)
            (record { listed = refl; named = named; connection = ground (arith, at); sound = s });
      graves = v.graves;
    }

pub welcome-Quiet : (p : Participant) (h : Hub) → Quiet h (welcome p h)
unfolding welcome
welcome-Quiet p h = send-Quiet p _ h

pub admit-IsSeated :
    (c : ℕ) (rejoined : Bool) (p : Participant) (h : Hub)
    → p.client ≡ c
    → (h.connections c).name ≡ ""
    → p.name ≢ ""
    → IsSound h.config p
    → IsSeated h
    → IsSeated (admit c rejoined p h)
unfolding admit touch_activity
admit-IsSeated c rejoined p h at free named s v =
    let listed =
      at_client c (λ s. record s { name = p.name })
        (record h { participants = Dict.put p.name p h.participants }) in
    let welcomed = welcome p listed in
    let wv = Quiet-IsSeated (welcome-Quiet p listed) (list-IsSeated c p h at free named s v) in
    let caught_up = if not rejoined || is_observer p then late_join p welcomed else welcomed in
    let cv =
      if_intro IsSeated (not rejoined || is_observer p) (λ _. late_join-IsSeated p welcomed wv)
        (λ _. wv) in
    let told =
      emit_event "peer_joined" (some p.name)
        (("name", Json.str p.name) ∷ ("kind", Json.str p.kind) ∷ ("role", Json.str p.role) ∷ [])
        (touch_activity caught_up) in
    let tv =
      Quiet-IsSeated (emit_event-Quiet "peer_joined" (some p.name) _ (touch_activity caught_up))
        cv in
    if_intro IsSeated (rejoined && not (is_empty (live told p).queue))
      (λ _. flush_queue-IsSeated p told tv) (λ _. tv)
