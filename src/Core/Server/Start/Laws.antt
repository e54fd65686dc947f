-- ===== src/Core/Server/Start/Laws.antt =====
-- A hub from its start to its stop, while others try to start at its home, and its next start.
use moot.Common.{
  ℕ, ◌≡◌, ◌≢◌, ◌⊎◌, ◌∙◌, refl, sym, ap, subst, Option, List, String, true, false, none, some, [],
  ◌∷◌, ◌++◌, inl, inr, eq_refl, arith, Bool-cases, Option-cases,
}
use mathlib.Core.List.{append_assoc, append-nil}
use mathlib.Core.Option.{some-ne-none}
use moot.Common.Dict.{Dict}
use moot.Core.Proto.Json.{Json}
use moot.Spoke.Home.{Rendezvous, write_current, clear_current}
use moot.Spoke.Home.Laws.{IsPlain}
use moot.Core.Server.Start.{
  Site, Disk, Link, link_to, transcript_dir, real_link, real_target, running, prepare_home,
  prepare_transcripts, session_id, session_start, session_end, start_locked, start, stop,
}

-- A hub that has started, in what it leaves to others.
pub record IsStarted (site : Site) (wall : ℕ) (before d : Disk) : Type 0 where
  pub locked : d.locked ≡ true
  pub socket : d.socket ≡ true
  pub told : d.rendezvous ≡ write_current site.place site.home before.rendezvous
  pub recorded : d.records ≡ before.records ++ session_start site wall ∷ []
  pub link : d.link ≡ (prepare_transcripts site before.link).1
  pub prepared : (prepare_transcripts site before.link).0 ≡ none
  pub binds : site.binds ≡ true

start_locked-IsStarted :
    (site : Site) (wall : ℕ) (before : Disk)
    → (start_locked site wall before).0 ≡ none
    → IsStarted site wall before (start_locked site wall before).1
unfolding start_locked
start_locked-IsStarted site wall before ok =
    elim (Option-cases (prepare_transcripts site before.link).0) [
      | inr (why, e) ↦ absurd (some-ne-none why (rw (start_locked, e) at ok))
      | inl e ↦ elim (Bool-cases site.binds) [
        | inr b ↦ absurd (some-ne-none _ (rw (start_locked, e, b) at ok))
        | inl b ↦ record {
          locked = ground (arith, e, b);
          socket = ground (arith, e, b);
          told = ground (arith, e, b);
          recorded = ground (arith, e, b);
          link = ground (arith, e, b);
          prepared = e;
          binds = b;
        }
      ]
    ]

start_free :
    (site : Site) (wall : ℕ) (d : Disk)
    → prepare_home site ≡ none
    → d.locked ≡ false
    → start site wall d ≡ start_locked site wall d
unfolding start
start_free site wall d home_ok l = ground (arith, home_ok, l)

start-IsStarted :
    (site : Site) (wall : ℕ) (before : Disk)
    → (start site wall before).0 ≡ none
    → (prepare_home site ≡ none) × IsStarted site wall before (start site wall before).1
unfolding start
start-IsStarted site wall before ok = elim (Option-cases (prepare_home site)) [
  | inr (why, e) ↦ absurd (some-ne-none why (rw (start, e) at ok))
  | inl e ↦ elim (Bool-cases before.locked) [
    | inl l ↦ absurd (some-ne-none _ (rw (start, e, l) at ok))
    | inr l ↦
        let same = start_free site wall before e l in
        (e, rw same (start_locked-IsStarted site wall before (rw same at ok)))
  ]
]

-- What happens at the home while its hub runs: someone, with whatever settings, tries to start
-- another hub there, the hub appends a record, or the goal is written or removed.
pub data Happening : Type 0 where
  tries : Site → ℕ → Happening
  records : Dict Json → Happening
  goal : Option String → Happening

unfoldable pub happens : List Happening → Disk → Disk
unfolding start
happens [] d = d
happens (tries other wall ∷ events) d = happens events (start other wall d).1
happens (records r ∷ events) d = happens events (record d { records = d.records ++ r ∷ [] })
happens (goal g ∷ events) d = happens events (record d { goal = g })

unfoldable pub recorded : List Happening → List (Dict Json)
recorded [] = []
recorded (tries other wall ∷ events) = recorded events
recorded (records r ∷ events) = r ∷ recorded events
recorded (goal g ∷ events) = recorded events

start_held :
    (other : Site) (wall : ℕ) (d : Disk)
    → d.locked ≡ true
    → ((start other wall d).0 ≢ none) × ((start other wall d).1 ≡ d)
unfolding start
start_held other wall d l = elim (Option-cases (prepare_home other)) [
  | inl e ↦ simp (start, e, l) (some-ne-none running, refl)
  | inr (why, e) ↦ simp (start, e) (some-ne-none why, refl)
]

-- What a home keeps of its hub, whatever happens.
record IsKept (d e : Disk) (added : List (Dict Json)) : Type 0 where
  locked : e.locked ≡ true
  link : e.link ≡ d.link
  socket : e.socket ≡ d.socket
  rendezvous : e.rendezvous ≡ d.rendezvous
  records : e.records ≡ d.records ++ added

happens-IsKept :
    (events : List Happening) (d : Disk)
    → d.locked ≡ true
    → IsKept d (happens events d) (recorded events)
unfolding happens recorded
happens-IsKept [] d l = record {
  locked = l;
  link = refl;
  socket = refl;
  rendezvous = refl;
  records = sym (append-nil d.records);
}
happens-IsKept (tries other wall ∷ events) d l =
    subst (λ e. IsKept d (happens events e) (recorded events)) (sym (start_held other wall d l).1)
      (happens-IsKept events d l)
happens-IsKept (records r ∷ events) d l =
    let v = happens-IsKept events (record d { records = d.records ++ r ∷ [] }) l in
    record {
      locked = v.locked;
      link = v.link;
      socket = v.socket;
      rendezvous = v.rendezvous;
      records = v.records ∙ append_assoc d.records (r ∷ []) (recorded events);
    }
happens-IsKept (goal g ∷ events) d l =
    let v = happens-IsKept events (record d { goal = g }) l in
    record {
      locked = v.locked;
      link = v.link;
      socket = v.socket;
      rendezvous = v.rendezvous;
      records = v.records;
    }

clear-write :
    (site : Site) (files : Rendezvous)
    → IsPlain site.place (site.place.resolve site.home)
    → (clear_current site.place site.home (write_current site.place site.home files)).current ≡ none
unfolding clear_current write_current
clear-write site files plain = rw (plain.stripped, eq_refl (site.place.resolve site.home)) refl

prepare_own :
    (site : Site) (link : Link)
    → site.transcripts ≡ none
    → prepare_transcripts site link ≡ (none, link)
unfolding prepare_transcripts real_target
prepare_own site link t = ground (arith, t, eq_refl (real_link site link))

prepare_linked :
    (site : Site) (target : String)
    → site.transcripts ≡ some target
    → (prepare_transcripts site (link_to (transcript_dir site))).0 ≡ none
unfolding prepare_transcripts real_target transcript_dir real_link
prepare_linked site target t = ground (arith, t, eq_refl (site.realpath target))

prepare_transcripts_link :
    (site : Site) (link : Link)
    → (prepare_transcripts site link).0 ≡ none
    → ((prepare_transcripts site link).1 ≡ link)
      ⊎ ((prepare_transcripts site link).1 ≡ link_to (transcript_dir site))
unfolding prepare_transcripts
prepare_transcripts_link site link ok = ground (arith, ok)

-- What is prepared once is prepared the next time.
prepare_transcripts_again :
    (site : Site) (link : Link)
    → (prepare_transcripts site link).0 ≡ none
    → (prepare_transcripts site (prepare_transcripts site link).1).0 ≡ none
prepare_transcripts_again site link ok = elim (Option-cases site.transcripts) [
  | inl t ↦
      let own = prepare_own site link t in
      subst (λ l. (prepare_transcripts site l).0 ≡ none) (sym (ap (λ r. r.1) own))
        (ap (λ r. r.0) own)
  | inr (target, t) ↦ elim (prepare_transcripts_link site link ok) [
    | inl same ↦ subst (λ l. (prepare_transcripts site l).0 ≡ none) (sym same) ok
    | inr linked ↦
        subst (λ l. (prepare_transcripts site l).0 ≡ none) (sym linked)
          (prepare_linked site target t)
  ]
]

-- A site whose preparations succeed, and then binds, starts at every home that is free.
start_again :
    (site : Site) (wall : ℕ) (d : Disk)
    → prepare_home site ≡ none
    → d.locked ≡ false
    → (prepare_transcripts site d.link).0 ≡ none
    → site.binds ≡ true
    → (start site wall d).0 ≡ none
unfolding start start_locked
start_again site wall d h l t b = rw (start_free site wall d h l) (rw (start_locked, t, b) refl)

-- A hub that has started, and whatever happens at its home until its stop: every other start there
-- fails and changes no file. After the stop the lock is free, its own rendezvous is gone, and the
-- transcript has the start, the records of the hub in their order, and the end, both under one id;
-- and the hub starts again. The home is a path that a line can hold.
pub start-stop :
    (site : Site) (wall later again : ℕ) (round : ℕ) (before : Disk) (events : List Happening)
    → IsPlain site.place (site.place.resolve site.home)
    → (start site wall before).0 ≡ none
    → let d = happens events (start site wall before).1 in
      let after = stop site (session_id site wall) later round d in
      ((other : Site) (t : ℕ) → ((start other t d).0 ≢ none) × ((start other t d).1 ≡ d))
      × (after.locked ≡ false)
      × (after.rendezvous.current ≡ none)
      × (after.records
          ≡ ((before.records ++ session_start site wall ∷ []) ++ recorded events)
            ++ session_end (session_id site wall) later round ∷ [])
      × ((start site again after).0 ≡ none)
unfolding stop
start-stop site wall later again round before events plain ok =
    let (home_ok, v) = start-IsStarted site wall before ok in
    let k = happens-IsKept events (start site wall before).1 v.locked in
    let ended = session_end (session_id site wall) later round in
    let after =
      stop site (session_id site wall) later round (happens events (start site wall before).1) in
    let linked : after.link ≡ (prepare_transcripts site before.link).1 = k.link ∙ v.link in
    (
      λ other t. start_held other t _ k.locked,
      refl,
      rw (k.rendezvous, v.told) (clear-write site before.rendezvous plain),
      ap (λ rs. rs ++ ended ∷ []) (k.records ∙ ap (λ rs. rs ++ recorded events) v.recorded),
      start_again site again after home_ok refl
          (rw linked (prepare_transcripts_again site before.link v.prepared)) v.binds,
    )
