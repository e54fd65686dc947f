-- ===== src/Core/Server/Start/Tests.antt =====
-- The first start at a home that has nothing yet.
use moot.Common.{
  ℕ, ◌<>◌, ◌≡◌, ◌≢◌, refl, List, true, false, none, some, [], ◌∷◌, ◌++◌, ◌==◌, ne_of_eq_false,
  if◌then◌else◌,
}
use moot.Core.Server.Start.{
  Site, Disk, missing, prepare_home, transcript_dir, real_link, link_path, prepare_transcripts,
  real_target, session_id, session_start, session_end, start_locked, start, stop,
}
use moot.Core.Proto.Json.{Json}
use moot.Core.Server.Start.Laws.{Happening, tries, records, goal, happens, recorded, start-stop}

abbrev site : Site
site = record {
  place = record {
    user_home = "/root";
    child = λ a b. a <> "/" <> b;
    path = λ s. s;
    expanduser = λ s. s;
    resolve = λ s. s;
    strip = λ s. if s == "/srv/floor\n" then "/srv/floor" else s;
    is_there = λ s. true;
    answers = λ s. true;
  };
  realpath = λ s. s;
  home = "/srv/floor";
  transcripts = some "/var/moot";
  max_rounds = 24;
  home_mode = some 0o700;
  makes_target = true;
  binds = true;
  pid = 7;
  version = "1";
}

abbrev empty : Disk
empty = record {
  locked = false;
  link = missing;
  socket = false;
  rendezvous = record { directory = false; current = none };
  goal = none;
  records = [];
}

-- another hub that would start at the same home, without --transcripts
abbrev other_site : Site
other_site = record site { transcripts = none; pid = 8; max_rounds = 3 }

abbrev busy_day : List Happening
busy_day =
    goal (some "ship it")
    ∷ tries other_site 6_000
    ∷ records (("type", Json.str "say") ∷ [])
    ∷ tries site 7_000
    ∷ []

start-stop_example :
    let d = happens busy_day (start site 5_000 empty).1 in
    let after = stop site (session_id site 5_000) 9_000 3 d in
    ((other : Site) (t : ℕ) → ((start other t d).0 ≢ none) × ((start other t d).1 ≡ d))
    × (after.locked ≡ false)
    × (after.rendezvous.current ≡ none)
    × (after.records
        ≡ ((empty.records ++ session_start site 5_000 ∷ []) ++ recorded busy_day)
          ++ session_end (session_id site 5_000) 9_000 3 ∷ [])
    × ((start site 10_000 after).0 ≡ none)
unfolding start prepare_home start_locked prepare_transcripts transcript_dir real_link link_path
    real_target
start-stop_example =
    start-stop site 5_000 9_000 10_000 3 empty busy_day
      (record { stripped = refl; inked = ne_of_eq_false "/srv/floor" "" refl; kept = refl }) refl
