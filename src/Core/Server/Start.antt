-- ===== src/Core/Server/Start.antt =====
-- core/server.py, `serve`: what the start and the stop of a hub do to the files of its home. The
-- connections in between are those of Core/Loop. What the operating system answers is in Site.
pub mod Laws
mod Tests
use Prim.Native.String.{String}
use moot.Common.{
  ℕ, ◌/◌, ◌<>◌, numeral, Bool, true, false, not, ◌||◌, Option, none, some, List, [], ◌∷◌, ◌++◌,
  ◌==◌, eqb, if◌then◌else◌,
}
use moot.Common.Dict.{Dict}
use moot.Common.Int.{pos}
use moot.Core.Proto.Json.{Json}
use moot.Spoke.Home.{Place, Rendezvous, hub_alive, write_current, clear_current}

-- `home_mode` is the mode of the home once it is made, none an OSError; `makes_target` and `binds`
-- are whether the directory of --transcripts can be made, and the socket bound.
pub record Site : Type 0 where
  pub place : Place
  pub realpath : String → String
  pub home : String
  pub transcripts : Option String
  pub max_rounds : ℕ
  pub home_mode : Option ℕ
  pub makes_target : Bool
  pub binds : Bool
  pub pid : ℕ
  pub version : String

-- <home>/transcripts; `directory` is anything that is no link.
pub data Link : Type 0 where
  missing : Link
  link_to : String → Link
  directory : Link

-- The files: the lock that a running hub holds, the link, the socket, the rendezvous file, the goal,
-- and the records of the transcript.
pub record Disk : Type 0 where
  pub locked : Bool
  pub link : Link
  pub socket : Bool
  pub rendezvous : Rendezvous
  pub goal : Option String
  pub records : List (Dict Json)

-- why a hub does not start
pub data Failure : Type 0 where
  unprepared : Failure
  wrong_mode : ℕ → Failure
  running : Failure
  real_directory : Failure
  unbound : Failure

unfoldable pub prepare_home : Site → Option Failure
prepare_home site = elim site.home_mode [
  | none ↦ some unprepared
  | some mode ↦ if eqb mode 0o700 then none else some (wrong_mode mode)
]

unfoldable pub link_path : Site → String
link_path site = site.place.child site.home "transcripts"

unfoldable pub transcript_dir : Site → String
unfolding link_path
transcript_dir site = elim site.transcripts [ none ↦ link_path site | some target ↦ target ]

-- `os.path.realpath` of the link
unfoldable pub real_link : Site → Link → String
unfolding link_path
real_link site (link_to target) = site.realpath target
real_link site missing = site.realpath (link_path site)
real_link site directory = site.realpath (link_path site)

-- `os.path.realpath` of the directory, which is the link itself without --transcripts
unfoldable pub real_target : Site → Link → String
unfolding real_link
real_target site link = elim site.transcripts [
  | none ↦ real_link site link
  | some target ↦ site.realpath target
]

unfoldable pub prepare_transcripts : Site → Link → Option Failure × Link
unfolding transcript_dir real_link real_target
prepare_transcripts site link =
    if real_target site link == real_link site link
    then (none, link)
    else if not site.makes_target
    then (some unprepared, link)
    else elim link as (λ _. Option Failure × Link) [
      | directory ↦ (some real_directory, link)
      | _ ↦ (none, link_to (transcript_dir site))
    ]

unfoldable pub session_id : Site → ℕ → String
session_id site wall = numeral (wall / 1000) <> "-" <> numeral site.pid

-- `Json.float` takes the milliseconds of a number of seconds.
unfoldable pub session_start : Site → ℕ → Dict Json
unfolding session_id
session_start site wall =
    ("type", Json.str "session")
    ∷ ("id", Json.str (session_id site wall))
    ∷ ("started", Json.float wall)
    ∷ ("pid", Json.int (pos site.pid))
    ∷ ("version", Json.str site.version)
    ∷ ("home", Json.str site.home)
    ∷ ("max_rounds", Json.int (pos site.max_rounds))
    ∷ []

unfoldable pub session_end : String → ℕ → ℕ → Dict Json
session_end id wall round =
    ("type", Json.str "session_end")
    ∷ ("id", Json.str id)
    ∷ ("ts", Json.float wall)
    ∷ ("round", Json.int (pos round))
    ∷ []

-- the home of another hub that runs, of which `serve` warns
unfoldable pub rendezvous_collision : Site → Rendezvous → Option String
rendezvous_collision site files = elim files.current [
  | none ↦ none
  | some text ↦
      let recorded = site.place.strip text in
      if recorded == "" || (site.realpath recorded == site.realpath site.home)
      then none
      else if hub_alive site.place (site.place.path recorded)
      then some (site.place.path recorded)
      else none
]

-- the part of `serve` that runs under the lock, up to the watchdog; a failure ends the process, which
-- releases the lock
unfoldable pub start_locked : Site → ℕ → Disk → Option Failure × Disk
unfolding prepare_transcripts session_start
start_locked site wall d =
    let (failure, link) = prepare_transcripts site d.link in
    let opened = record d { link = link; records = d.records ++ session_start site wall ∷ [] } in
    elim failure [
      | some why ↦ (some why, d)
      | none ↦
          if site.binds
          then (
            none,
            record opened {
              locked = true;
              socket = true;
              rendezvous = write_current site.place site.home d.rendezvous;
            },
          )
          else (some unbound, record opened { socket = false })
    ]

unfoldable pub start : Site → ℕ → Disk → Option Failure × Disk
unfolding prepare_home start_locked
start site wall d = elim (prepare_home site) [
  | some why ↦ (some why, d)
  | none ↦ if d.locked then (some running, d) else start_locked site wall d
]

-- the `finally` of `serve`
unfoldable pub stop : Site → String → ℕ → ℕ → Disk → Disk
unfolding session_end
stop site id wall round d = record d {
  locked = false;
  socket = false;
  rendezvous = clear_current site.place site.home d.rendezvous;
  goal = none;
  records = d.records ++ session_end id wall round ∷ [];
}
