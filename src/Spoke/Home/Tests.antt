-- ===== src/Spoke/Home/Tests.antt =====
-- A hub at /srv/floor and one at /tmp/other.
use moot.Common.{◌<>◌, ◌≡◌, refl, true, none, some, [], ◌∷◌, ◌==◌, ne_of_eq_false, if◌then◌else◌}
use moot.Spoke.Home.{
  Place, Rendezvous, default_home, given, resolve_home, write_current, clear_current,
}
use moot.Spoke.Home.Laws.{clear_all, IsPlain, resolve_home-write_current}

abbrev place : Place
place = record {
  user_home = "/root";
  child = λ a b. a <> "/" <> b;
  path = λ s. s;
  expanduser = λ s. s;
  resolve = λ s. s;
  strip = λ s. if s == "/srv/floor\n" then "/srv/floor" else s;
  is_there = λ s. s == "/srv/floor/hub.sock";
  answers = λ s. true;
}

abbrev before : Rendezvous
before = record { directory = true; current = some "/tmp/other\n" }

floor-IsPlain : IsPlain place "/srv/floor"
floor-IsPlain = record { stripped = refl; inked = ne_of_eq_false "/srv/floor" "" refl; kept = refl }

resolve_home-write_current_example :
    let files = clear_all place ("/tmp/other" ∷ []) (write_current place "/srv/floor" before) in
    (resolve_home place none (some "") files ≡ "/srv/floor")
    × (resolve_home place none (some "") (clear_current place "/srv/floor" files)
        ≡ default_home place)
unfolding given
resolve_home-write_current_example =
    resolve_home-write_current place none (some "") "/srv/floor" ("/tmp/other" ∷ []) before refl
      refl floor-IsPlain (ne_of_eq_false "/tmp/other" "/srv/floor" refl, tt) refl
