-- ===== src/Spoke/Home.antt =====
-- spoke/home.py: finding the state directory. A path is its text; of the file system the functions
-- see the rendezvous file ~/.moot/current, whether its directory is there, and the sockets.
pub mod Laws
mod Tests
use Prim.Native.String.{String}
use moot.Common.{
  ◌<>◌, Bool, true, false, not, ◌&&◌, Option, none, some, ◌==◌, List, [], ◌∷◌, if◌then◌else◌,
}

-- `child` is the operator `/` of pathlib, `path` the text of `Path(text)`,
-- `expanduser` that with `~` put in, and `is_there` whether a
-- path exists; `answers` is whether a socket takes a connection.
pub record Place : Type 0 where
  pub user_home : String
  pub child : String → String → String
  pub path : String → String
  pub expanduser : String → String
  pub resolve : String → String
  pub strip : String → String
  pub is_there : String → Bool
  pub answers : String → Bool

pub record Rendezvous : Type 0 where
  pub directory : Bool
  pub current : Option String

unfoldable pub default_home : Place → String
default_home p = p.child p.user_home ".moot"

-- an option or a variable that is set to more than the empty text
unfoldable pub given : Option String → Bool
given none = false
given (some text) = not (text == "")

-- what the rendezvous file says, unless its hub is gone
unfoldable pub recorded_home : Place → Rendezvous → String
unfolding default_home
recorded_home p files = elim files.current [
  | none ↦ default_home p
  | some text ↦
      let recorded = p.strip text in
      if not (recorded == "") && p.is_there (p.child (p.path recorded) "hub.sock")
      then p.path recorded
      else default_home p
]

unfoldable pub expanded : Place → Option String → String → String
unfolding given
expanded p none other = other
expanded p (some text) other = if given (some text) then p.expanduser text else other

-- `--home`, then `$MOOT_HOME`
unfoldable pub resolve_home : Place → Option String → Option String → Rendezvous → String
unfolding expanded recorded_home
resolve_home p explicit env files = expanded p explicit (expanded p env (recorded_home p files))

unfoldable pub write_current : Place → String → Rendezvous → Rendezvous
write_current p home files = record { directory = true; current = some (p.resolve home <> "\n") }

unfoldable pub clear_current : Place → String → Rendezvous → Rendezvous
clear_current p home files = elim files.current [
  | none ↦ files
  | some text ↦ if p.strip text == p.resolve home then record files { current = none } else files
]

unfoldable pub hub_alive : Place → String → Bool
hub_alive p home = p.answers (p.child home "hub.sock")
