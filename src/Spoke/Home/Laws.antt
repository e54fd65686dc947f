-- ===== src/Spoke/Home/Laws.antt =====
-- The rendezvous of a hub and a spoke.
use Prim.Native.String.{String}
use moot.Common.{
  ◌<>◌, ◌≡◌, ◌≢◌, ◌∙◌, refl, sym, true, false, Option, none, some, List, [], ◌∷◌, All, eq_refl,
  eq_false_of_ne,
}
use moot.Spoke.Home.{
  Place, Rendezvous, default_home, given, recorded_home, expanded, resolve_home, write_current,
  clear_current,
}

-- A path that a line of a file can hold: no blanks around it, not empty, and in pathlib's form.
pub record IsPlain (p : Place) (home : String) : Type 0 where
  pub stripped : p.strip (home <> "\n") ≡ home
  pub inked : home ≢ ""
  pub kept : p.path home ≡ home

unfoldable pub clear_all : Place → List String → Rendezvous → Rendezvous
clear_all p [] files = files
clear_all p (home ∷ homes) files = clear_all p homes (clear_current p home files)

expanded_not :
    (p : Place) (text : Option String) (other : String)
    → given text ≡ false
    → expanded p text other ≡ other
unfolding expanded given
expanded_not p none other h = refl
expanded_not p (some text) other h = rw (h) refl

resolve_home_not :
    (p : Place) (explicit env : Option String) (files : Rendezvous)
    → given explicit ≡ false
    → given env ≡ false
    → resolve_home p explicit env files ≡ recorded_home p files
unfolding resolve_home
resolve_home_not p explicit env files h k =
    expanded_not p explicit _ h ∙ expanded_not p env (recorded_home p files) k

module _ (p : Place) (home : String) (before : Rendezvous)
    (plain : IsPlain p (p.resolve home)) where
  abbrev files : Rendezvous
  files = write_current p home before

  clear_current_other :
      (other : String) → p.resolve other ≢ p.resolve home → clear_current p other files ≡ files
  unfolding clear_current write_current
  clear_current_other other apart =
      rw (plain.stripped, eq_false_of_ne _ _ (λ e. apart (sym e))) refl

  clear_all_others :
      (others : List String)
      → All (λ o. p.resolve o ≢ p.resolve home) others
      → clear_all p others files ≡ files
  unfolding clear_all
  clear_all_others [] apart = refl
  clear_all_others (other ∷ others) apart =
      rw (clear_current_other other apart.0) (clear_all_others others apart.1)

  recorded_home-write :
      p.is_there (p.child (p.resolve home) "hub.sock") ≡ true
      → recorded_home p files ≡ p.resolve home
  unfolding recorded_home write_current
  recorded_home-write there =
      rw (plain.stripped, eq_false_of_ne _ _ plain.inked, plain.kept, there) refl

  recorded_home-clear : recorded_home p (clear_current p home files) ≡ default_home p
  unfolding recorded_home clear_current write_current
  recorded_home-clear = rw (plain.stripped, eq_refl (p.resolve home)) refl

-- A hub that started at a home, last of all, and whose socket is there, is what a spoke finds that
-- is told of no other home, by an option or by the environment, however many hubs of other homes
-- have stopped since; after its own stop the spoke finds the default. The home is a path that
-- a line can hold.
pub resolve_home-write_current :
    (p : Place) (explicit env : Option String) (home : String) (others : List String)
    (before : Rendezvous)
    → given explicit ≡ false
    → given env ≡ false
    → IsPlain p (p.resolve home)
    → All (λ o. p.resolve o ≢ p.resolve home) others
    → p.is_there (p.child (p.resolve home) "hub.sock") ≡ true
    → let files = clear_all p others (write_current p home before) in
      (resolve_home p explicit env files ≡ p.resolve home)
      × (resolve_home p explicit env (clear_current p home files) ≡ default_home p)
resolve_home-write_current p explicit env home others before no_option no_env plain apart there =
    rw (clear_all_others p home before plain others apart) (
      resolve_home_not p explicit env _ no_option no_env
          ∙ recorded_home-write p home before plain there,
      resolve_home_not p explicit env _ no_option no_env ∙ recorded_home-clear p home before plain,
    )
