-- ===== src/Core/Hub/Tests.antt =====
-- A small hub, and what the theorems on says say of it.
use moot.Common.{
  ℕ, ◌≡◌, refl, String, true, false, none, some, [], ◌∷◌, arith, eqb, ne_of_eq_false, if◌then◌else◌,
}
use moot.Common.Dict
use moot.Common.Dict.{Dict}
use moot.Common.Int.{pos}
use moot.Core.Clock.{Clock}
use moot.Core.Types.{Msg, idle, direct, overheard}
use moot.Core.Config.{default_config}
use moot.Core.Server.{StreamClient, new_client}
use moot.Core.Hub.State.{Host, Hub, Participant, is_observer}
use moot.Core.Hub.Init.{new_hub}
use moot.Core.Hub.Route.{Say}
use moot.Core.Hub.Say.{route_say}
use moot.Core.Hub.Sound.{IsSane, IsSound}
use moot.Core.Hub.Seated.{IsSeat, IsSeated}
use moot.Core.Hub.Private.{route_say-private}
use moot.Core.Hub.Outcome.{Outcome, route_say-Outcome}

abbrev pub host : Host
host = record {
  sha256_hex = λ s. s;
  repr = λ s. s;
  repr_value = λ _. "?";
  str_of = λ _. "?";
  split = λ s. s ∷ [];
  casefold = λ s. s;
  strip = λ s. s;
  time_of_day = λ _. "00:00:00";
}

abbrev pub clock : Clock
clock = record { monotonic = 1_000; wall = 5_000 }

pub default-IsSane : IsSane default_config
default-IsSane = record {
  context = omega arith;
  queue = omega arith;
  wakes = omega arith;
  rounds = omega arith;
}

abbrev note : ℕ → Msg
note id = record {
  id = id;
  sender = "beta";
  to = "alpha";
  kind = "note";
  text = "hi";
  ts = 0;
  addressing = some direct;
  seq = none;
  private = false;
}

abbrev participant : String → String → ℕ → Participant
participant name kind client = record {
  name = name;
  kind = kind;
  role = "";
  caps = [];
  client = client;
  context = record { cap = 15; items = []; evicted = 0 };
  bucket = record { capacity = 3; num = 6; den = 60_000; tokens = 180_000; last = 1_000 };
  dedup = record { window = 120_000; seen_at = [] };
  state = idle;
  queue = [];
  queue_dropped = 0;
  finished = false;
  last_rx = 1_000;
  busy_since = 0;
  last_say = 0;
  blocked_since = none;
  blocked_detail = none;
  awaiting_pong = false;
  pong_deadline = 0;
}

abbrev alpha : Participant
alpha = participant "alpha" "agent" 1

abbrev beta : Participant
beta = participant "beta" "agent" 2

abbrev gamma : Participant
gamma = participant "gamma" "agent" 3

abbrev connection : ℕ → StreamClient
connection c = record new_client {
  name = if eqb c 1 then "alpha" else if eqb c 2 then "beta" else if eqb c 3 then "gamma" else "";
}

abbrev trio : Hub
trio = record (new_hub host default_config clock [] []) {
  participants = ("alpha", alpha) ∷ ("beta", beta) ∷ ("gamma", gamma) ∷ [];
  connections = connection;
}

fresh-IsSound :
    (name kind : String) (client : ℕ) → IsSound default_config (participant name kind client)
fresh-IsSound name kind client = record {
  context = record { capped = refl; bounded = omega arith; overheard = tt };
  bounded = omega arith;
  wakes = tt;
}

abbrev Seat : String → ℕ → Type 0
Seat name client =
    IsSeat default_config (λ c. (connection c).name) name (participant name "agent" client)

alpha-IsSeat : Seat "alpha" 1
alpha-IsSeat = record {
  listed = refl;
  named = ne_of_eq_false "alpha" "" refl;
  connection = refl;
  sound = fresh-IsSound "alpha" "agent" 1;
}

beta-IsSeat : Seat "beta" 2
beta-IsSeat = record {
  listed = refl;
  named = ne_of_eq_false "beta" "" refl;
  connection = refl;
  sound = fresh-IsSound "beta" "agent" 2;
}

gamma-IsSeat : Seat "gamma" 3
gamma-IsSeat = record {
  listed = refl;
  named = ne_of_eq_false "gamma" "" refl;
  connection = refl;
  sound = fresh-IsSound "gamma" "agent" 3;
}

trio-IsSeated : IsSeated trio
unfolding new_hub Dict.get
trio-IsSeated = record {
  sane = default-IsSane;
  distinct = (refl, (refl, (refl, tt)));
  seats = (alpha-IsSeat, (beta-IsSeat, (gamma-IsSeat, tt)));
  graves = tt;
}

abbrev whisper : Say
whisper = record { to = "beta"; kind = "claim"; text = "between us"; seq = pos 7; private = true }

abbrev shout : Say
shout = record { to = "*"; kind = "claim"; text = "all of you"; seq = pos 8; private = false }

route_say-private_example :
    (Dict.get "gamma" (route_say alpha whisper trio).0.participants ≡ some gamma)
    × ((route_say alpha whisper trio).0.connections 3 ≡ connection 3)
unfolding new_hub Dict.get is_observer
route_say-private_example =
    route_say-private alpha whisper trio "gamma" gamma trio-IsSeated alpha-IsSeat refl
      (ne_of_eq_false "beta" "*" refl) (ne_of_eq_false "beta" "gamma" refl)
      (ne_of_eq_false "alpha" "gamma" refl) refl refl

route_say-Outcome_example : Outcome alpha shout trio (route_say alpha shout trio)
route_say-Outcome_example = route_say-Outcome alpha shout trio

abbrev busy_alpha : Participant
busy_alpha = record alpha {
  queue = note 4 ∷ note 6 ∷ [];
  queue_dropped = 2;
  context = record {
    cap = 15;
    items = record (note 5) { addressing = some overheard } ∷ [];
    evicted = 0;
  };
}
