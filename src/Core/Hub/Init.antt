-- ===== src/Core/Hub/Init.antt =====
-- core/hub.py, the constructor: restart recovery from the transcript's recent message records.
use moot.Common.{ℕ, max, false, none, List, [], ◌∷◌}
use moot.Common.Dict
use moot.Common.Dict.{Dict}
use moot.Core.Clock.{Clock}
use moot.Core.Config.{Config}
use moot.Core.Proto.Json.{Json}
use moot.Core.Frame.{Record}
use moot.Core.Server.{new_client}
use moot.Core.Hub.State.{Host, Hub}
use moot.Core.Hub.Route.{last_n}
use moot.Core.Hub.Hello.Backlog.{id_value}

-- the largest id of the records, 0 if there is none
unfoldable pub largest_id : List (Dict Json) → ℕ
largest_id [] = 0
largest_id (r ∷ rs) = max (id_value (Dict.get "id" r)) (largest_id rs)

-- Every connection is new: a client's number is not used twice.
unfoldable pub new_hub : Host → Config → Clock → List Record → List (Dict Json) → Hub
unfolding largest_id
new_hub host config clock transcript recent = record {
  host = host;
  config = config;
  clock = clock;
  transcript = transcript;
  notices = [];
  goal_file = none;
  connections = λ _. new_client;
  participants = [];
  dead = [];
  round = 0;
  frozen = false;
  muted = false;
  goal = "";
  max_rounds = config.initial_max_rounds;
  last_activity = clock.monotonic;
  stall_latched = false;
  session_done_at = none;
  last_observer_say = none;
  quorum_expected = [];
  quorum_latched = false;
  blocked_notified = [];
  msg_counter = largest_id recent;
  recent = last_n config.recent_window recent;
}
