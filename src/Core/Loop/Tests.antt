-- ===== src/Core/Loop/Tests.antt =====
-- A run of the server: a tick, and the hello of a participant.
use moot.Common.{some, [], false}
use moot.Common.Int.{pos}
use moot.Core.Config.{default_config}
use moot.Core.Proto.Json.{Json, Fields, end, field}
use moot.Core.Proto.Validate.{ok}
use moot.Core.Hub.State.{Hub}
use moot.Core.Hub.Init.{new_hub}
use moot.Core.Hub.Seated.{IsSeated}
use moot.Core.Hub.Budget.{InBudget}
use moot.Core.Hub.Tests.{host, clock, default-IsSane}
use moot.Core.Loop.{Decoder, line, arrives, ticks, step, Reached, here, then_on}
use moot.Core.Loop.Reachable.{Reached-IsSeated, Reached-InBudget}

abbrev hello : Fields
hello = field "t" (Json.str "hello") (
    field "proto" (Json.int (pos 1))
      (field "name" (Json.str "alpha") (field "kind" (Json.str "agent") end)))

abbrev decoder : Decoder
decoder = record { utf8 = λ _. some "{}"; loads = λ _. ok (Json.obj hello); is_blank = λ _. false }

abbrev start : Hub
start = new_hub host default_config clock [] []

abbrev joined : Hub
joined = step decoder 1_000 (arrives 1 (line [])) (step decoder 1_000 ticks start)

joined-Reached : Reached decoder 1_000 start joined
joined-Reached = then_on (arrives 1 (line [])) (then_on ticks here)

Reached-IsSeated_example : IsSeated joined
Reached-IsSeated_example =
    Reached-IsSeated host default_config clock [] [] decoder 1_000 joined default-IsSane
      joined-Reached

Reached-InBudget_example : InBudget joined
Reached-InBudget_example =
    Reached-InBudget host default_config clock [] [] decoder 1_000 joined default-IsSane
      joined-Reached
