-- ===== src/Core/Loop/Reachable.antt =====
-- What holds of every hub that a run of the server can reach.
use moot.Common.{ℕ, ◌≡◌, refl, Bool, none, List, arith, if_intro}
use moot.Common.Dict.{Dict}
use moot.Core.Clock.{Clock}
use moot.Core.Config.{Config}
use moot.Core.Proto.{frame_too_large}
use moot.Core.Proto.Json.{Json}
use moot.Core.Proto.Validate.{Check, ok, raise}
use moot.Core.Frame.{Record}
use moot.Core.Server
use moot.Core.Server.{StreamClient}
use moot.Core.Hub.State.{Host, Hub}
use moot.Core.Hub.Lifecycle.{disconnect}
use moot.Core.Hub.Watchdog.{watchdog_tick}
use moot.Core.Hub.Dispatch.{handle}
use moot.Core.Hub.Init.{new_hub}
use moot.Core.Hub.Quiet.{Quiet, err_raw-Quiet, at_client-Quiet}
use moot.Core.Hub.Sound.{IsSane}
use moot.Core.Hub.Seated.{IsSeated, Quiet-IsSeated}
use moot.Core.Hub.Seated.Leaves.{disconnect-IsSeated}
use moot.Core.Hub.Seated.Ticks.{watchdog_tick-IsSeated}
use moot.Core.Hub.Seated.Frames.{handle-IsSeated, new_hub-IsSeated}
use moot.Core.Hub.Budget.{InBudget, Quiet-InBudget}
use moot.Core.Hub.Budget.Frames.{disconnect-InBudget, handle-InBudget, new_hub-InBudget}
use moot.Core.Hub.Budget.Ticks.{watchdog_tick-InBudget}
use moot.Core.Loop.{
  Decoder, parse_line, Input, line, eof, too_long, broken, answer, read_round, Event, arrives, ends,
  writes, write_fails, ticks, passes, step, Reached, here, then_on,
}

-- What every part of the hub keeps, the loops keep.
record IsKept (P : Hub → Type 0) : Type 0 where
  quiet : {h h' : Hub} → Quiet h h' → P h → P h'
  handled : (c : ℕ) (frame : Dict Json) (h : Hub) → P h → P (handle c frame h)
  left : (c : ℕ) (h : Hub) → P h → P (disconnect c h)
  ticked : (h : Hub) → P h → P (watchdog_tick h)
  waited : (clock : Clock) (h : Hub) → P h → P (record h { clock = clock })

name-write_step : (s : StreamClient) → (Server.write_step s).name ≡ s.name
unfolding Server.write_step
name-write_step s = ground arith

name-write_failed : (s : StreamClient) → (Server.write_failed s).name ≡ s.name
unfolding Server.write_failed Server.abort
name-write_failed s = refl

module _ {P : Hub → Type 0} (k : IsKept P) (d : Decoder) (max_bytes : ℕ) where
  answer-keeps : (c : ℕ) (m : Check (Dict Json)) (h : Hub) → P h → P (answer c m h).0
  unfolding answer
  answer-keeps c (raise code detail) h v = k.quiet (err_raw-Quiet c code detail none h) v
  answer-keeps c (ok frame) h v = k.handled c frame h v

  read_round-keeps :
      (c : ℕ) (input : Input) (h : Hub) → P h → P (read_round d max_bytes c input h).0
  unfolding read_round
  read_round-keeps c (line bytes) h v =
      if_intro (λ (r : Hub × Bool). P r.0) (d.is_blank bytes) (λ _. v)
        (λ _. answer-keeps c (parse_line d bytes) h v)
  read_round-keeps c eof h v = v
  read_round-keeps c too_long h v = k.quiet (err_raw-Quiet c frame_too_large _ none h) v
  read_round-keeps c broken h v = v

  step-keeps : (e : Event) (h : Hub) → P h → P (step d max_bytes e h)
  unfolding step
  step-keeps (arrives c input) h v = read_round-keeps c input h v
  step-keeps (ends c) h v = k.left c h v
  step-keeps (writes c) h v = k.quiet (at_client-Quiet c Server.write_step h name-write_step) v
  step-keeps (write_fails c) h v =
      k.quiet (at_client-Quiet c Server.write_failed h name-write_failed) v
  step-keeps ticks h v = k.ticked h v
  step-keeps (passes clock) h v = k.waited clock h v

  Reached-keeps : {start h : Hub} → Reached d max_bytes start h → P start → P h
  Reached-keeps here v = v
  Reached-keeps (then_on e r) v = step-keeps e _ (Reached-keeps r v)

IsSeated-IsKept : IsKept IsSeated
IsSeated-IsKept = record {
  quiet = Quiet-IsSeated;
  handled = handle-IsSeated;
  left = disconnect-IsSeated;
  ticked = watchdog_tick-IsSeated;
  waited = λ clock h v. v;
}

InBudget-IsKept : IsKept InBudget
InBudget-IsKept = record {
  quiet = Quiet-InBudget;
  handled = handle-InBudget;
  left = disconnect-InBudget;
  ticked = watchdog_tick-InBudget;
  waited = λ clock h v. v;
}

-- Whatever the connections send and whenever they fail, in any interleaving with the writers, the
-- watchdog and the clock: a hub that starts on a sane configuration has no name twice, every
-- participant is listed under its own nonempty name and sits on a connection of that name, and
-- every participant's context, queue and their kinds of message are within bounds, the registrations
-- of those who left included.
pub Reached-IsSeated :
    (host : Host) (config : Config) (clock : Clock) (transcript : List Record)
    (recent : List (Dict Json)) (d : Decoder) (max_bytes : ℕ) (h : Hub)
    → IsSane config
    → Reached d max_bytes (new_hub host config clock transcript recent) h
    → IsSeated h
Reached-IsSeated host config clock transcript recent d max_bytes h sane r =
    Reached-keeps IsSeated-IsKept d max_bytes r
      (new_hub-IsSeated host config clock transcript recent sane)

-- Such a hub is frozen or has rounds left, and its limit on rounds is positive.
pub Reached-InBudget :
    (host : Host) (config : Config) (clock : Clock) (transcript : List Record)
    (recent : List (Dict Json)) (d : Decoder) (max_bytes : ℕ) (h : Hub)
    → IsSane config
    → Reached d max_bytes (new_hub host config clock transcript recent) h
    → InBudget h
Reached-InBudget host config clock transcript recent d max_bytes h sane r =
    Reached-keeps InBudget-IsKept d max_bytes r
      (new_hub-InBudget host config clock transcript recent sane)
