-- ===== src/Spoke/Stream/Tests.antt =====
-- The stream at concrete inputs.
use moot.Common.{ℕ, zero, suc, ◌+◌, ◌*◌, ◌≤◌, ◌≢◌, refl, arith, ◌≡◌, true, false, none, [], ◌∷◌}
use moot.Core.Hub.State.{Host}
use moot.Spoke.Stream.{
  Stream, new_stream, slot_of, begin_say, end_say, leave, give_up_waiting, hub_gone, begins, ends,
  fails, Runs, here, then_on, go_live, relay_state, take_over,
}
use moot.Common.Dict.{Dict}
use moot.Core.Proto.Json.{Json}
use moot.Spoke.Stream.Waits.{IsReplied, Runs-IsReplied}
use moot.Spoke.Stream.Reconnect.{Try, unreachable, delay, reconnect, Waits, reconnect_ends}

abbrev host : Host
host = record {
  sha256_hex = λ s. s;
  repr = λ s. s;
  repr_value = λ v. "value";
  str_of = λ v. "value";
  split = λ s. s ∷ [];
  casefold = λ s. s;
  strip = λ s. s;
  time_of_day = λ t. "12:00:00";
}

abbrev start : Stream
start = new_stream 0 "alpha" "claude" ""

-- a say is registered, the hub closes, and the waiting says are failed
abbrev after_ask : Stream
after_ask = (begin_say start).1

abbrev gone : Stream
gone = give_up_waiting (leave after_ask)

gone-Runs : Runs host start gone
unfolding begin_say new_stream leave
gone-Runs =
    then_on (leave after_ask) gone
      (then_on after_ask (leave after_ask) (then_on start after_ask here (begins start))
        (ends after_ask refl))
      (fails (leave after_ask) refl)

Runs-IsReplied_example : IsReplied 1 gone (end_say 1 gone).0
unfolding begin_say new_stream leave give_up_waiting slot_of
Runs-IsReplied_example =
    Runs-IsReplied host 0 "alpha" "claude" "" gone 1 (hub_gone ∷ []) gone-Runs refl

-- a hub that does not come back
abbrev tries : ℕ → Try
tries k = record { stopped = false; outcome = unreachable; clock = 3_000 + 5_000 * k }

tries-Waits : Waits tries 0
unfolding delay
tries-Waits = record { first = omega arith; next = later }
  where
    later : (k : ℕ) → (tries k).clock + delay (suc k) ≤ (tries (suc k)).clock
    later zero = omega arith
    later (suc k) = omega arith

reconnect_ends_example : reconnect tries 0 ≢ none
reconnect_ends_example = reconnect_ends tries 0 tries-Waits

abbrev idle : Dict Json
idle = ("t", Json.str "state") ∷ ("state", Json.str "idle") ∷ []

-- A state that is reported between the take-over and `live` reaches no connection.
lost : (go_live none (relay_state true idle (take_over 1 gone))).sent ≡ gone.sent
unfolding go_live relay_state take_over begin_say new_stream leave give_up_waiting
lost = refl
