-- ===== src/Spoke/Ctl/Accept.antt =====
-- The accept loop of the control socket and its shutdown, in every order.
use moot.Common.{
  ℕ, suc, ◌+◌, ◌-◌, ◌≤◌, ◌≡◌, ◌∙◌, refl, ap, Bool, true, false, List, [], ◌∷◌, ◌++◌, arith,
  if◌then◌else◌,
}
use moot.Spoke.Ctl.{
  testing, selecting, accepting, done, Phase, is_done, CtlServer, new_server, shutdown, wake_loop,
  finish, turn, Event, turns, shuts, wakes, run,
}

abbrev bit : Bool → ℕ
bit b = if b then 1 else 0

-- How the accept loop stands to a shutdown: what was sent, is about to be sent, or could not be
-- sent any more is one byte, from the first shutdown on.
record IsOrderly (s : CtlServer) : Type 0 where
  pub count : s.woken + bit s.waking + bit s.broken ≡ bit s.closing
  pub file : is_done s.phase ≡ true → s.bound ≡ false
  pub late : s.broken ≡ true → is_done s.phase ≡ true
  pub shut : is_done s.phase ≡ true → s.closing ≡ true

turn-IsOrderly : (ready : Bool) (s : CtlServer) → IsOrderly s → IsOrderly (turn ready s)
unfolding turn finish is_done
turn-IsOrderly ready s v = record {
  count = ground (arith, v.count);
  file = ground (arith, v.file);
  late = ground (arith, v.late);
  shut = ground (arith, v.shut);
}

shutdown-IsOrderly : (s : CtlServer) → IsOrderly s → IsOrderly (shutdown s)
unfolding shutdown is_done
shutdown-IsOrderly s v = record {
  count = ground (arith, v.count);
  file = ground (arith, v.file);
  late = ground (arith, v.late);
  shut = ground (arith, v.shut);
}

wake_loop-IsOrderly : (s : CtlServer) → IsOrderly s → IsOrderly (wake_loop s)
unfolding wake_loop is_done
wake_loop-IsOrderly s v = record {
  count = ground (arith, v.count);
  file = ground (arith, v.file);
  late = ground (arith, v.late);
  shut = ground (arith, v.shut);
}

run-IsOrderly : (events : List Event) (s : CtlServer) → IsOrderly s → IsOrderly (run events s)
unfolding run
run-IsOrderly [] s v = v
run-IsOrderly (turns ready ∷ events) s v =
    run-IsOrderly events (turn ready s) (turn-IsOrderly ready s v)
run-IsOrderly (shuts ∷ events) s v = run-IsOrderly events (shutdown s) (shutdown-IsOrderly s v)
run-IsOrderly (wakes ∷ events) s v = run-IsOrderly events (wake_loop s) (wake_loop-IsOrderly s v)

abbrev pub count_turns : List Event → ℕ
count_turns [] = 0
count_turns (turns ready ∷ events) = suc (count_turns events)
count_turns (shuts ∷ events) = count_turns events
count_turns (wakes ∷ events) = count_turns events

-- the connections that the loop has made up its mind to take
abbrev pub under_way : Phase → ℕ
under_way testing = 0
under_way selecting = 0
under_way accepting = 1
under_way done = 0

-- the steps that are left to a loop that has been told to end
abbrev left : Phase → ℕ
left testing = 1
left selecting = 1
left accepting = 2
left done = 0

-- A server whose shutdown has returned.
record IsTold (s : CtlServer) : Type 0 where
  closing : s.closing ≡ true
  waking : s.waking ≡ false
  orderly : IsOrderly s

turn_told :
    (ready : Bool) (s : CtlServer)
    → IsTold s
    → (left (turn ready s).phase ≤ left s.phase - 1)
      × ((turn ready s).accepted + under_way (turn ready s).phase ≡ s.accepted + under_way s.phase)
      × ((turn ready s).closing ≡ true)
      × ((turn ready s).waking ≡ false)
unfolding turn finish is_done
turn_told ready s v = ground (arith, v.closing, v.waking, v.orderly.count, v.orderly.late)

shutdown_told : (s : CtlServer) → IsTold s → shutdown s ≡ s
unfolding shutdown
shutdown_told s v = simp (shutdown, v.closing)

wake_loop_told : (s : CtlServer) → IsTold s → wake_loop s ≡ s
unfolding wake_loop
wake_loop_told s v = simp (wake_loop, v.waking)

run_told :
    (later : List Event) (s : CtlServer)
    → IsTold s
    → left s.phase ≤ count_turns later
    → (left (run later s).phase ≡ 0)
      × ((run later s).accepted + under_way (run later s).phase ≡ s.accepted + under_way s.phase)
      × ((run later s).closing ≡ true)
      × ((run later s).waking ≡ false)
unfolding run
run_told [] s v h = (omega arith, refl, v.closing, v.waking)
run_told (turns ready ∷ later) s v h =
    let (less, same, closing, waking) = turn_told ready s v in
    let orderly = turn-IsOrderly ready s v.orderly in
    let told : IsTold (turn ready s) = record {
      closing = closing;
      waking = waking;
      orderly = orderly;
    } in
    let (over, kept, shut, woken) = run_told later (turn ready s) told (omega arith) in
    (over, kept ∙ same, shut, woken)
run_told (shuts ∷ later) s v h =
    rw (ap (λ x. run later x) (shutdown_told s v)) (run_told later s v h)
run_told (wakes ∷ later) s v h =
    rw (ap (λ x. run later x) (wake_loop_told s v)) (run_told later s v h)

run-append :
    (events later : List Event) (s : CtlServer) → run (events ++ later) s ≡ run later (run events s)
unfolding run
run-append [] later s = refl
run-append (turns ready ∷ events) later s = run-append events later (turn ready s)
run-append (shuts ∷ events) later s = run-append events later (shutdown s)
run-append (wakes ∷ events) later s = run-append events later (wake_loop s)

left_none : (phase : Phase) → left phase ≡ 0 → (phase ≡ done) × (under_way phase ≡ 0)
left_none done e = (refl, refl)
left_none testing e = absurd (omega (arith, e))
left_none selecting e = absurd (omega (arith, e))
left_none accepting e = absurd (omega (arith, e))

-- Whatever the accept loop and the callers of shutdown did before: once a shutdown has returned, the
-- loop is over after two more of its steps, its socket's file is gone, no connection is accepted
-- but one that the loop was already past its test for, and the wake socket was written to once, or
-- once in vain after the loop had ended.
pub run_shut :
    (events later : List Event)
    → (run events new_server).closing ≡ true
    → (run events new_server).waking ≡ false
    → 2 ≤ count_turns later
    → let s = run events new_server in
      let t = run (events ++ later) new_server in
      (t.phase ≡ done)
      × (t.bound ≡ false)
      × (t.accepted ≡ s.accepted + under_way s.phase)
      × (t.woken + bit t.broken ≡ 1)
unfolding is_done
run_shut events later c w h =
    let s = run events new_server in
    let fresh : IsOrderly new_server = record {
      count = refl;
      file = ground arith;
      late = ground arith;
      shut = ground arith;
    } in
    let v = run-IsOrderly events new_server fresh in
    let told : IsTold s = record { closing = c; waking = w; orderly = v } in
    let (over, kept, shut, woken) = run_told later s told (soon s.phase) in
    let (end, none_left) = left_none (run later s).phase over in
    let t = run-IsOrderly later s v in
    rw (run-append events later new_server) (
      end,
      t.file (ap is_done end),
      omega (arith, kept, none_left),
      ground (arith, t.count, shut, woken),
    )
  where
    soon : (phase : Phase) → left phase ≤ count_turns later
    soon testing = omega (arith, h)
    soon selecting = omega (arith, h)
    soon accepting = h
    soon done = omega (arith, h)
