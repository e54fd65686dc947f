-- ===== src/Spoke/Ctl/Tests.antt =====
-- The control socket at concrete inputs.
use moot.Common.{
  ◌+◌, ◌≡◌, refl, arith, true, false, none, some, List, [], ◌∷◌, ◌++◌, ◌==◌, length, eqb,
  if◌then◌else◌,
}
use moot.Core.Proto.Json.{Json, Fields, field, end}
use moot.Spoke.Ctl.{
  Place, broken, value, done, new_server, turns, shuts, wakes, Event, wake_loop, is_done, finish,
  run, Turn, bytes_of, read_hook_json, shutdown, turn,
}
use moot.Spoke.Ctl.Accept.{under_way, run_shut}
use moot.Spoke.Ctl.Laws.{read_hook_json_whole}

abbrev whoami : Fields
whoami = field "t" (Json.str "whoami") end

abbrev gone : Fields
gone = field "t" (Json.str "gone") end

-- a codec for these two frames, and for bytes that end with a brace
abbrev place : Place
place = record {
  loads = λ s.
      if s == "whoami\n"
      then value (Json.obj whoami)
      else if s == "gone\n"
      then value (Json.obj gone)
      else broken "no";
  dumps = λ d. elim d [ (k, Json.str t) ∷ rest ↦ t | _ ↦ "null" ];
  strip = λ s. s;
  decode = λ bs. some "";
  is_json = λ bs. eqb (length bs) 2;
}

-- A connection is served; shutdown comes when the next one has passed the test, and its byte is
-- sent while that is accepted.
abbrev before : List Event
before = turns true ∷ turns true ∷ turns true ∷ turns true ∷ turns true ∷ shuts ∷ wakes ∷ []

run_shut_example :
    let s = run before new_server in
    let t = run (before ++ (shuts ∷ turns false ∷ turns true ∷ [])) new_server in
    (t.phase ≡ done)
    × (t.bound ≡ false)
    × (t.accepted ≡ s.accepted + under_way s.phase)
    × (t.woken + (if t.broken then 1 else 0) ≡ 1)
unfolding run turn shutdown wake_loop is_done
run_shut_example = run_shut before (shuts ∷ turns false ∷ turns true ∷ []) refl refl (omega arith)

one_late : (run before new_server).accepted + under_way (run before new_server).phase ≡ 2
unfolding run turn shutdown wake_loop is_done
one_late = refl

-- The loop sees `set` at its test and ends before the `send`, which then raises.
races : (run (shuts ∷ turns false ∷ wakes ∷ []) new_server).broken ≡ true
unfolding run turn shutdown wake_loop is_done finish
races = refl

-- two bytes in two pieces, and a third piece that nobody reads
abbrev pieces : List Turn
pieces =
    record { clock = 1; chunk = some (123 ∷ []) }
    ∷ record { clock = 2; chunk = some (125 ∷ []) }
    ∷ []

read_hook_json_whole_example :
    read_hook_json place 5 [] (pieces ++ record { clock = 3; chunk = some (10 ∷ []) } ∷ [])
    ≡ some (123 ∷ 125 ∷ [])
unfolding bytes_of
read_hook_json_whole_example =
    read_hook_json_whole place 5 [] (record { clock = 1; chunk = some (123 ∷ []) })
      (record { clock = 2; chunk = some (125 ∷ []) } ∷ [])
      (record { clock = 3; chunk = some (10 ∷ []) } ∷ [])
      (refl, (123 ∷ [], refl, refl), refl, (refl, (125 ∷ [], refl, refl), refl))

-- half of the input comes before the deadline
abbrev chunks : List Turn
chunks = record { clock = 1; chunk = some (123 ∷ []) } ∷ record { clock = 9; chunk = none } ∷ []

-- Half an object is returned where its rest comes after the deadline.
half : read_hook_json place 5 [] chunks ≡ some (123 ∷ [])
unfolding read_hook_json bytes_of
half = refl
