-- ===== src/Spoke/Observer/Tui/Reader.antt =====
-- spoke/observer.py: the reader thread of the seat with a terminal.
use moot.Spoke.Observer.Tui.{Terminal, Ui}
use moot.Common.{
  ℕ, codes, Bool, true, false, ◌&&◌, Option, none, some, List, [], ◌∷◌, ◌++◌, ◌==◌, eqb,
  if◌then◌else◌,
}
use moot.Common.Dict
use moot.Common.Dict.{Dict}
use moot.Common.Int.{pos, negsuc}
use moot.Core.Proto.Json.{Json}
use moot.Spoke.Terminal.Screen.{print_lines, set_status}
use moot.Spoke.Observer.Seat.{Seat, Echo, observe, record_own, msg_id, str_or_empty}
use moot.Spoke.Observer.Pretty.{echo_lines}
use moot.Spoke.Observer.Lines
use moot.Spoke.Observer.Status.{status_band}

abbrev pub pong_frame : Dict Json
pong_frame = ("t", Json.str "pong") ∷ []

-- the echo with a number, and the others
unfoldable pub pop : ℕ → List (ℕ × Echo) → Option Echo × List (ℕ × Echo)
pop n [] = (none, [])
pop n ((m, e) ∷ rest) =
    let (found, left) = pop n rest in if eqb m n then (some e, rest) else (found, (m, e) ∷ left)

-- a Boolean is a number too
unfoldable pub pop_seq : Dict Json → Seat → Option Echo × Seat
unfolding pop
pop_seq frame s = elim (Dict.get "seq" frame) [
  | some (Json.int (pos n)) ↦ popped n
  | some (Json.bool b) ↦ popped (if b then 1 else 0)
  | _ ↦ (none, s)
]
  where
    popped : ℕ → Option Echo × Seat
    popped n = let (echo, left) = pop n s.pending in (echo, record s { pending = left })

-- the count of a frame of the hub, which is at least zero
unfoldable pub queued_of : Dict Json → ℕ
queued_of frame = elim (Dict.get "queued" frame) [ some (Json.int (pos n)) ↦ n | _ ↦ 0 ]

-- the answer to a say: its echo is printed, and recorded under the id that the hub gave it
unfoldable pub on_ok : Terminal → Dict Json → Ui → Ui
unfolding pop_seq queued_of
on_ok w frame s =
    let (info, seat) = pop_seq frame s.seat in
    elim info [
      | none ↦ record s { seat = seat }
      | some echo ↦
          let id = msg_id frame in
          let (rows, pretty) =
            echo_lines w.world.place echo.to echo.kind (codes echo.text) (queued_of frame) id
              echo.private s.pretty in
          record s {
            seat = elim id [ none ↦ seat | some n ↦ record_own n echo w.now seat ];
            pretty = pretty;
            screen = print_lines rows s.screen;
          }
    ]

unfoldable pub is_poll : Dict Json → Bool
is_poll frame = elim (Dict.get "seq" frame) [ some (Json.int (negsuc n)) ↦ true | _ ↦ false ]

unfoldable pub on_poll : Terminal → Dict Json → Ui → Option Ui
on_poll w frame s = elim (observe frame s.seat) [
  | none ↦ none
  | some seat ↦ elim (status_band w.world.place.unicode w.host frame s.screen.cols seat.me) [
    | none ↦ none
    | some text ↦
        some (record s { seat = seat; screen = set_status w.world.place.unicode text s.screen })
  ]
]

unfoldable pub on_other : Terminal → Dict Json → Ui → Option Ui
on_other w frame s = elim (observe frame s.seat) [
  | none ↦ none
  | some seat ↦ elim (Lines.lines w.world.place w.host frame s.pretty) [
    | none ↦ none
    | some (rows, pretty) ↦
        some (record s { seat = seat; pretty = pretty; screen = print_lines rows s.screen })
  ]
]

-- one frame of the hub, in the reader thread
unfoldable pub on_frame : Terminal → Dict Json → Ui → Option Ui
unfolding on_ok on_poll on_other is_poll pop_seq
on_frame w frame s =
    let t = str_or_empty (Dict.get "t" frame) in
    if t == "ping"
    then some (record s { sent = s.sent ++ pong_frame ∷ [] })
    else if t == "ok"
    then some (on_ok w frame s)
    else if t == "err"
    then on_other w frame (record s { seat = (pop_seq frame s.seat).1 })
    else if (t == "roster") && is_poll frame
    then on_poll w frame s
    else on_other w frame s
