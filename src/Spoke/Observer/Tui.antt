-- ===== src/Spoke/Observer/Tui.antt =====
-- spoke/observer.py: the keys of the seat with a terminal. `none` is an exception,
-- which ends the seat. A terminal has at least three rows more than its footer.
pub mod Reader
pub mod Laws
use Prim.Native.String.{String}
use moot.Common.{
  ℕ, zero, suc, ◌+◌, ◌-◌, codes, Bool, true, false, not, ◌&&◌, ◌||◌, Option, none, some, List, [],
  ◌∷◌, ◌++◌, ◌==◌, any, eqb, is_empty, if◌then◌else◌,
}
use moot.Common.Dict
use moot.Common.Dict.{Dict}
use moot.Common.Int.{ℤ, pos, negsuc}
use moot.Core.Hub.State.{Host}
use moot.Core.Proto.Json.{Json}
use moot.Spoke.Terminal.Width.{display_form}
use moot.Spoke.Terminal.Editor.{
  Editor, insert, newline, submit, Act, act, backspaces, deletes, goes_left, goes_right, goes_home,
  goes_end, jumps_left, jumps_right, kills_word, kills_to_end, kills_all, prev, next,
}
use moot.Spoke.Terminal.History
use moot.Spoke.Terminal.History.{History, Lines}
use moot.Spoke.Terminal.Keys.{Key, char, paste, enter, alt_enter, named}
use moot.Spoke.Terminal.Screen.{
  Screen, region_bottom, print_lines, note, error, clear, redraw_footer, set_status,
}
use moot.Spoke.Observer.Parse.{strip}
use moot.Spoke.Observer.Seat.{Seat, Echo, observe, record_own, msg_id, str_or_empty}
use moot.Spoke.Observer.Pretty.{Pretty, echo_lines}
use moot.Spoke.Observer.Lines
use moot.Spoke.Observer.Command.{build_outgoing}
use moot.Spoke.Observer.Command.Replies.{World, Outgoing, Reply}
use moot.Spoke.Observer.Status.{status_band}

-- What the loops use besides: the text with these code points, whether a frame is too long when it
-- is encoded, the history's library and, where its file cannot be written, the error, and the
-- clock.
pub record Terminal : Type 0 where
  pub world : World
  pub host : Host
  pub text : List ℕ → String
  pub too_long : Dict Json → Bool
  pub lines : Lines
  pub history_error : Option (List ℕ)
  pub now : ℕ

pub record Ui : Type 0 where
  pub editor : Editor
  pub screen : Screen
  pub history : History
  pub history_failed : Bool
  pub seat : Seat
  pub pretty : Pretty
  pub sent : List (Dict Json)
  pub closed : Bool
  pub quit : Bool

unfoldable pub show_error : List ℕ → Ui → Ui
show_error text s = record s { screen = error text s.screen }

unfoldable pub record_line : Terminal → List ℕ → Ui → Ui
unfolding show_error
record_line w line s = if s.history_failed then s else elim w.history_error [
  | none ↦ record s { history = History.append w.lines line s.history }
  | some detail ↦
      show_error (codes "[history: " ++ detail ++ codes "]") (record s { history_failed = true })
]

-- `seat.pending.update(out.echo)`
unfoldable pub expect : List (ℕ × Echo) → List (ℕ × Echo) → List (ℕ × Echo)
expect [] pending = pending
expect (e ∷ es) pending = expect es (e ∷ without e.0 pending)
  where
    without : ℕ → List (ℕ × Echo) → List (ℕ × Echo)
    without n [] = []
    without n (p ∷ ps) = let rest = without n ps in if eqb p.0 n then rest else p ∷ rest

-- the frames of a line that was taken: the echoes first, as an answer can come at once
unfoldable pub send_frames : Outgoing → Ui → Ui
unfolding show_error expect
send_frames out s =
    if is_empty out.frames
    then s
    else if s.closed
    then show_error (codes "[hub is gone — nothing sent]") s
    else record s {
      seat = record s.seat { pending = expect out.echo s.seat.pending };
      sent = s.sent ++ out.frames;
    }

unfoldable pub ignored_note : List ℕ → Outgoing → Ui → Ui
ignored_note text out s =
    if out.ignored
    then record s { screen = note (codes "[ignored] " ++ display_form text) s.screen }
    else s

-- a line that was neither refused nor too long
unfoldable pub take_line : Terminal → Reply → Ui → Ui
unfolding record_line ignored_note send_frames
take_line w r s =
    let (text, editor) = submit w.world.place.unicode s.editor in
    let t = ignored_note text r.out (record_line w text (record s { editor = editor })) in
    send_frames r.out (record t { screen = print_lines r.out.local t.screen })

unfoldable pub on_reply : Terminal → Reply → Ui → Ui
unfolding show_error take_line
on_reply w r s =
    let t = record s { seat = r.seat; pretty = r.pretty } in
    elim r.out.error [
      | some detail ↦ show_error (codes detail) t
      | none ↦
          if any w.too_long r.out.frames
          then show_error (codes "[too long — not sent]") t
          else take_line w r t
    ]

unfoldable pub press_enter : Terminal → Ui → Option Ui
unfolding on_reply
press_enter w s =
    let stripped = strip w.world.place.unicode.is_space (w.text s.editor.buf) in
    if stripped == ""
    then some (record s { editor = (submit w.world.place.unicode s.editor).1 })
    else elim (build_outgoing w.world stripped (region_bottom s.screen - 2) s.seat s.pretty) [
      | none ↦ none
      | some r ↦ some (on_reply w r s)
    ]

-- the keys that act on the editor alone
unfoldable pub act_of : String → Option Act
act_of name =
    if name == "left"
    then some goes_left
    else if name == "right"
    then some goes_right
    else if name == "home" || (name == "ctrl_a")
    then some goes_home
    else if name == "end" || (name == "ctrl_e")
    then some goes_end
    else if name == "backspace"
    then some backspaces
    else if name == "delete"
    then some deletes
    else if name == "up"
    then some prev
    else if name == "down"
    then some next
    else if name == "ctrl_k"
    then some kills_to_end
    else if name == "ctrl_u"
    then some kills_all
    else if name == "ctrl_w"
    then some kills_word
    else if name == "alt_b"
    then some jumps_left
    else if name == "alt_f"
    then some jumps_right
    else none

unfoldable pub edit : Terminal → Act → Ui → Ui
edit w a s = record s { editor = act w.world.place.unicode a s.editor }

-- on an empty buffer the key ends the seat
unfoldable pub edit_or_quit : Terminal → Act → Ui → Ui
unfolding edit
edit_or_quit w a s = if is_empty s.editor.buf then record s { quit = true } else edit w a s

unfoldable pub press_named : Terminal → String → Ui → Ui
unfolding act_of edit edit_or_quit
press_named w name s = elim (act_of name) [
  | some a ↦ edit w a s
  | none ↦
      if name == "ctrl_l"
      then record s { screen = clear s.screen }
      else if name == "ctrl_c"
      then edit_or_quit w kills_all s
      else if name == "ctrl_d"
      then edit_or_quit w deletes s
      else s
]

unfoldable pub press_key : Terminal → Key → Ui → Option Ui
unfolding press_enter press_named
press_key w (char text) s = some (record s { editor = insert text s.editor })
press_key w (paste text) s = some (record s { editor = insert text s.editor })
press_key w alt_enter s = some (record s { editor = newline s.editor })
press_key w enter s = press_enter w s
press_key w (named name) s = some (press_named w name s)

unfoldable pub redrawn : Terminal → Ui → Ui
redrawn w s = record s { screen = redraw_footer w.world.place.unicode s.editor s.screen }

-- `for key in keys`, until one of them ends the seat
unfoldable pub press : Terminal → List Key → Ui → Option Ui
unfolding redrawn
press w [] s = some s
press w (key ∷ keys) s = elim (press_key w key s) [
  | none ↦ none
  | some t ↦ elim t.quit [ true ↦ some t | false ↦ press w keys (redrawn w t) ]
]
