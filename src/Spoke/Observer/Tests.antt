-- ===== src/Spoke/Observer/Tests.antt =====
-- The seat at concrete inputs.
use moot.Common.{
  ◌≡◌, refl, subst, codes, true, false, none, some, List, [], ◌∷◌, ◌++◌, ◌==◌, inl, All, eqb,
  is_empty, if◌then◌else◌, arith,
}
use mathlib.Core.Option.{none-ne-some, some-injective}
use moot.Common.Dict
use moot.Common.Dict.{Dict}
use moot.Common.Int.{pos}
use moot.Core.Hub.State.{Host}
use moot.Core.Proto.Json
use moot.Core.Proto.Json.{Json, field, end, cons, nil}
use moot.Core.Proto.Names.{control_char_pos}
use moot.Core.Transcript.{Library}
use moot.Spoke.Terminal.{Unicode}
use moot.Spoke.Terminal.Editor.{new_editor, kill_all, kills_all, act}
use moot.Spoke.Terminal.Editor.Laws.{IsValid}
use moot.Spoke.Terminal.History.{corrupt, new_history}
use moot.Spoke.Terminal.Keys.{Key, named}
use moot.Spoke.Terminal.Screen.{new_screen}
use moot.Spoke.Observer.Parse
use moot.Spoke.Observer.Parse.{prefix_step, prefixes, no_prefixes}
use moot.Spoke.Observer.Parse.Clean.{control_char_pos-IsClean}
use moot.Spoke.Observer.Seat
use moot.Spoke.Observer.Seat.{Entry, Seat, new_seat, observe_msgs}
use moot.Spoke.Observer.Seat.Lookup.{known_peer, transcript_msgs}
use moot.Spoke.Observer.Seat.Laws.{IsTail, entries_in, observe_msgs-IsTail}
use moot.Spoke.Observer.Pretty.{Pretty}
use moot.Spoke.Observer.Tui.{
  Terminal, Ui, act_of, edit, edit_or_quit, redrawn, press_named, press_key, press,
}
use moot.Spoke.Observer.Tui.Laws.{press-IsValid}
use moot.Spoke.Observer.Command.{build_outgoing}
use moot.Spoke.Observer.Command.Quote.{question}
use moot.Spoke.Observer.Command.Replies.{World, Reply, sends_say}
use moot.Spoke.Observer.Command.Accepted.{IsCleanEntry}
use moot.Spoke.Observer.Command.Sound.{IsSound}
use moot.Spoke.Observer.Command.Sent.{
  IsAccepted, build_outgoing-IsAccepted, IsNumbered, build_outgoing-IsNumbered,
}

abbrev host : Host
host = record {
  sha256_hex = λ s. s;
  repr = λ s. s;
  repr_value = λ v. "value";
  str_of = λ v. "value";
  split = λ s. s ∷ [];
  casefold = λ s. s;
  strip = λ s. s;
  time_of_day = λ t. "12:00:00";
}

abbrev unicode : Unicode
unicode = record { combining = λ _. false; east_asian_width = λ _. "N"; is_space = λ o. eqb o 0x20 }

abbrev library : Library
library = record {
  loads = λ _. none;
  dumps = λ _. "null";
  strip = λ s. s;
  date_before = λ d t. "2025-01-01";
}

abbrev world : World
world = record {
  python = record {
    repr = λ s. s;
    is_digit = λ s. s == "7";
    int_of = λ s. some 7;
    compile = λ s. inl "no regex";
  };
  place = record { unicode = unicode; time_of = λ _. []; now = [] };
  files = record { library = library; wall = 0; transcripts = none };
}

abbrev said : Entry
said = record {
  id = 7;
  sender = "alpha";
  to = "human";
  kind = "answer";
  text = "yes";
  ts = Json.float 0;
  private = true;
}

-- a seat with one peer and one private message
abbrev seat : Seat
seat = record (new_seat "human") { ring = said ∷ []; peers = ("alpha", "claude") ∷ []; seq = 4 }

abbrev pretty : Pretty
pretty = record { me = "human"; width = 80; color = false; full = false; colors = [] }

seat-IsSound : IsSound world seat
unfolding new_seat known_peer transcript_msgs control_char_pos codes Dict.has Dict.get
seat-IsSound = record {
  ring = (
    record {
      sender = control_char_pos-IsClean "alpha" refl;
      text = control_char_pos-IsClean "yes" refl;
    },
    tt,
  );
  recorded = λ es h. subst (All IsCleanEntry) (some-injective [] es h) tt;
  nobody = refl;
}

-- what quoting the private message sends
abbrev sent : Reply
sent = sends_say (question said "alpha" "why?") seat pretty

quotes : build_outgoing world "/q #7 @alpha why?" 20 seat pretty ≡ some sent
unfolding build_outgoing control_char_pos codes Parse.starts_with Parse.partition Parse.after
    Parse.strip known_peer new_seat Dict.has Dict.get
quotes = refl

build_outgoing-IsAccepted_example : All (IsAccepted host) sent.out.frames
build_outgoing-IsAccepted_example =
    build_outgoing-IsAccepted host world "/q #7 @alpha why?" 20 seat pretty sent seat-IsSound quotes

build_outgoing-IsNumbered_example : IsNumbered seat sent
build_outgoing-IsNumbered_example =
    build_outgoing-IsNumbered world "/q #7 @alpha why?" 20 seat pretty sent seat-IsSound quotes

abbrev entry_8 : Entry
entry_8 = record {
  id = 8;
  sender = "alpha";
  to = "*";
  kind = "note";
  text = "hi";
  ts = Json.float 0;
  private = false;
}

-- a message with an id, as a deliver frame has it
abbrev delivered : List Json
delivered =
    Json.obj (
      field "id" (Json.int (pos 8)) (
        field "from" (Json.str "alpha") (
          field "to" (Json.str "*")
            (field "kind" (Json.str "note") (field "text" (Json.str "hi") end)))))
    ∷ []

observe_msgs-IsTail_example :
    IsTail (record seat { ring = said ∷ entry_8 ∷ [] }).ring ((said ∷ []) ++ entries_in delivered)
unfolding observe_msgs IsTail Dict.get new_seat Json.entries Seat.ring_entry Seat.msg_id Seat.str_at
observe_msgs-IsTail_example =
    observe_msgs-IsTail delivered seat (record seat { ring = said ∷ entry_8 ∷ [] }) (said ∷ []) refl
      refl

-- The text of the code points is taken to be a line to somebody who is not there.
abbrev terminal : Terminal
terminal = record {
  world = world;
  host = host;
  text = λ os. if is_empty os then "" else "@beta hi";
  too_long = λ f. false;
  lines = record { splitlines = λ os. os ∷ []; loads = λ os. corrupt; dumps = λ os. os };
  history_error = none;
  now = 0;
}

abbrev ui : Ui
ui = record {
  editor = record (new_editor []) { buf = codes "@beta hi"; pos = 8 };
  screen = new_screen false none (80, 24);
  history = new_history none;
  history_failed = false;
  seat = seat;
  pretty = pretty;
  sent = [];
  closed = false;
  quit = false;
}

-- After the buffer is cleared Ctrl-D ends the seat, and what is typed behind it is lost.
abbrev keys : List Key
keys = named "ctrl_u" ∷ named "ctrl_d" ∷ named "left" ∷ []

abbrev ended : Ui
ended = record (redrawn terminal (edit terminal kills_all ui)) { quit = true }

ends : press terminal keys ui ≡ some ended
unfolding press redrawn edit new_editor codes press_key press_named act_of edit_or_quit act kill_all
ends = refl

ui-IsValid : IsValid ui.editor
unfolding new_editor codes
ui-IsValid = record { inside = omega arith; shown = λ i h. absurd (none-ne-some i h) }

press-IsValid_example : IsValid ended.editor
press-IsValid_example = press-IsValid terminal keys ui ends ui-IsValid
