-- ===== src/Spoke/Terminal/Tests.antt =====
-- The terminal kit at concrete inputs.
use moot.Common.{
  ℕ, zero, suc, ◌+◌, ◌-◌, min, ◌≤◌, ◌<◌, ◌≡◌, refl, true, false, none, some, List, [], ◌∷◌, ◌++◌,
  All, any, arith, eqb, length, take, drop, keep, is_empty, get_elem?, codes, if◌then◌else◌,
}
use mathlib.Core.Option.{none-ne-some}
use moot.Spoke.Terminal.{Unicode}
use moot.Spoke.Terminal.Width
use moot.Spoke.Terminal.Width.{
  char_width, cell_width, wrap_rows, cursor_row_col, clip_cells, display_form, display_pos,
}
use moot.Spoke.Terminal.Width.Laws.{Fits, joined, not_feed, wrap_rows_lem, cursor_row_col_lem}
use moot.Spoke.Terminal.Width.Drawn.{IsSafe, display_form_lem}
use moot.Spoke.Terminal.Editor.{
  Editor, same_text, history_prev, history_next, word_left, kill_word_back, act, kills_word,
}
use moot.Spoke.Terminal.Editor.Laws.{IsValid, act-IsValid}
use moot.Spoke.Terminal.Editor.Walk.{times, history_lem}
use moot.Spoke.Terminal.Editor.Word.{IsWord, kill_word_back_lem}
use moot.Spoke.Terminal.History
use moot.Spoke.Terminal.History.{
  Lines, entry_of, History, file_entries, is_last, append, whole_text, last_of, history_cap,
  trim_slack,
}
use moot.Spoke.Terminal.History.Laws.{Tracks, ReadsBack, append-reads, append-bounded}
use moot.Spoke.Terminal.Keys.{
  Codec, unix_lines, ground_phase, feed, paste_end, new_parser, ends_with,
}
use moot.Spoke.Terminal.Keys.Laws.{
  feed-bracketed, IsPaste, IsShort, feed-IsShort, open_sequence, ended,
}
use moot.Spoke.Terminal.Screen.{new_screen, divider_line, redraw_footer, prompt, max_input_rows}
use moot.Spoke.Terminal.Screen.Laws.{divider_line_lem, redraw_footer-IsPlaced, IsPlaced}
use moot.Spoke.Terminal.Screen.Drawn.{footer_text}

-- one cell for every character, but two for U+4E2D
abbrev unicode : Unicode
unicode = record {
  combining = λ _. false;
  east_asian_width = λ o. if eqb o 0x4E2D then "W" else "N";
  is_space = λ o. eqb o 0x20;
}

-- "ab", a line feed, two wide characters and "c"
abbrev text : List ℕ
text = 97 ∷ 98 ∷ 10 ∷ 0x4E2D ∷ 0x4E2D ∷ 99 ∷ []

wraps : wrap_rows unicode text 4 ≡ (97 ∷ 98 ∷ []) ∷ (0x4E2D ∷ 0x4E2D ∷ []) ∷ (99 ∷ []) ∷ []
unfolding wrap_rows Width.all_rows Width.wrap_from Width.wrap_char Width.is_wide Width.no_rows
wraps = refl

wrap_rows_lem_example :
    All (Fits unicode 4) (wrap_rows unicode text 4)
    × (joined (wrap_rows unicode text 4) ≡ keep not_feed text)
wrap_rows_lem_example = wrap_rows_lem unicode 4 text (omega arith)

cursor_row_col_lem_example :
    (above : List (List ℕ)) × (row : List ℕ) × (wrap_rows unicode (take 5 text) 4
      ≡ above ++ row ∷ [])
    × (cursor_row_col unicode text 5 4 ≡ (length above, cell_width unicode row))
    × (length above < length (wrap_rows unicode text 4))
    × (cell_width unicode row ≤ 4)
cursor_row_col_lem_example = cursor_row_col_lem unicode 4 text 5 (omega arith)

display_form_lem_example :
    All IsSafe (display_form (27 ∷ 98 ∷ []))
    × (display_form (display_form (27 ∷ 98 ∷ [])) ≡ display_form (27 ∷ 98 ∷ []))
    × (take (display_pos (27 ∷ 98 ∷ []) 1) (display_form (27 ∷ 98 ∷ [])) ≡ display_form (27 ∷ []))
display_form_lem_example = display_form_lem (27 ∷ 98 ∷ []) 1

-- "hi you" with the cursor at the end, and a history of two entries
abbrev typed : Editor
typed = record {
  buf = codes "hi you";
  pos = 6;
  history = codes "one" ∷ codes "two" ∷ [];
  hidx = none;
  stash = [];
}

typed-IsValid : IsValid typed
unfolding codes
typed-IsValid = record { inside = omega arith; shown = λ i h. absurd (none-ne-some i h) }

act-IsValid_example : IsValid (act unicode kills_word typed)
act-IsValid_example = act-IsValid unicode kills_word typed typed-IsValid

history_lem_example :
    (get_elem? typed.history (length typed.history - 2) ≡ some (times 2 history_prev typed).buf)
    × (times 2 history_next (times 2 history_prev typed)
        ≡ record typed { pos = length typed.buf; stash = typed.buf; hidx = none })
history_lem_example = history_lem typed 1 refl (omega arith)

kill_word_back_lem_example :
    IsWord unicode typed.buf (word_left unicode typed).pos typed.pos
    × ((kill_word_back unicode typed).buf
        ≡ take (word_left unicode typed).pos typed.buf ++ drop typed.pos typed.buf)
    × ((kill_word_back unicode typed).pos ≡ (word_left unicode typed).pos)
unfolding codes
kill_word_back_lem_example = kill_word_back_lem unicode typed (omega arith)

divider_line_lem_example :
    cell_width unicode (divider_line unicode (new_screen false none (80, 24)))
    ≡ (new_screen false none (80, 24)).cols
unfolding char_width Width.is_wide
divider_line_lem_example = divider_line_lem unicode (new_screen false none (80, 24)) refl

redraw_footer-IsPlaced_example :
    ((redraw_footer unicode typed (new_screen false none (80, 24))).footer_rows
      ≡ 1
        + min max_input_rows (
            length (
              wrap_rows unicode
                (prompt ++ display_form typed.buf)
                (new_screen false none (80, 24)).cols)))
    × IsPlaced unicode
        (redraw_footer unicode typed (new_screen false none (80, 24)))
        (cursor_row_col unicode
          (prompt ++ display_form typed.buf)
          (length prompt + display_pos typed.buf typed.pos)
          (new_screen false none (80, 24)).cols).0
        (cursor_row_col unicode
          (prompt ++ display_form typed.buf)
          (length prompt + display_pos typed.buf typed.pos)
          (new_screen false none (80, 24)).cols).1
    × ((before : List ℕ) × ((redraw_footer unicode typed (new_screen false none (80, 24))).out
          ≡ before
            ++ footer_text unicode
                (wrap_rows unicode
                  (prompt ++ display_form typed.buf)
                  (new_screen false none (80, 24)).cols)
                (redraw_footer unicode typed (new_screen false none (80, 24)))))
unfolding new_screen
redraw_footer-IsPlaced_example =
    redraw_footer-IsPlaced unicode typed (new_screen false none (80, 24)) (omega arith)
      (omega arith)

-- one character a byte
abbrev latin : Codec
latin = record {
  State = Unit;
  initial = tt;
  decode_byte = λ s b. (b ∷ [], tt);
  decode = λ bytes. bytes;
}

early : (n : ℕ) → n < 8 → ends_with (take n (97 ∷ 13 ∷ paste_end)) paste_end ≡ false
unfolding ends_with same_text
early zero h = refl
early (suc zero) h = refl
early (suc (suc zero)) h = refl
early (suc (suc (suc zero))) h = refl
early (suc (suc (suc (suc zero)))) h = refl
early (suc (suc (suc (suc (suc zero))))) h = refl
early (suc (suc (suc (suc (suc (suc zero)))))) h = refl
early (suc (suc (suc (suc (suc (suc (suc zero))))))) h = refl
early (suc (suc (suc (suc (suc (suc (suc (suc n)))))))) h = absurd (omega arith)

short-IsPaste : IsPaste (97 ∷ 13 ∷ [])
short-IsPaste = record { first = early; short = omega arith }

feed-bracketed_example :
    (feed latin
        (open_sequence ++ ((97 ∷ 13 ∷ []) ++ paste_end))
        (record (new_parser latin) { phase = ground_phase })
      ≡ ended latin (new_parser latin) (97 ∷ 13 ∷ []))
    × (any (eqb 0x0D) (unix_lines (latin.decode (97 ∷ 13 ∷ []))) ≡ false)
feed-bracketed_example = feed-bracketed latin (new_parser latin) (97 ∷ 13 ∷ []) short-IsPaste

new_parser-IsShort : IsShort latin (new_parser latin)
unfolding new_parser
new_parser-IsShort = record { short = omega arith; idle = λ _. refl }

feed-IsShort_example : IsShort latin (feed latin (open_sequence ++ 97 ∷ []) (new_parser latin)).1
feed-IsShort_example =
    feed-IsShort latin (open_sequence ++ 97 ∷ []) (new_parser latin) new_parser-IsShort

-- Entries between quotes, each on a line of its own.
simple_lines : List ℕ → List ℕ → List (List ℕ)
simple_lines row [] = if is_empty row then [] else row ∷ []
simple_lines row (ch ∷ chars) =
    let broken = simple_lines [] chars in
    let longer = simple_lines (row ++ ch ∷ []) chars in if eqb ch 10 then row ∷ broken else longer

abbrev quoted : Lines
quoted = record {
  splitlines = simple_lines [];
  loads = λ line. entry_of (take (length line - 2) (drop 1 line));
  dumps = λ entry. 34 ∷ entry ++ 34 ∷ [];
}

-- the file has the entry "a"
abbrev opened : History
opened = record {
  file = some (34 ∷ 97 ∷ 34 ∷ 10 ∷ []);
  loaded = true;
  last = some (97 ∷ []);
  count = 1;
}

opened-Tracks : Tracks quoted opened
unfolding file_entries simple_lines last_of History.keep_entry
opened-Tracks = record { loaded = refl; last = refl; count = refl }

reads_b : ReadsBack quoted (98 ∷ []) (34 ∷ 97 ∷ 34 ∷ 10 ∷ [])
unfolding simple_lines
reads_b = record { parses = refl; split = refl; blank = refl }

append-reads_example :
    (file_entries quoted (append quoted (98 ∷ []) opened).file ≡ (
      if is_last quoted (98 ∷ []) opened.last
      then file_entries quoted opened.file
      else file_entries quoted opened.file ++ (98 ∷ []) ∷ []))
    × Tracks quoted (append quoted (98 ∷ []) opened)
unfolding whole_text
append-reads_example = append-reads quoted (98 ∷ []) opened opened-Tracks reads_b (omega arith)

append-bounded_example : (append quoted (98 ∷ []) opened).count ≤ history_cap + trim_slack
append-bounded_example = append-bounded quoted (98 ∷ []) opened refl (omega arith)
