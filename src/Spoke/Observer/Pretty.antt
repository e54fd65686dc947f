-- ===== src/Spoke/Observer/Pretty.antt =====
-- spoke/observer.py: messages as display lines. A text is the list of its code points, and the
-- width is the one of the terminal where none is given.
use Prim.Native.String.{String}
use moot.Common.{
  ℕ, ◌+◌, ◌-◌, ◌%◌, max, codes, numeral, Bool, true, false, ◌||◌, Option, none, some, List, [], ◌∷◌,
  ◌++◌, ◌==◌, ltb, leb, eqb, length, get_elem?, is_empty, map, if◌then◌else◌,
}
use moot.Common.Dict
use moot.Common.Dict.{Dict}
use moot.Core.Proto.{system_sender}
use moot.Core.Proto.Json.{Json}
use moot.Spoke.Terminal.{Unicode}
use moot.Spoke.Terminal.Width.{line_feed, char_width, cell_width, wrap_rows, ellipsis}
use moot.Spoke.Terminal.Screen.{csi, repeat}
use moot.Spoke.Observer.Seat.{Entry}

-- What the code uses of Python: characters, and the local time of day of a time stamp and of now.
pub record Place : Type 0 where
  pub unicode : Unicode
  pub time_of : Json → List ℕ
  pub now : List ℕ

pub record Pretty : Type 0 where
  pub me : String
  pub width : ℕ
  pub color : Bool
  pub full : Bool
  pub colors : Dict String

abbrev pub palette : List String
palette = "36" ∷ "33" ∷ "35" ∷ "32" ∷ "34" ∷ "91" ∷ []

unfoldable pub c : Pretty → String → List ℕ → List ℕ
unfolding csi
c p colour text =
    if p.color then csi (codes colour ++ codes "m") ++ text ++ csi (codes "0m") else text

unfoldable pub dim : Pretty → List ℕ → List ℕ
unfolding c
dim p text = c p "2" text

-- A name keeps the colour that it got when it was first shown.
unfoldable pub who : String → Pretty → List ℕ × Pretty
unfolding dim
who name p =
    if name == system_sender then (dim p (codes name), p) else elim (Dict.get name p.colors) [
      | some colour ↦ (c p colour (codes name), p)
      | none ↦
          let colour : String = elim (get_elem? palette (length p.colors % 6)) [
            | none ↦ ""
            | some k ↦ k
          ] in
          (c p colour (codes name), record p { colors = Dict.put name colour p.colors })
    ]

-- `text.split()`, the word so far first
unfoldable pub words_from : (ℕ → Bool) → List ℕ → List ℕ → List (List ℕ)
words_from is_space word [] = if is_empty word then [] else word ∷ []
words_from is_space word (ch ∷ text) = elim (is_space ch) [
  | true ↦ (if is_empty word then [] else word ∷ []) ++ words_from is_space [] text
  | false ↦ words_from is_space (word ++ ch ∷ []) text
]

unfoldable pub spaced : List (List ℕ) → List ℕ
spaced [] = []
spaced (w ∷ []) = w
spaced (w ∷ v ∷ ws) = w ++ 0x20 ∷ [] ++ spaced (v ∷ ws)

-- `" ".join(text.split())`
unfoldable pub collapsed : (ℕ → Bool) → List ℕ → List ℕ
unfolding words_from spaced
collapsed is_space text = spaced (words_from is_space [] text)

-- the loop of `fit`: what it keeps
unfoldable pub fit_from : Unicode → ℕ → ℕ → List ℕ → List ℕ
fit_from u room used [] = []
fit_from u room used (ch ∷ text) =
    let w = char_width u ch in
    let kept = fit_from u room (used + w) text in
    if ltb (room - 1) (used + w) then [] else ch ∷ kept

unfoldable pub fit : Unicode → Pretty → ℕ → List ℕ → List ℕ
unfolding collapsed fit_from
fit u p prefix_len text =
    let line = collapsed u.is_space text in
    let room = max (p.width - prefix_len) 20 in
    if p.full || leb (cell_width u line) room then line else fit_from u room 0 line ++ ellipsis ∷ []

abbrev pub arrow : List ℕ
arrow = 0x20 ∷ 0x2192 ∷ 0x20 ∷ []

-- " · "
abbrev pub dot : List ℕ
dot = 0x20 ∷ 0xB7 ∷ 0x20 ∷ []

-- `text.split("\n")`, the segment so far first
unfoldable pub segments_from : List ℕ → List ℕ → List (List ℕ)
segments_from seg [] = seg ∷ []
segments_from seg (ch ∷ text) = elim (eqb ch line_feed) [
  | true ↦ seg ∷ segments_from [] text
  | false ↦ segments_from (seg ++ ch ∷ []) text
]

-- the lines of a message under `--full`: the head, then spaces of its length
unfoldable pub full_lines : Place → Pretty → List ℕ → ℕ → List ℕ → List (List ℕ) → List (List ℕ)
full_lines w p prefix head_len suffix [] = []
full_lines w p prefix head_len suffix (seg ∷ rest) =
    let tail = if is_empty rest then suffix else [] in
    let body = fit w.unicode p (head_len + length tail) seg in
    (prefix ++ body ++ dim p tail) ∷ full_lines w p (repeat 0x20 head_len) head_len suffix rest

unfoldable pub msg_lines :
    Place → List ℕ → String → String → String → List ℕ → List ℕ → Pretty → List (List ℕ) × Pretty
unfolding fit full_lines segments_from collapsed who
msg_lines w ts sender to kind text suffix p =
    let mine = to == p.me in
    let shown = if mine then codes "you" else codes to in
    let head_plain =
      ts ++ 0x20 ∷ [] ++ codes sender ++ arrow ++ shown ++ 0x20 ∷ [] ++ codes kind ++ codes "  " in
    let (name, q) = who sender p in
    let pointed = if mine then c p "1" (0x2192 ∷ codes " you") else 0x2192 ∷ 0x20 ∷ shown in
    let head =
      dim p ts
      ++ 0x20 ∷ []
      ++ name
      ++ 0x20 ∷ []
      ++ pointed
      ++ 0x20 ∷ []
      ++ dim p (codes kind)
      ++ codes "  " in
    if p.full
    then (
      full_lines w q head (length head_plain) suffix
          (map (collapsed w.unicode.is_space) (segments_from [] text)),
      q,
    )
    else (
      (head ++ fit w.unicode q (length head_plain + length suffix) text ++ dim q suffix) ∷ [],
      q,
    )

-- "queued at n busy peer(s)"
unfoldable pub echo_suffix : Option ℕ → Bool → ℕ → List ℕ
echo_suffix id private queued =
    (elim id as (λ _. List ℕ) [ none ↦ [] | some n ↦ codes "  #" ++ codes (numeral n) ])
    ++ (if private then dot ++ codes "private" else [])
    ++ (if eqb queued 0
        then []
        else dot ++ codes "queued at " ++ codes (numeral queued) ++ codes " busy peer(s)")

unfoldable pub echo_lines :
    Place → String → String → List ℕ → ℕ → Option ℕ → Bool → Pretty → List (List ℕ) × Pretty
unfolding msg_lines echo_suffix
echo_lines w to kind text queued id private p =
    msg_lines w w.now p.me to kind text (echo_suffix id private queued) p

unfoldable pub indented : Pretty → List ℕ → ℕ → List (List ℕ) → List (List ℕ)
indented p prefix head_len [] = []
indented p prefix head_len (row ∷ rows) =
    (prefix ++ dim p row) ∷ indented p (repeat 0x20 head_len) head_len rows

-- a stored message; `full` keeps the whole text, wrapped
unfoldable pub replay_lines : Place → Entry → Bool → Pretty → List (List ℕ) × Pretty
unfolding fit indented collapsed who
replay_lines w e full p =
    let number = codes "#" ++ codes (numeral e.id) ++ 0x20 ∷ [] ++ w.time_of e.ts ++ 0x20 ∷ [] in
    let mark = if e.private then dot ++ codes "private" else [] in
    let target = arrow ++ codes e.to ++ mark ++ dot ++ codes e.kind ++ codes ": " in
    let head_plain = number ++ codes e.sender ++ target in
    let (name, q) = who e.sender p in
    let head = dim p number ++ name ++ dim p target in
    let text = collapsed w.unicode.is_space (codes e.text) in
    if full
    then (
      indented q head (length head_plain)
          (wrap_rows w.unicode text (max 20 (q.width - length head_plain))),
      q,
    )
    else ((head ++ dim q (fit w.unicode q (length head_plain) text)) ∷ [], q)
