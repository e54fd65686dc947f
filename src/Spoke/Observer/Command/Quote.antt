-- ===== src/Spoke/Observer/Command/Quote.antt =====
-- spoke/observer.py: the command /q: a question that quotes a message.

use Prim.Native.String.{count}
use moot.Common.{
  ℕ, zero, suc, String, ◌<>◌, numeral, not, ◌&&◌, Option, none, some, ◌==◌, leb, if◌then◌else◌,
}
use moot.Spoke.Observer.Parse.{starts_with, after, partition, strip, Statement}
use moot.Spoke.Observer.Seat.{Entry, Seat}
use moot.Spoke.Observer.Seat.Lookup.{lookup, known_peer}
use moot.Spoke.Observer.Pretty.{Pretty}
use moot.Spoke.Observer.Command.Replies.{World, Reply, refusal, no_peer, sends_say, msg_id_arg}

abbrev pub quote_excerpt : ℕ
quote_excerpt = 500

-- `text[:n]`
unfoldable pub first_chars : ℕ → String → String
first_chars zero text = ""
first_chars (suc n) String.[] = ""
first_chars (suc n) (String.◌∷◌ c text) = String.◌∷◌ c (first_chars n text)

unfoldable pub excerpt : String → String
unfolding first_chars
excerpt quoted =
    if leb (count quoted) quote_excerpt then quoted else first_chars quote_excerpt quoted <> "…"

unfoldable pub question : Entry → String → String → Statement
unfolding excerpt
question e name human = record {
  to = name;
  kind = "question";
  text = e.sender <> " wrote (#" <> numeral e.id <> "): \"" <> excerpt e.text <> "\"\n" <> human;
  private = e.private;
}

-- the part of `_quote` after the message is found
unfoldable pub quote_entry : World → Entry → String → Seat → Pretty → Reply
unfolding refusal sends_say no_peer question
quote_entry w e rest s p =
    let is_space = w.place.unicode.is_space in
    let (word, tail) = partition (strip is_space rest) in
    let name = if starts_with "@" word then after 1 word else word in
    let human = strip is_space tail in
    if not (known_peer name s)
    then refusal (no_peer w.python name s) s p
    else if human == ""
    then refusal "[/q needs a question after @name]" s p
    else if e.private && (name == "*")
    then refusal "[private needs @name — a private #N cannot be broadcast]" s p
    else sends_say (question e name human) s p

unfoldable pub quote : World → String → Seat → Pretty → Option Reply
unfolding refusal quote_entry msg_id_arg lookup
quote w arg s p =
    let (ident, rest) = partition arg in
    elim (msg_id_arg w.python ident) [
      | none ↦ none
      | some none ↦ some (refusal "[/q takes a message id, then @name and a question]" s p)
      | some (some id) ↦ elim (lookup w.files id s) [
        | none ↦ none
        | some none ↦ some (refusal ("[no message #" <> numeral id <> "]") s p)
        | some (some e) ↦ some (quote_entry w e rest s p)
      ]
    ]
