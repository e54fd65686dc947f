-- ===== src/Spoke/Observer/Seat/Lookup.antt =====
-- spoke/observer.py: looking messages and peers up.
use moot.Spoke.Observer.Seat.{Entry, Seat, ring_entry, msg_id}
use Prim.Native.String.{String}
use moot.Common.{
  ℕ, zero, suc, Bool, not, ◌||◌, Option, none, some, List, [], ◌∷◌, ◌++◌, ◌==◌, leb, eqb, length,
  take_last, keep, any, if◌then◌else◌,
}
use moot.Common.Dict
use moot.Common.Dict.{Dict}
use moot.Core.Proto.Json.{Json}
use moot.Core.Hub.Util.{sorted}
use moot.Core.Transcript
use moot.Core.Transcript.{Library, Directory, is_msg}
use moot.Spoke.Render.{object}

-- today's messages in the transcript, none where its directory is not there
unfoldable pub record_entries : List Json → Option (List Entry)
unfolding object msg_id ring_entry
record_entries [] = some []
record_entries (v ∷ vs) = elim (object v) [
  | none ↦ none
  | some r ↦ elim (record_entries vs) [
    | none ↦ none
    | some rest ↦
        if is_msg r
        then elim (msg_id r) [
          | none ↦ some rest
          | some id ↦ elim (ring_entry id r) [ none ↦ none | some e ↦ some (e ∷ rest) ]
        ]
        else some rest
  ]
]

-- What the seat reads besides its own state: the directory of the transcripts, if it is there.
pub record Files : Type 0 where
  pub library : Library
  pub wall : ℕ
  pub transcripts : Option Directory

unfoldable pub transcript_msgs : Files → Option (List Entry)
unfolding record_entries Transcript.read_today
transcript_msgs f = elim f.transcripts [
  | none ↦ some []
  | some files ↦ record_entries (Transcript.read_today f.library f.wall files)
]

unfoldable pub first_with : ℕ → List Entry → Option Entry
first_with id [] = none
first_with id (e ∷ es) = if eqb e.id id then some e else first_with id es

-- `for entry in reversed(ring)`: the last one with the id
unfoldable pub last_with : ℕ → List Entry → Option Entry
last_with id [] = none
last_with id (e ∷ es) = elim (last_with id es) [
  | some found ↦ some found
  | none ↦ if eqb e.id id then some e else none
]

-- The transcript is read only where the ring has no such message.
unfoldable pub lookup : Files → ℕ → Seat → Option (Option Entry)
unfolding last_with first_with transcript_msgs
lookup f id s = elim (last_with id s.ring) [
  | some e ↦ some (some e)
  | none ↦ elim (transcript_msgs f) [ none ↦ none | some es ↦ some (first_with id es) ]
]

unfoldable pub has_id : ℕ → List Entry → Bool
has_id id es = any (λ e. eqb e.id id) es

-- a stable insertion by id
unfoldable pub insert_entry : Entry → List Entry → List Entry
insert_entry e [] = e ∷ []
insert_entry e (x ∷ xs) = if leb e.id x.id then e ∷ x ∷ xs else x ∷ insert_entry e xs

unfoldable pub sort_entries : List Entry → List Entry
unfolding insert_entry
sort_entries [] = []
sort_entries (e ∷ es) = insert_entry e (sort_entries es)

-- `entries[-n:]`, which is all of them for n = 0
unfoldable pub last_entries : ℕ → List Entry → List Entry
last_entries zero es = es
last_entries (suc n) es = take_last (suc n) es

unfoldable pub recent : Files → ℕ → Seat → Option (List Entry)
unfolding last_entries has_id sort_entries transcript_msgs
recent f n s =
    let entries = last_entries n s.ring in
    if leb n (length entries) then some entries else elim (transcript_msgs f) [
      | none ↦ none
      | some msgs ↦
          let older = keep (λ e. not (has_id e.id entries)) msgs in
          some (sort_entries (last_entries n (older ++ entries)))
    ]

unfoldable pub search : (String → Bool) → ℕ → Seat → List Entry
unfolding last_entries
search matches limit s = last_entries limit (keep (λ e. matches e.text) s.ring)

unfoldable pub known_peer : String → Seat → Bool
known_peer name s = (name == "*" || (name == s.me)) || Dict.has name s.peers

unfoldable pub peer_names : Seat → List String
peer_names s = sorted (Dict.keys s.peers)
