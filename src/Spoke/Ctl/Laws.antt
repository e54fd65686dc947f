-- ===== src/Spoke/Ctl/Laws.antt =====
-- A call and its answer, and the reading of a hook's input.
use Prim.Native.String.{String}
use moot.Common.{
  ℕ, ◌<>◌, ◌≡◌, true, false, Option, none, some, List, [], ◌∷◌, ◌++◌, leb, is_empty, arith,
}
use mathlib.Core.List.{append-nil, append_assoc}
use moot.Common.Dict.{Dict}
use moot.Core.Proto.Json.{Json, Fields, entries}
use moot.Spoke.Ctl.{
  Place, value, serve_conn, answer_line, hung_up, listening, Transport, Turn, bytes_of,
  read_hook_json,
}

-- A frame whose line is read back as that frame.
pub record IsCarried (p : Place) (frame : Dict Json) : Type 0 where
  pub fields : Fields
  pub read : p.loads (p.dumps frame <> "\n") ≡ value (Json.obj fields)
  pub same : entries fields ≡ frame

-- what a call finds on its connection to a server with this handler
abbrev pub served : Place → (Dict Json → Option (Dict Json)) → Transport
served p handler = listening (λ line. elim (serve_conn p handler (some line)) [
  | none ↦ hung_up
  | some text ↦ answer_line text
])

abbrev pub arrived : List Turn → List ℕ
arrived [] = []
arrived (t ∷ ts) = bytes_of t ++ arrived ts

-- What comes of an object in pieces: every piece is some bytes before the deadline, and json.loads
-- takes what has come so far with the last piece and not before.
abbrev pub IsWhole : Place → ℕ → List ℕ → List Turn → Type 0
IsWhole p deadline got [] = Unit
IsWhole p deadline got (t ∷ []) =
    (leb deadline t.clock ≡ false)
    × ((bytes : List ℕ) × (t.chunk ≡ some bytes) × (is_empty bytes ≡ false))
    × (p.is_json (got ++ bytes_of t) ≡ true)
IsWhole p deadline got (t ∷ u ∷ ts) =
    (leb deadline t.clock ≡ false)
    × ((bytes : List ℕ) × (t.chunk ≡ some bytes) × (is_empty bytes ≡ false))
    × (p.is_json (got ++ bytes_of t) ≡ false)
    × IsWhole p deadline (got ++ bytes_of t) (u ∷ ts)

-- An object that comes before the deadline, in however many pieces, is returned whole as soon as its
-- last piece is there, whatever comes after it.
pub read_hook_json_whole :
    (p : Place) (deadline : ℕ) (got : List ℕ) (t : Turn) (ts later : List Turn)
    → IsWhole p deadline got (t ∷ ts)
    → read_hook_json p deadline got ((t ∷ ts) ++ later) ≡ some (got ++ arrived (t ∷ ts))
unfolding read_hook_json
read_hook_json_whole p deadline got t [] later (l, (bytes, c, e), j) =
    rw (append-nil (bytes_of t)) (ground (arith, l, c, e, j))
read_hook_json_whole p deadline got t (u ∷ ts) later (l, (bytes, c, e), j, rest) =
    let whole = read_hook_json_whole p deadline (got ++ bytes_of t) u ts later rest in
    ground (arith, l, c, e, j, whole, append_assoc got (bytes_of t) (arrived (u ∷ ts)))
