-- ===== src/Core/Proto/Names.antt =====
-- core/proto.py: the regular expressions, over code points.
pub mod Matches
use Prim.Native.Nat.{ℕ, zero, suc}
use moot.Common.{
  String, codes, Bool, true, false, ◌&&◌, ◌||◌, Option, none, some, List, [], ◌∷◌, leb, eqb,
  if◌then◌else◌,
}

unfoldable pub is_alnum : ℕ → Bool
is_alnum c = (leb b'A' c && leb c b'Z') || (leb b'a' c && leb c b'z') || (leb b'0' c && leb c b'9')

unfoldable pub is_name_char : ℕ → Bool
unfolding is_alnum
is_name_char c = is_alnum c || eqb c b'_' || eqb c b'-'

-- `$` matches at the end, and before a line feed that ends the text
unfoldable pub at_end : List ℕ → Bool
at_end [] = true
at_end (c ∷ []) = eqb c 10
at_end (c ∷ d ∷ cs) = false

-- `[A-Za-z0-9_-]{0,n}$`
unfoldable pub match_rest : ℕ → List ℕ → Bool
unfolding is_name_char at_end
match_rest zero cs = at_end cs
match_rest (suc n) [] = true
match_rest (suc n) (c ∷ cs) =
    let rest = match_rest n cs in if is_name_char c then rest else at_end (c ∷ cs)

-- NAME_RE: `^[A-Za-z0-9][A-Za-z0-9_-]{0,31}$`
unfoldable pub match_name : List ℕ → Bool
unfolding match_rest
match_name [] = false
match_name (c ∷ cs) = is_alnum c && match_rest 31 cs

-- `NAME_RE.match(text)`
unfoldable pub is_name : String → Bool
unfolding match_name
is_name s = match_name (codes s)

-- a member of _CTRL_LABEL
unfoldable pub is_label_control : ℕ → Bool
is_label_control c = leb c 8 || (leb 10 c && leb c 31) || (leb 127 c && leb c 159)

-- a member of _CTRL_TEXT
unfoldable pub is_text_control : ℕ → Bool
is_text_control c =
    leb c 8 || eqb c 11 || eqb c 12 || (leb 14 c && leb c 31) || (leb 127 c && leb c 159)

unfoldable pub first_control : ℕ → List ℕ → Option ℕ
unfolding is_text_control
first_control i [] = none
first_control i (c ∷ cs) =
    let rest = first_control (suc i) cs in if is_text_control c then some i else rest

unfoldable pub control_char_pos : String → Option ℕ
unfolding first_control
control_char_pos text = first_control 0 (codes text)
