-- ===== src/Core/Proto/Json.antt =====
-- The values that `json.loads` makes, and the tests that the code does on them. A float is given
-- by its thousandths; no validation reads its value. In Python a bool is an int too; the
-- validators leave it out, and `int` is without it.
use moot.Common.{ℕ, String, Bool, true, false, Option, none, some, List, [], ◌∷◌, ◌==◌, not}
use moot.Common.Dict.{Dict}
use moot.Common.Int.{ℤ, pos}

mutual
  pub data Json : Type 0 where
    null : Json
    bool : Bool → Json
    int : ℤ → Json
    float : ℕ → Json
    str : String → Json
    arr : Items → Json
    obj : Fields → Json

  pub data Items : Type 0 where
    nil : Items
    cons : Json → Items → Items

  pub data Fields : Type 0 where
    end : Fields
    field : String → Json → Fields → Fields

-- An object as a dictionary.
unfoldable pub entries : Fields → Dict Json
entries end = []
entries (field k v fs) = (k, v) ∷ entries fs

unfoldable pub elements : Items → List Json
elements nil = []
elements (cons v vs) = v ∷ elements vs

-- `bool(value)` of a value that `dict.get` found, None being null
unfoldable pub truthy : Option Json → Bool
truthy none = false
truthy (some null) = false
truthy (some (bool b)) = b
truthy (some (int (pos ℕ.zero))) = false
truthy (some (int n)) = true
truthy (some (float ℕ.zero)) = false
truthy (some (float n)) = true
truthy (some (str s)) = not (s == "")
truthy (some (arr nil)) = false
truthy (some (arr vs)) = true
truthy (some (obj end)) = false
truthy (some (obj fs)) = true

unfoldable pub is_str : Json → Bool
is_str (str s) = true
is_str _ = false
