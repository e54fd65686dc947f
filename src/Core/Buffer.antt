-- ===== src/Core/Buffer.antt =====
-- core/buffer.py: the context buffer of one participant, oldest message first.
pub mod Laws
use moot.Common.{
  ℕ, zero, suc, ◌+◌, ◌-◌, String, ◌<>◌, numeral, Bool, true, false, Option, none, some, List, [],
  ◌∷◌, ◌++◌, leb, eqb, length, if◌then◌else◌,
}
use moot.Core.Types.{Msg, overheard}

pub record ContextBuffer : Type 0 where
  pub cap : ℕ
  pub items : List Msg
  pub evicted : ℕ

-- The constructor raises ValueError on a cap that is not positive.
unfoldable pub create : ℕ → Option ContextBuffer
create zero = none
create (suc n) = some (record { cap = suc n; items = []; evicted = 0 })

-- `while len(self._items) >= self.cap`: drop the oldest. With cap 0 the loop would end in an
-- IndexError on the empty deque; `create` excludes it.
unfoldable pub make_room : ℕ → List Msg → ℕ → List Msg × ℕ
make_room cap [] evicted = ([], evicted)
make_room cap (x ∷ xs) evicted =
    let rest = make_room cap xs (evicted + 1) in
    if leb cap (length (x ∷ xs)) then rest else (x ∷ xs, evicted)

unfoldable pub append : ContextBuffer → Msg → ContextBuffer
append b msg =
    let (items, evicted) = make_room b.cap b.items b.evicted in
    record b { items = items ++ msg ∷ []; evicted = evicted }

unfoldable pub placeholder : ContextBuffer → Msg
placeholder b = record {
  id = 0;
  sender = "system";
  to = "*";
  kind = "note";
  text = numeral b.evicted <> " older messages omitted";
  ts = 0;
  addressing = some overheard;
  seq = none;
  private = false;
}

-- `upto_id is None or self._items[0].id <= upto_id`
unfoldable pub within : Option ℕ → Msg → Bool
within none m = true
within (some upto_id) m = leb m.id upto_id

-- the loop of `drain`: what it takes, and what it leaves
unfoldable pub drain_items : Option ℕ → List Msg → List Msg × List Msg
drain_items upto [] = ([], [])
drain_items upto (x ∷ xs) =
    let (out, left) = drain_items upto xs in if within upto x then (x ∷ out, left) else ([], x ∷ xs)

unfoldable pub drain : ContextBuffer → Option ℕ → List Msg × ContextBuffer
drain b upto =
    let (out, left) = drain_items upto b.items in
    let head = if eqb b.evicted 0 then [] else placeholder b ∷ [] in
    (head ++ out, record b { items = left; evicted = 0 })
