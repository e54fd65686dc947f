-- ===== src/Core/Dedup.antt =====
-- core/dedup.py: duplicates of one sender within a sliding window. The digest, SHA-256 in
-- hexadecimal, is a parameter; the clock's reading is an argument.
pub mod Laws
use moot.Common.{ℕ, ◌+◌, String, ◌<>◌, Bool, true, false, keep, leb, if◌then◌else◌}
use moot.Common.Dict.{Dict, has, put}

pub record DedupWindow : Type 0 where
  pub window : ℕ
  pub seen_at : Dict ℕ

-- `int(private)`, as text
abbrev pub flag : Bool → String
flag true = "1"
flag false = "0"

-- `f"{to}\n{int(private)}\n{text}"`, before it is encoded and hashed
unfoldable pub key_text : String → String → Bool → String
key_text to text private = to <> "\n" <> flag private <> "\n" <> text

unfoldable pub key : (String → String) → String → String → Bool → String
key digest to text private = digest (key_text to text private)

-- `ts >= now - window`, with the window moved to the other side
unfoldable pub expire : ℕ → DedupWindow → DedupWindow
expire now d = record d { seen_at = keep (λ e. leb now (e.1 + d.window)) d.seen_at }

unfoldable pub seen :
    (String → String) → ℕ → DedupWindow → String → String → Bool → DedupWindow × Bool
unfolding expire key
seen digest now d to text private =
    let d' = expire now d in
    let k = key digest to text private in
    if has k d'.seen_at then (d', true) else (record d' { seen_at = put k now d'.seen_at }, false)
