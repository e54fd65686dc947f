-- ===== src/Spoke/Terminal.antt =====
-- spoke/tui.py: the terminal kit of the observer seat. A text is the list of its code points.
pub mod Width
pub mod Editor
pub mod History
mod Tests
pub mod Keys
pub mod Screen
use moot.Common.{ℕ, Bool, String}

-- What the code reads of the module unicodedata and of `str.isspace`.
pub record Unicode : Type 0 where
  pub combining : ℕ → Bool
  pub east_asian_width : ℕ → String
  pub is_space : ℕ → Bool
