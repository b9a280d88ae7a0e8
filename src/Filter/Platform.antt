-- ===== src/Filter/Platform.antt =====
-- What the filter crate takes from outside the repository: the `regex` crate, and the case mapping
-- of Unicode. The model takes them as a parameter.
use nuncio.Common.{String, Bool, Result}

-- `Regex::new` fails with the text of its error.
pub record Platform : Type 1 where
  pub Regex : Type 0
  pub regex_new : String → Result String Regex
  pub is_match : Regex → String → Bool
  pub to_lowercase : String → String
