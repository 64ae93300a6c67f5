-- ===== src/Cdc/Slot.antt =====
-- `_safe_slot`, `topic_name` and the names in `debezium_pg_config` of common/cdc_helpers.py.
-- The Unicode tables behind Python's `lower`, `islower` and `isdigit` are a parameter; what is
-- assumed of them is their documented behaviour on ASCII.
pub mod Alphabet
pub mod Publication
use spark_dev.Base.{
  ℕ, ◌+◌, ◌-◌, ◌≤◌, ◌<◌, ◌≡◌, ◌≢◌, ◌↔◌, Bool, true, false, ◌&&◌, ◌||◌, List, [], ◌∷◌, ◌++◌, map,
  ◌==◌, leb, if◌then◌else◌, length, take, All,
}
use spark_dev.Base.Text.{Text, codes}

abbrev pub is_ascii_lower : ℕ → Bool
is_ascii_lower c = leb b'a' c && leb c b'z'

abbrev pub is_ascii_digit : ℕ → Bool
is_ascii_digit c = leb b'0' c && leb c b'9'

abbrev pub ascii_lower : ℕ → ℕ
ascii_lower c = if leb b'A' c && leb c b'Z' then c + 32 else c

abbrev pub IsAscii : Text → Type 0
IsAscii s = All (λ c. c < 128) s

pub record Unicode : Type 0 where
  pub lower : Text → Text
  pub is_lower : ℕ → Bool
  pub is_digit : ℕ → Bool
  pub lower_ascii : (s : Text) → IsAscii s → lower s ≡ map ascii_lower s
  pub is_lower_ascii : (c : ℕ) → c < 128 → is_lower c ≡ is_ascii_lower c
  pub is_digit_ascii : (c : ℕ) → c < 128 → is_digit c ≡ is_ascii_digit c

-- `c if (c.islower() or c.isdigit() or c == "_") else "_"`
unfoldable pub safe_char : Unicode → ℕ → ℕ
safe_char u c = if u.is_lower c || (u.is_digit c || c == b'_') then c else b'_'

unfoldable pub sanitized : Unicode → Text → Text
unfolding safe_char
sanitized u name = map (safe_char u) (u.lower name)

-- `_safe_slot`
unfoldable pub safe_slot : Unicode → Text → Text
unfolding sanitized
safe_slot u name = take 63 (sanitized u name ++ codes "_slot")

-- `s[:-5]`
unfoldable pub drop_last_five : Text → Text
drop_last_five s = take (length s - 5) s

-- the value of "publication.name"
unfoldable pub publication_name : Unicode → Text → Text
unfolding safe_slot drop_last_five
publication_name u name = drop_last_five (safe_slot u name) ++ codes "_pub"

abbrev pub topic_prefix : Text
topic_prefix = codes "dbz"

unfoldable pub topic_name : Text → Text → Text
topic_name table schema = topic_prefix ++ codes "." ++ schema ++ codes "." ++ table
