-- ===== src/Cdc/Slot/Alphabet.antt =====
-- The characters and the length of `_safe_slot` in common/cdc_helpers.py.
use mathlib.Core.Path.{ap₂}
use spark_dev.Base.{
  ap, ◌∙◌, all, ltb, if◌then◌else◌, ℕ, ◌≤◌, ◌<◌, ◌≡◌, refl, true, ◌||◌, [], ◌∷◌, ◌++◌, map, ◌==◌,
  length, All, All-append, All-take, length-take, arith,
}
use spark_dev.Base.Text.{Text, codes}
use spark_dev.Cdc.Slot.{
  is_ascii_lower, is_ascii_digit, ascii_lower, IsAscii, Unicode, safe_char, sanitized, safe_slot,
}

-- [a-z0-9_]
abbrev pub IsSlotChar : ℕ → Type 0
IsSlotChar c = (is_ascii_lower c || (is_ascii_digit c || c == b'_')) ≡ true

module _ (u : Unicode) where
  safe_char-IsSlotChar : (c : ℕ) → c < 128 → IsSlotChar (safe_char u (ascii_lower c))
  unfolding safe_char
  safe_char-IsSlotChar c h =
      ground (arith, u.is_lower_ascii (ascii_lower c), u.is_digit_ascii (ascii_lower c))

  safe_chars : (s : Text) → IsAscii s → All IsSlotChar (map (safe_char u) (map ascii_lower s))
  safe_chars [] h = tt
  safe_chars (c ∷ s) h = (safe_char-IsSlotChar c h.0, safe_chars s h.1)

  sanitized-IsSlotChar : (name : Text) → IsAscii name → All IsSlotChar (sanitized u name)
  unfolding sanitized
  sanitized-IsSlotChar name h = rw (u.lower_ascii name h) (safe_chars name h)

suffix-IsSlotChar : All IsSlotChar (codes "_slot")
suffix-IsSlotChar = (refl, (refl, (refl, (refl, (refl, tt)))))

-- For an ASCII connector name the slot name is a legal one: at most 63 characters, each of them a
-- lower-case letter, a digit or an underscore.
pub safe_slot_legal :
    (u : Unicode) (name : Text)
    → IsAscii name
    → All IsSlotChar (safe_slot u name) × (length (safe_slot u name) ≤ 63)
unfolding safe_slot
safe_slot_legal u name h =
    let whole = sanitized u name ++ codes "_slot" in
    (
      All-take IsSlotChar 63 whole (
          All-append IsSlotChar (sanitized u name) (codes "_slot") (sanitized-IsSlotChar u name h)
            suffix-IsSlotChar),
      omega (arith, length-take {0} 63 whole),
    )

-- `_safe_slot`'s replacement of an ASCII character
abbrev pub ascii_safe : ℕ → ℕ
ascii_safe c = if is_ascii_lower c || (is_ascii_digit c || c == b'_') then c else b'_'

all-IsAscii : (s : Text) → all (λ c. ltb c 128) s ≡ true → IsAscii s
all-IsAscii [] h = tt
all-IsAscii (c ∷ s) h = ground (arith, all-IsAscii s)

module _ (u : Unicode) where
  safe_char_ascii : (c : ℕ) → c < 128 → safe_char u (ascii_lower c) ≡ ascii_safe (ascii_lower c)
  unfolding safe_char
  safe_char_ascii c h =
      ground (arith, u.is_lower_ascii (ascii_lower c), u.is_digit_ascii (ascii_lower c))

  map_ascii :
      (s : Text)
      → IsAscii s
      → map (safe_char u) (map ascii_lower s) ≡ map (λ c. ascii_safe (ascii_lower c)) s
  map_ascii [] h = refl
  map_ascii (c ∷ s) h = ap₂ ◌∷◌ (safe_char_ascii c h.0) (map_ascii s h.1)

  -- What an ASCII name is sanitized to does not depend on the Unicode tables.
  pub sanitized_ascii :
      (s : Text)
      → all (λ c. ltb c 128) s ≡ true
      → sanitized u s ≡ map (λ c. ascii_safe (ascii_lower c)) s
  unfolding sanitized
  sanitized_ascii s h =
      ap (map (safe_char u)) (u.lower_ascii s (all-IsAscii s h)) ∙ map_ascii s (all-IsAscii s h)
