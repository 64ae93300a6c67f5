-- ===== src/Cdc/Slot/Publication.antt =====
-- The publication name of common/cdc_helpers.py, and when two connectors share one.
use Prim.Native.Nat.{min}
use spark_dev.Base.{
  ℕ, zero, suc, ◌+◌, ◌-◌, ◌≤◌, ◌<◌, ◌≡◌, inl, inr, refl, ap, ◌∙◌, false, ◌||◌, List, [], ◌∷◌, ◌++◌,
  leb, if◌then◌else◌, length, take, All-append, length-take, length-append, arith, Bool-cases,
  leb→le,
}
use mathlib.Core.List.{map-append}
use spark_dev.Base.Text.{Text, codes}
use spark_dev.Cdc.Slot.{
  is_ascii_lower, is_ascii_digit, ascii_lower, IsAscii, Unicode, safe_char, sanitized, safe_slot,
  drop_last_five, publication_name,
}

module _ {ℓ} {A : Type ℓ} where
  take-take : (n m : ℕ) (xs : List A) → n ≤ m → take n (take m xs) ≡ take n xs
  take-take zero m xs h = refl
  take-take (suc n) zero xs h = absurd (omega arith)
  take-take (suc n) (suc m) [] h = refl
  take-take (suc n) (suc m) (x ∷ xs) h = ap (λ l. x ∷ l) (take-take n m xs (omega arith))

  take-append : (n : ℕ) (xs ys : List A) → n ≤ length xs → take n (xs ++ ys) ≡ take n xs
  take-append zero xs ys h = refl
  take-append (suc n) [] ys h = absurd (omega arith)
  take-append (suc n) (x ∷ xs) ys h = ap (λ l. x ∷ l) (take-append n xs ys (omega arith))

  take_beyond : (n m : ℕ) (xs : List A) → length xs ≤ n → length xs ≤ m → take n xs ≡ take m xs
  take_beyond zero zero xs h g = refl
  take_beyond zero (suc m) [] h g = refl
  take_beyond zero (suc m) (x ∷ xs) h g = absurd (omega arith)
  take_beyond (suc n) zero [] h g = refl
  take_beyond (suc n) zero (x ∷ xs) h g = absurd (omega arith)
  take_beyond (suc n) (suc m) [] h g = refl
  take_beyond (suc n) (suc m) (x ∷ xs) h g =
      ap (λ l. x ∷ l) (take_beyond n m xs (omega arith) (omega arith))

cut_number : (n : ℕ) → min 63 (n + 5) - 5 ≡ (if leb 58 n then 58 else n)
cut_number n = elim (Bool-cases (leb 58 n)) [
  | inl e ↦ let h = leb→le 58 n e in rw e (omega arith)
  | inr e ↦ let h : n ≤ 58 = ground arith in rw e (omega arith)
]

length-take-append : (m : ℕ) (s t : Text) → length (take m (s ++ t)) ≡ min m (length s + length t)
length-take-append m s t = length-take m (s ++ t) ∙ ap (min m) (length-append s t)

cut_length :
    (s : Text)
    → length (take 63 (s ++ codes "_slot")) - 5 ≡ (if leb 58 (length s) then 58 else length s)
cut_length s = ap (λ n. n - 5) (length-take-append 63 s (codes "_slot")) ∙ cut_number (length s)

cut_take :
    (s : Text) (n : ℕ) → n ≤ 58 → n ≤ length s → take n (take 63 (s ++ codes "_slot")) ≡ take n s
cut_take s n h g =
    take-take n 63 (s ++ codes "_slot") (omega arith) ∙ take-append n s (codes "_slot") g

drop_last_five-take : (s : Text) → drop_last_five (take 63 (s ++ codes "_slot")) ≡ take 58 s
unfolding drop_last_five
drop_last_five-take s =
    ap (λ n. take n (take 63 (s ++ codes "_slot"))) (cut_length s)
    ∙ elim (Bool-cases (leb 58 (length s))) [
      | inl e ↦ rw e (cut_take s 58 (omega arith) (leb→le 58 (length s) e))
      | inr e ↦
          let short : length s ≤ 58 = ground arith in
          rw e (
            cut_take s (length s) short (omega arith)
            ∙ take_beyond (length s) 58 s (omega arith) short)
    ]

-- The publication name is the first 58 characters of the sanitized name, and "_pub".
pub publication_name_lem :
    (u : Unicode) (name : Text)
    → publication_name u name ≡ take 58 (sanitized u name) ++ codes "_pub"
unfolding publication_name safe_slot
publication_name_lem u name = ap (λ t. t ++ codes "_pub") (drop_last_five-take (sanitized u name))

-- a character that is no ASCII letter or digit
abbrev pub IsSeparator : ℕ → Type 0
IsSeparator c = (c < 128) × ((is_ascii_lower (ascii_lower c) || is_ascii_digit c) ≡ false)

safe_char_separator : (u : Unicode) (c : ℕ) → IsSeparator c → safe_char u (ascii_lower c) ≡ b'_'
unfolding safe_char
safe_char_separator u c h =
    ground (arith, u.is_lower_ascii (ascii_lower c), u.is_digit_ascii (ascii_lower c))

module _ (u : Unicode) (front back : Text) (c d : ℕ) where
  sanitized_separator :
      IsAscii front
      → IsAscii back
      → IsSeparator c
      → IsSeparator d
      → sanitized u (front ++ c ∷ back) ≡ sanitized u (front ++ d ∷ back)
  unfolding sanitized
  sanitized_separator hf hb hc hd =
      rw
        (
          u.lower_ascii (front ++ c ∷ back) (All-append _ front (c ∷ back) hf (hc.0, hb)),
          u.lower_ascii (front ++ d ∷ back) (All-append _ front (d ∷ back) hf (hd.0, hb)),
        )
        (simp (map-append, safe_char_separator u c hc, safe_char_separator u d hd))

  -- Two ASCII connector names that differ only in one separator, such as a dash and an underscore,
  -- have the same replication slot and the same publication.
  pub names_collide :
      IsAscii front
      → IsAscii back
      → IsSeparator c
      → IsSeparator d
      → (safe_slot u (front ++ c ∷ back) ≡ safe_slot u (front ++ d ∷ back))
        × (publication_name u (front ++ c ∷ back) ≡ publication_name u (front ++ d ∷ back))
  unfolding publication_name safe_slot
  names_collide hf hb hc hd =
      let same = sanitized_separator hf hb hc hd in
      (
        ap (λ t. take 63 (t ++ codes "_slot")) same,
        ap (λ t. drop_last_five (take 63 (t ++ codes "_slot")) ++ codes "_pub") same,
      )
