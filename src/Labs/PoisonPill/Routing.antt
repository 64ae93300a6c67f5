-- ===== src/Labs/PoisonPill/Routing.antt =====
-- Where the rows of kafka/poison_pill/kaf6_poison_pill.ipynb go, and how the counts add up.
use spark_dev.Base.{
  ℕ, ◌+◌, ◌≡◌, refl, sym, ap, ◌∙◌, Bool, true, false, not, ◌&&◌, Option, none, some, List, [], ◌∷◌,
  filter, length, length-map, arith,
}
use spark_dev.Base.Text.{Text}
use spark_dev.Labs.PoisonPill.{
  Message, Parsed, is_true, sql_and, sql_not, is_null, length_positive, parsed_id, is_poison,
  detected_poison, detected_good, poison_flag, clean_df, dlq_df, main_count, dlq_count,
}

module _ {A : Type 0} where
  length-filter :
      (p : A → Bool) (xs : List A)
      → length (filter (λ x. not (p x)) xs) + length (filter p xs) ≡ length xs
  length-filter p [] = refl
  length-filter p (x ∷ xs) = ground (arith, length-filter p xs)

-- a value that is null or the empty text
abbrev pub is_blank : Message → Bool
is_blank m = not (is_true (length_positive m.value))

poison_test :
    (v : Option Text) (id : Option ℕ)
    → sql_and (sql_and (some (is_null id)) (some (not (is_null v)))) (length_positive v)
      ≡ some (is_null id && is_true (length_positive v))
poison_test none none = refl
poison_test none (some i) = refl
poison_test (some t) none = refl
poison_test (some t) (some i) = refl

-- Of two tests, the first of which holds only where the second does.
length-filter_split :
    {A : Type 0} (p q r : A → Bool)
    → ((a : A) → (p a ≡ (q a && not (r a))))
    → (xs : List A)
    → length (filter q xs) ≡ length (filter p xs) + length (filter (λ a. r a && q a) xs)
length-filter_split p q r split [] = refl
length-filter_split p q r split (x ∷ xs) =
    ground (arith, split x, length-filter_split p q r split xs)

filter_same :
    {A : Type 0} (p q : A → Bool)
    → ((a : A) → p a ≡ q a)
    → (xs : List A) → filter p xs ≡ filter q xs
filter_same p q same [] = refl
filter_same p q same (x ∷ xs) = ground (arith, same x, filter_same p q same xs)

module _ (from_json : Text → Option Parsed) where
  is_poison_lem :
      (m : Message)
      → is_poison from_json m ≡ some (poison_flag from_json m && is_true (length_positive m.value))
  unfolding is_poison poison_flag
  is_poison_lem m = poison_test m.value (parsed_id from_json m)

  sql_not_lem :
      (m : Message)
      → is_true (sql_not (is_poison from_json m)) ≡ not (is_true (is_poison from_json m))
  sql_not_lem m =
      let known = is_poison_lem m in
      ap (λ o. is_true (sql_not o)) known ∙ sym (ap (λ o. not (is_true o)) known)

  -- Whatever the messages are, the rows of the main table and of the dead letters add up to them,
  -- and so do the good and the poison rows that the batch detects; but the dead letters are more
  -- than the poison rows detected, by the null and the empty values without an id.
  pub dlq_reconciles :
      (ms : List Message)
      → (main_count from_json ms + dlq_count from_json ms ≡ length ms)
        × (detected_poison from_json ms + detected_good from_json ms ≡ length ms)
        × (dlq_count from_json ms
            ≡ detected_poison from_json ms
              + length (filter (λ m. is_blank m && poison_flag from_json m) ms))
  unfolding main_count dlq_count clean_df dlq_df detected_poison detected_good
  dlq_reconciles ms =
      let good_lem =
        filter_same (λ m. is_true (sql_not (is_poison from_json m)))
          (λ m. not (is_true (is_poison from_json m))) sql_not_lem ms in
      (
        omega (
          arith,
          length-map {B = Option Parsed}
              (λ m. elim m.value [ Option.none ↦ none | Option.some t ↦ from_json t ])
              (filter (λ m. not (poison_flag from_json m)) ms),
          length-filter (poison_flag from_json) ms,
        ),
        omega (arith, ap length good_lem, length-filter (λ m. is_true (is_poison from_json m)) ms),
        length-filter_split (λ m. is_true (is_poison from_json m)) (poison_flag from_json) is_blank
            (λ m.
              ap is_true (is_poison_lem m)
              ∙ ap (λ b. poison_flag from_json m && b)
                  (sym (twice (is_true (length_positive m.value)))))
            ms,
      )
    where
      twice : (b : Bool) → not (not b) ≡ b
      twice true = refl
      twice false = refl
