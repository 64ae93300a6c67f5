-- ===== src/Labs/PoisonPill/Produced.antt =====
-- The messages that kafka/poison_pill/kaf6_poison_pill.ipynb produces, through its stream.
use spark_dev.Base.{
  ℕ, zero, suc, ◌+◌, ◌≡◌, refl, ap, ◌∙◌, Bool, Option, none, some, List, [], ◌∷◌, ◌++◌, filter,
  length, length-append, All, arith,
}
use spark_dev.Base.Text.{Text}
use spark_dev.Labs.PoisonPill.{
  Value, Message, Parsed, n_good, good_value, good_values, parsed_id, poison, serialize,
  messages_from, produced, poison_flag, dlq_df, main_count, dlq_count,
}
use spark_dev.Labs.PoisonPill.Routing.{dlq_reconciles}

-- the id that the schema reads in a text
abbrev pub read_id : (Text → Option Parsed) → Text → Option ℕ
read_id from_json t = elim (from_json t) [ none ↦ none | some p ↦ p.id ]

module _ {A : Type 0} (p : A → Bool) where
  filter-append : (xs ys : List A) → filter p (xs ++ ys) ≡ filter p xs ++ filter p ys
  filter-append [] ys = refl
  filter-append (x ∷ xs) ys = ground (arith, filter-append xs ys)

module _ (dumps : Value → Text) (stamp : ℕ → ℕ) where
  messages_from-append :
      (o : ℕ) (xs ys : List Value)
      → messages_from dumps stamp o (xs ++ ys)
        ≡ messages_from dumps stamp o xs ++ messages_from dumps stamp (o + length xs) ys
  unfolding messages_from
  messages_from-append o [] ys = ap (λ n. messages_from dumps stamp n ys) (omega arith)
  messages_from-append o (x ∷ xs) ys =
      ap (λ rest. message o x ∷ rest)
        (messages_from-append (suc o) xs ys
          ∙ ap (λ n. messages_from dumps stamp (suc o) xs ++ messages_from dumps stamp n ys)
              (omega arith))
    where
      message : ℕ → Value → Message
      message o v = record {
        value = some (serialize dumps v);
        topic = "kaf6_orders";
        partition = 0;
        offset = o;
        timestamp = stamp o;
      }

  length-messages_from :
      (o : ℕ) (xs : List Value) → length (messages_from dumps stamp o xs) ≡ length xs
  unfolding messages_from
  length-messages_from o [] = refl
  length-messages_from o (x ∷ xs) = ap suc (length-messages_from (suc o) xs)

length-good_values : (i n : ℕ) → length (good_values i n) ≡ n
unfolding good_values
length-good_values i zero = refl
length-good_values i (suc n) = ap suc (length-good_values (suc i) n)

module _ (from_json : Text → Option Parsed) (dumps : Value → Text) (stamp : ℕ → ℕ) where
  good_pass :
      ((i : ℕ) → read_id from_json (dumps (good_value i)) ≡ some i)
      → (o i n : ℕ)
      → filter (poison_flag from_json) (messages_from dumps stamp o (good_values i n)) ≡ []
  unfolding messages_from good_values poison_flag parsed_id serialize good_value
  good_pass reads o i zero = refl
  good_pass reads o i (suc n) = ground (arith, reads i, good_pass reads (suc o) (suc i) n)

  filter-messages_from :
      (o : ℕ) (values : List Value)
      → All (λ v. read_id from_json (serialize dumps v) ≡ none) values
      → filter (poison_flag from_json) (messages_from dumps stamp o values)
        ≡ messages_from dumps stamp o values
  unfolding messages_from poison_flag parsed_id
  filter-messages_from o [] h = refl
  filter-messages_from o (v ∷ values) h = ground (arith, filter-messages_from (suc o) values h.1)

  bad_remain :
      ((i : ℕ) → read_id from_json (dumps (good_value i)) ≡ some i)
      → (n : ℕ) (bad : List Value) → All (λ v. read_id from_json (serialize dumps v) ≡ none) bad
      → filter (poison_flag from_json) (messages_from dumps stamp 0 (good_values 0 n ++ bad))
        ≡ messages_from dumps stamp n bad
  bad_remain reads n bad unread =
      let flag = poison_flag from_json in
      let goods = messages_from dumps stamp 0 (good_values 0 n) in
      let next = 0 + length (good_values 0 n) in
      ap (filter flag) (messages_from-append dumps stamp 0 (good_values 0 n) bad)
      ∙ filter-append flag goods (messages_from dumps stamp next bad)
      ∙ ap (λ l. l ++ filter flag (messages_from dumps stamp next bad)) (good_pass reads 0 0 n)
      ∙ filter-messages_from next bad unread
      ∙ ap (λ o. messages_from dumps stamp o bad) (omega (arith, length-good_values 0 n))

  produced_length :
      (n : ℕ) (bad : List Value)
      → length (messages_from dumps stamp 0 (good_values 0 n ++ bad)) ≡ n + length bad
  produced_length n bad =
      length-messages_from dumps stamp 0 (good_values 0 n ++ bad)
      ∙ length-append (good_values 0 n) bad
      ∙ ap (λ k. k + length bad) (length-good_values 0 n)

  -- If the schema reads the id of every good event and none in the poison values, the dead letters
  -- are the poison messages, in order and with their offsets, and the main table has as many rows
  -- as there are good events.
  pub produced_reconciles :
      ((i : ℕ) → read_id from_json (dumps (good_value i)) ≡ some i)
      → All (λ v. read_id from_json (serialize dumps v) ≡ none) poison
      → (dlq_df from_json (produced dumps stamp) ≡ messages_from dumps stamp n_good poison)
        × (main_count from_json (produced dumps stamp) ≡ n_good)
  unfolding dlq_df produced dlq_count
  produced_reconciles reads unread =
      let dead = bad_remain reads n_good poison unread in
      let total =
        (dlq_reconciles from_json
          (messages_from dumps stamp 0 (good_values 0 n_good ++ poison))).0 in
      (
        dead,
        omega (
          arith,
          total,
          ap length dead,
          length-messages_from dumps stamp n_good poison,
          produced_length n_good poison,
        ),
      )
