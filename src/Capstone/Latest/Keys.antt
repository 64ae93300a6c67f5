-- ===== src/Capstone/Latest/Keys.antt =====
-- The keys of the partitions of the window in `ingest` of capstone/cap1_pipeline.py: each id once.
use spark_dev.Base.{
  ℕ, suc, ◌≤◌, ◌≡◌, ◌↔◌, refl, true, not, Option, none, some, List, [], ◌∷◌, if◌then◌else◌, filter,
  head?, In, arith, inl,
}
use spark_dev.Capstone.Events.{Change}
use spark_dev.Capstone.Latest.{same_key, partition_keys}
use spark_dev.Capstone.Merge.{sql_eq}

same_key-eq : (k : ℕ) (o : Option ℕ) → same_key (some k) o ≡ sql_eq (some k) o
unfolding same_key
same_key-eq k none = refl
same_key-eq k (some a) = refl

pub same_key_iff : (k : ℕ) (o : Option ℕ) → (same_key (some k) o ≡ true) ↔ (o ≡ some k)
unfolding same_key
same_key_iff k none = ground arith
same_key_iff k (some a) = ground arith

-- how often an id is among the keys
unfoldable pub count_key : ℕ → List (Option ℕ) → ℕ
count_key k [] = 0
count_key k (j ∷ js) = if sql_eq (some k) j then suc (count_key k js) else count_key k js

pub count_key-cons :
    (k : ℕ) (j : Option ℕ) (js : List (Option ℕ))
    → count_key k (j ∷ js) ≡ (if sql_eq (some k) j then suc (count_key k js) else count_key k js)
unfolding count_key
count_key-cons k j js = refl

same_key-sym :
    (k : ℕ) (i j : Option ℕ) → sql_eq (some k) j ≡ true → same_key i j ≡ sql_eq (some k) i
unfolding same_key
same_key-sym k none j h = ground arith
same_key-sym k (some i) none h = cc
same_key-sym k (some i) (some j) h = ground arith

count_key-filter :
    (k : ℕ) (i : Option ℕ) (js : List (Option ℕ))
    → count_key k (filter (λ j. not (same_key i j)) js)
      ≡ (if sql_eq (some k) i then 0 else count_key k js)
unfolding count_key
count_key-filter k i [] = ground arith
count_key-filter k i (j ∷ js) = ground (arith, count_key-filter k i js, same_key-sym k i j)

pub count_key-le_one : (k : ℕ) (cs : List Change) → count_key k (partition_keys cs) ≤ 1
unfolding count_key partition_keys
count_key-le_one k [] = omega arith
count_key-le_one k (c ∷ cs) =
    ground (arith, count_key-filter k c.id (partition_keys cs), count_key-le_one k cs)

pub count_key_pos :
    (k : ℕ) (c : Change) (cs : List Change)
    → In c cs
    → c.id ≡ some k
    → count_key k (partition_keys cs) ≡ 1
unfolding count_key partition_keys
count_key_pos k c [] m e = absurd m
count_key_pos k c (d ∷ cs) m e =
    ground (arith, count_key-filter k d.id (partition_keys cs), count_key_pos k c cs)

pub head?-In : {A : Type 0} (xs : List A) (a : A) → head? xs ≡ some a → In a xs
head?-In [] a e = cc
head?-In (x ∷ xs) a e = inl (ground arith)

pub same_key_sound : (i j : Option ℕ) → same_key i j ≡ true → j ≡ i
unfolding same_key
same_key_sound none none h = refl
same_key_sound none (some b) h = cc
same_key_sound (some a) none h = cc
same_key_sound (some a) (some b) h = ground arith
