-- ===== src/Datagen/Joins.antt =====
-- The facts of common/datagen.py joined with its dimension.
use spark_dev.Base.{
  ◌⊎◌, ℕ, zero, suc, ◌+◌, ◌%◌, ◌≤◌, ◌<◌, ◌≡◌, ◌≢◌, refl, ap, sym, ◌∙◌, inl, inr, Bool, true, false,
  some, List, map, In, All, if◌then◌else◌, arith,
}
use spark_dev.Base.Text.{Text}
use spark_dev.Base.Int.{ℤ, pos, negsuc}
use spark_dev.Datagen.{
  pmod, ids_from, range, FactRow, below, cold_key, skewed_key, skewed_row, skewed_keys, uniform_row,
  uniform_keys, DimensionRow, dimension_row, key_dimension,
}

-- a row of the dimension that carries the fact's key
abbrev pub Joins : {Amount : Type 0} → List DimensionRow → FactRow Amount → Type 0
Joins dimension row = (d : DimensionRow) × In d dimension × (row.key ≡ some d.key)

module _ {A : Type 0} (f : ℕ → A) where
  In-range : (i n j : ℕ) → i ≤ j → j < i + n → In (f j) (map f (ids_from i n))
  unfolding ids_from
  In-range i zero j h k = absurd (omega arith)
  In-range i (suc n) j h k = elim (eq_or_less i j h) [
    | inl e ↦ inl (ap f (sym e))
    | inr l ↦ inr (In-range (suc i) n j l (omega arith))
  ]
    where
      eq_or_less : (i j : ℕ) → i ≤ j → (i ≡ j) ⊎ (suc i ≤ j)
      eq_or_less i j h = ground arith

  All-range : (P : A → Type 0) → ((i : ℕ) → P (f i)) → (i n : ℕ) → All P (map f (ids_from i n))
  unfolding ids_from
  All-range P h i zero = tt
  All-range P h i (suc n) = (h i, All-range P h (suc i) n)

dimension_covers :
    (digits : ℕ → Text) (n_keys k : ℕ)
    → k < n_keys
    → (d : DimensionRow) × In d (key_dimension digits n_keys) × (pos k ≡ d.key)
unfolding key_dimension dimension_row
dimension_covers digits n_keys k h = (
  dimension_row digits k,
  In-range (dimension_row digits) 0 n_keys k (omega arith) (omega arith),
  refl,
)

module _ {Amount : Type 0} (hash : ℕ → ℤ) (amount : ℕ → ℕ → Amount) where
  key-Joins :
      (digits : ℕ → Text) (n_keys k : ℕ) (row : FactRow Amount)
      → row.key ≡ some (pos k)
      → k < n_keys
      → Joins (key_dimension digits n_keys) row
  key-Joins digits n_keys k row e h =
      let (d, m, q) = dimension_covers digits n_keys k h in (d, m, e ∙ ap some q)

  cold_key_lem :
      (n_cold_keys i : ℕ)
      → 0 < n_cold_keys
      → (k : ℕ) × (cold_key hash amount n_cold_keys i ≡ some (pos k)) × (0 < k) × (k ≤ n_cold_keys)
  unfolding pmod
  cold_key_lem zero i h = absurd (omega arith)
  cold_key_lem (suc n) i h = (suc (i % suc n), refl, omega arith, omega arith)

  skewed_key-Joins :
      (digits : ℕ → Text) (n_keys hot_pct n_cold_keys hot_key i : ℕ)
      → 0 < n_cold_keys
      → n_cold_keys < n_keys
      → hot_key < n_keys
      → Joins
          (key_dimension digits n_keys)
          (skewed_row hash amount hot_pct n_cold_keys (pos hot_key) i)
  unfolding skewed_row skewed_key
  skewed_key-Joins digits n_keys hot_pct n_cold_keys hot_key i p q r =
      choose (below (pmod (hash i) 100) hot_pct)
    where
      choose :
          (b : Bool)
          → (d : DimensionRow) × In d (key_dimension digits n_keys)
            × ((if b then some (pos hot_key) else cold_key hash amount n_cold_keys i) ≡ some d.key)
      choose true = let (d, m, e) = dimension_covers digits n_keys hot_key r in (d, m, ap some e)
      choose false =
          let (k, e, l, u) = cold_key_lem n_cold_keys i p in
          let (d, m, c) = dimension_covers digits n_keys k (omega (arith, u, q)) in
          (d, m, e ∙ ap some c)

pmod_not_below_zero : (x : ℤ) (n : ℕ) → below (pmod x n) 0 ≡ false
unfolding pmod
pmod_not_below_zero x zero = refl
pmod_not_below_zero (pos m) (suc n) = ground arith
pmod_not_below_zero (negsuc m) (suc n) = ground arith

-- If the fraction passes the guard, there are cold keys, and the dimension reaches beyond them and
-- the hot key, `skewed_keys` gives rows, and each joins a row of `key_dimension`.
pub skewed_keys_join :
    {Amount Fraction : Type 0} (hash : ℕ → ℤ) (amount : ℕ → ℕ → Amount) (between : Fraction → Bool)
    (percent : Fraction → ℕ) (digits : ℕ → Text) (n_rows : ℕ) (fraction : Fraction)
    (n_cold_keys hot_key n_keys : ℕ)
    → between fraction ≡ true
    → 0 < n_cold_keys
    → n_cold_keys < n_keys
    → hot_key < n_keys
    → (rows : List (FactRow Amount)) × (skewed_keys hash amount between percent n_rows fraction
          n_cold_keys
          (pos hot_key)
        ≡ some rows)
      × All (Joins (key_dimension digits n_keys)) rows
unfolding skewed_keys
skewed_keys_join hash amount between percent digits n_rows fraction n_cold_keys hot_key n_keys b p q
      r =
    let row = skewed_row hash amount (percent fraction) n_cold_keys (pos hot_key) in
    (
      map row (range n_rows),
      rw b refl,
      All-range row (Joins (key_dimension digits n_keys))
          (λ i.
            skewed_key-Joins hash amount digits n_keys (percent fraction) n_cold_keys hot_key i p q
              r)
          0 n_rows,
    )

-- With at least one key, every row of `uniform_keys` joins a row of the dimension of as many keys.
pub uniform_keys_join :
    {Amount : Type 0} (hash : ℕ → ℤ) (amount : ℕ → ℕ → Amount) (digits : ℕ → Text)
    (n_rows n_keys : ℕ)
    → 0 < n_keys
    → All (Joins (key_dimension digits n_keys)) (uniform_keys hash amount n_rows n_keys)
unfolding uniform_keys uniform_row pmod
uniform_keys_join hash amount digits n_rows zero h = absurd (omega arith)
uniform_keys_join hash amount digits n_rows (suc n) h =
    All-range (uniform_row hash amount (suc n)) (Joins (key_dimension digits (suc n)))
      (λ i.
        key-Joins hash amount digits (suc n) (i % suc n) (uniform_row hash amount (suc n) i) refl
          (omega arith))
      0 n_rows

skewed_key_cold :
    {Amount : Type 0} (hash : ℕ → ℤ) (amount : ℕ → ℕ → Amount) (hot_pct n_cold_keys i : ℕ)
    → hot_pct ≡ 0
    → 0 < n_cold_keys
    → skewed_key hash amount hot_pct n_cold_keys (pos 0) i ≢ some (pos 0)
unfolding skewed_key
skewed_key_cold hash amount hot_pct n_cold_keys i z p e =
    let (k, c, l, u) = cold_key_lem hash amount n_cold_keys i p in
    ground (arith, z, pmod_not_below_zero (hash i) 100)

-- For a fraction that passes the guard but rounds to 0 percent, and with cold keys, no row that
-- `skewed_keys` gives carries the hot key 0.
pub skewed_keys_none_hot :
    {Amount Fraction : Type 0} (hash : ℕ → ℤ) (amount : ℕ → ℕ → Amount) (between : Fraction → Bool)
    (percent : Fraction → ℕ) (n_rows : ℕ) (fraction : Fraction) (n_cold_keys : ℕ)
    → between fraction ≡ true
    → percent fraction ≡ 0
    → 0 < n_cold_keys
    → (rows : List (FactRow Amount)) × (skewed_keys hash amount between percent n_rows fraction
          n_cold_keys
          (pos 0)
        ≡ some rows)
      × All (λ row. row.key ≢ some (pos 0)) rows
unfolding skewed_keys
skewed_keys_none_hot {Amount} hash amount between percent n_rows fraction n_cold_keys b z p =
    let row = skewed_row hash amount (percent fraction) n_cold_keys (pos 0) in
    (
      map row (range n_rows),
      rw b refl,
      All-range row (λ row. row.key ≢ some (pos 0)) not_hot 0 n_rows,
    )
  where
    not_hot :
        (i : ℕ) → skewed_key hash amount (percent fraction) n_cold_keys (pos 0) i ≢ some (pos 0)
    not_hot i e = skewed_key_cold hash amount (percent fraction) n_cold_keys i z p e
