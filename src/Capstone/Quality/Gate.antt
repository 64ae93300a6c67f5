-- ===== src/Capstone/Quality/Gate.antt =====
-- What passes the gate of capstone/cap1_pipeline.py.
use spark_dev.Base.{
  All-map, ℕ, suc, ◌≤◌, ◌≡◌, ◌≢◌, ◌↔◌, ◌⊎◌, inl, inr, ap, Bool, true, ◌&&◌, Option, none, some,
  List, [], ◌∷◌, map, All, In, if◌then◌else◌, arith,
}
use spark_dev.Base.Int.{pos}
use spark_dev.Capstone.Merge.{Row, sql_eq}
use spark_dev.Capstone.Merge.Lookup.{count_id, IsKeyed}
use spark_dev.Capstone.Quality.{
  Cell, null, whole, decimal, text, Table, Expectation, IsUnique, IsBetween, IsInSet, IsValidator,
  cap1_statuses, cell_of, mirror_table, validate, quality,
}

abbrev ids : List Row → List Cell
ids rows = map (λ (r : Row). cell_of whole r.id) rows

number_in : Cell → ℕ
number_in null = 0
number_in (whole n) = n
number_in (decimal n) = 0
number_in (text s) = 0

-- A row of the id is counted.
counted : (k : ℕ) (rows : List Row) → In (whole k) (ids rows) → 1 ≤ count_id k rows
unfolding count_id
counted k [] m = absurd m
counted k (r ∷ rows) m = go r.id (counted k rows) m
  where
    go :
        (id : Option ℕ)
        → (In (whole k) (ids rows) → 1 ≤ count_id k rows)
        → (whole k ≡ cell_of whole id) ⊎ In (whole k) (ids rows)
        → 1 ≤ (if sql_eq (some k) id then suc (count_id k rows) else count_id k rows)
    go none f (inl e) = ground arith
    go none f (inr m) = f m
    go (some j) f (inl e) = ground (arith, ap number_in e)
    go (some j) f (inr m) = ground (arith, f m)

ids-IsUnique : (rows : List Row) → IsKeyed rows → IsUnique (ids rows)
unfolding count_id
ids-IsUnique [] keyed = tt
ids-IsUnique (r ∷ rows) keyed = go r.id (ids-IsUnique rows) keyed
  where
    go :
        (id : Option ℕ)
        → (IsKeyed rows → IsUnique (ids rows))
        → ((k : ℕ) → (if sql_eq (some k) id then suc (count_id k rows) else count_id k rows) ≤ 1)
        → IsUnique (cell_of whole id ∷ ids rows)
    go none f keyed = f keyed
    go (some j) f keyed =
        (λ m. ground (arith, counted j rows m, keyed j), f (λ k. ground (arith, keyed k)))

module _ (meets : Expectation → Table → Bool) (laws : IsValidator meets) where
  -- On a mirror that has an id in each row, and none twice, the gate passes if and only if every
  -- amount that is not null is between 0 and a million, and every status that is not null is one of
  -- the five.
  pub quality_verdict :
      (rows : List Row)
      → IsKeyed rows
      → All (λ (r : Row). cell_of whole r.id ≢ null) rows
      → (quality meets rows ≡ 0) ↔ (
          All (λ (r : Row). IsBetween (pos 0) (pos 100000000) (cell_of decimal r.amount)) rows
          × All (λ (r : Row). IsInSet cap1_statuses (cell_of text r.status)) rows)
  unfolding quality validate mirror_table
  quality_verdict rows keyed known =
      let t = mirror_table rows in
      let some_id =
        (laws.null_law "id" t).1
          ((All-map (λ cell. cell ≢ null) (λ (r : Row). cell_of whole r.id) rows).1 known) in
      let one_id = (laws.unique_law "id" t).1 (ids-IsUnique rows keyed) in
      let between = laws.between_law "amount" (pos 0) (pos 100000000) t in
      let in_set = laws.in_set_law "status" cap1_statuses t in
      let amounts =
        All-map (IsBetween (pos 0) (pos 100000000)) (λ (r : Row). cell_of decimal r.amount) rows in
      let statuses = All-map (IsInSet cap1_statuses) (λ (r : Row). cell_of text r.status) rows in
      let (to, from) = passes some_id one_id in
      (
        λ e. (amounts.0 (between.0 (to e).0), statuses.0 (in_set.0 (to e).1)),
        λ h. from (between.1 (amounts.1 h.0), in_set.1 (statuses.1 h.1)),
      )
    where
      passes :
          {a b c d : Bool}
          → a ≡ true
          → b ≡ true
          → (◌≡◌ {A = ℕ} (if a && (b && (c && (d && true))) then 0 else 1) 0)
            ↔ ((c ≡ true) × (d ≡ true))
      passes x y = ground arith
