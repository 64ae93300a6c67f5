-- ===== src/Capstone/Merge/Lookup.antt =====
-- The mirror as a map: the row of an id, how often an id occurs, and both over the two halves of
-- the MERGE of capstone/cap1_pipeline.py.
use spark_dev.Base.{
  ℕ, suc, ◌+◌, ◌≤◌, ◌≡◌, refl, true, false, Option, none, some, List, [], ◌∷◌, ◌++◌, if◌then◌else◌,
  any, arith, Option-cases, inl, inr, ◌≢◌, All, All-at, In,
}
use spark_dev.Base.Dict.{or_else}
use spark_dev.Capstone.Merge.{Row, sql_eq}

-- the first row of an id
unfoldable pub row_at : ℕ → List Row → Option Row
row_at k [] = none
row_at k (r ∷ rs) = if sql_eq (some k) r.id then some r else row_at k rs

-- how many rows have an id
unfoldable pub count_id : ℕ → List Row → ℕ
count_id k [] = 0
count_id k (r ∷ rs) = if sql_eq (some k) r.id then suc (count_id k rs) else count_id k rs

-- No id occurs twice.
abbrev pub IsKeyed : List Row → Type 0
IsKeyed rs = (k : ℕ) → count_id k rs ≤ 1

pub row_at-append :
    (k : ℕ) (rs us : List Row) → row_at k (rs ++ us) ≡ or_else (row_at k rs) (row_at k us)
unfolding row_at
row_at-append k [] us = refl
row_at-append k (r ∷ rs) us = ground (arith, row_at-append k rs us)

pub count_id-append :
    (k : ℕ) (rs us : List Row) → count_id k (rs ++ us) ≡ count_id k rs + count_id k us
unfolding count_id
count_id-append k [] us = omega arith
count_id-append k (r ∷ rs) us = ground (arith, count_id-append k rs us)

pub row_at_absent : (k : ℕ) (rs : List Row) → count_id k rs ≡ 0 → row_at k rs ≡ none
unfolding count_id row_at
row_at_absent k [] h = refl
row_at_absent k (r ∷ rs) h = ground (arith, row_at_absent k rs)

pub count_id_absent : (k : ℕ) (rs : List Row) → row_at k rs ≡ none → count_id k rs ≡ 0
unfolding count_id row_at
count_id_absent k [] h = refl
count_id_absent k (r ∷ rs) h = ground (arith, count_id_absent k rs)

-- The test of NOT MATCHED is the lookup.
pub any-row_at :
    (k : ℕ) (rs : List Row)
    → any (λ r. sql_eq r.id (some k)) rs ≡ (elim (row_at k rs) [ none ↦ false | some _ ↦ true ])
unfolding row_at
any-row_at k [] = refl
any-row_at k (r ∷ rs) = elim (Option-cases r.id) [
  | inl e ↦ rw (e, any-row_at k rs) refl
  | inr (j, e) ↦ ground (arith, any-row_at k rs)
]

pub row_at-id : (k : ℕ) (rs : List Row) (r : Row) → row_at k rs ≡ some r → r.id ≡ some k
unfolding row_at
row_at-id k [] r e = cc
row_at-id k (t ∷ rs) r e = ground (arith, row_at-id k rs r)

row_at-In : (k : ℕ) (rs : List Row) (r : Row) → row_at k rs ≡ some r → In r rs
unfolding row_at
row_at-In k [] r e = cc
row_at-In k (t ∷ rs) r e = ground (arith, row_at-In k rs r)

IsKeyed-rest : (t : Row) (rs : List Row) → IsKeyed (t ∷ rs) → IsKeyed rs
unfolding count_id
IsKeyed-rest t rs keyed k = ground (arith, keyed k)

row_at_behind :
    (k : ℕ) (t : Row) (rs : List Row) (r : Row)
    → IsKeyed (t ∷ rs)
    → row_at k rs ≡ some r
    → row_at k (t ∷ rs) ≡ some r
unfolding row_at count_id
row_at_behind k t rs r keyed e = ground (arith, keyed k, row_at_absent k rs)

row_at_first : (k : ℕ) (t : Row) (rs : List Row) → t.id ≡ some k → row_at k (t ∷ rs) ≡ some t
unfolding row_at
row_at_first k t rs e = ground arith

-- What holds of all rows holds of those that the lookups find; no row is missed where each has an id
-- of its own.
pub All-row_at :
    (P : Row → Type 0) (rs : List Row) → All P rs → (k : ℕ) (r : Row) → row_at k rs ≡ some r → P r
All-row_at P rs h k r e = All-at P rs h (row_at-In k rs r e)

pub row_at-All :
    (P : Row → Type 0) (rs : List Row)
    → IsKeyed rs
    → All (λ (r : Row). r.id ≢ none) rs
    → ((k : ℕ) (r : Row) → row_at k rs ≡ some r → P r)
    → All P rs
row_at-All P [] keyed known f = tt
row_at-All P (t ∷ rs) keyed known f = (
  elim (Option-cases t.id) [
    | inl e ↦ absurd (known.0 e)
    | inr (k, e) ↦ f k t (row_at_first k t rs e)
  ],
  row_at-All P rs (IsKeyed-rest t rs keyed) known.1
      (λ k r e. f k r (row_at_behind k t rs r keyed e)),
)
