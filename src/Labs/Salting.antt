-- ===== src/Labs/Salting.antt =====
-- spark/skew/spk1_data_skew.ipynb: the join of a skewed fact table with its dimension, and the
-- salted one. `salt` is the salt that the random expression gives to a row of the fact table.
use spark_dev.Base.{
  ℕ, zero, suc, ◌+◌, ◌==◌, ◌<◌, ◌≡◌, refl, ap, ◌∙◌, Bool, ◌&&◌, leb, ltb, List, [], ◌∷◌, ◌++◌, map,
  filter, range_from, if◌then◌else◌, arith,
}

module _ {F D : Type 0} (fact_key : F → ℕ) (dim_key : D → ℕ) where
  -- the rows of a dimension that have the key of a row of the fact table
  unfoldable pub joined_to : F → List D → List (F × D)
  joined_to f dim = map (λ d. (f, d)) (filter (λ d. fact_key f == dim_key d) dim)

  -- `fact.join(dim, on="customer_id", how="inner")`
  unfoldable pub broken_join : List F → List D → List (F × D)
  unfolding joined_to
  broken_join [] dim = []
  broken_join (f ∷ fact) dim = joined_to f dim ++ broken_join fact dim

  abbrev pub n_salts : ℕ
  n_salts = 16

  -- `explode` of the salts of one row
  unfoldable pub exploded : D → List ℕ → List (D × ℕ)
  exploded d [] = []
  exploded d (s ∷ salts) = (d, s) ∷ exploded d salts

  unfoldable pub salted_dim : List D → List (D × ℕ)
  unfolding exploded
  salted_dim [] = []
  salted_dim (d ∷ dim) = exploded d (range_from 0 n_salts) ++ salted_dim dim

  unfoldable pub salted_to : F → ℕ → List (D × ℕ) → List (F × D)
  salted_to f s dim = map (λ d. (f, d.0)) (filter (λ d. fact_key f == dim_key d.0 && s == d.1) dim)

  -- `salted_fact.join(salted_dim, on=["customer_id", "salt"])`, without the salts
  unfoldable pub salted_join : (F → ℕ) → List F → List D → List (F × D)
  unfolding salted_to salted_dim
  salted_join salt [] dim = []
  salted_join salt (f ∷ fact) dim =
      salted_to f (salt f) (salted_dim dim) ++ salted_join salt fact dim

  filter-append :
      {A : Type 0} (p : A → Bool) (xs ys : List A)
      → filter p (xs ++ ys) ≡ filter p xs ++ filter p ys
  filter-append p [] ys = refl
  filter-append p (x ∷ xs) ys = ground (arith, filter-append p xs ys)

  map-append : {A B : Type 0} (f : A → B) (xs ys : List A) → map f (xs ++ ys) ≡ map f xs ++ map f ys
  map-append f [] ys = refl
  map-append f (x ∷ xs) ys = ap (λ l. f x ∷ l) (map-append f xs ys)

  -- Of the salts from i on, a row of the dimension is joined at one, if the salt is among them.
  salted_to-exploded :
      (f : F) (s i n : ℕ) (d : D)
      → salted_to f s (exploded d (range_from i n))
        ≡ (if leb i s && ltb s (i + n) then joined_to f (d ∷ []) else [])
  unfolding salted_to exploded joined_to
  salted_to-exploded f s i zero d = ground arith
  salted_to-exploded f s i (suc n) d = ground (arith, salted_to-exploded f s (suc i) n d)

  salted_to-append :
      (f : F) (s : ℕ) (xs ys : List (D × ℕ))
      → salted_to f s (xs ++ ys) ≡ salted_to f s xs ++ salted_to f s ys
  unfolding salted_to
  salted_to-append f s xs ys =
      ap (map (λ d. (f, d.0))) (filter-append (λ d. fact_key f == dim_key d.0 && s == d.1) xs ys)
      ∙ map-append (λ d. (f, d.0)) (filter (λ d. fact_key f == dim_key d.0 && s == d.1) xs)
          (filter (λ d. fact_key f == dim_key d.0 && s == d.1) ys)

  salted_to_one :
      (f : F) (s : ℕ) (d : D)
      → s < n_salts
      → salted_to f s (exploded d (range_from 0 n_salts)) ≡ joined_to f (d ∷ [])
  salted_to_one f s d h = ground (arith, salted_to-exploded f s 0 n_salts d)

  joined_to-append :
      (f : F) (d : D) (dim : List D)
      → joined_to f (d ∷ []) ++ joined_to f dim ≡ joined_to f (d ∷ dim)
  unfolding joined_to
  joined_to-append f d dim = ground arith

  salted_to-salted_dim :
      (f : F) (s : ℕ) (dim : List D)
      → s < n_salts
      → salted_to f s (salted_dim dim) ≡ joined_to f dim
  unfolding salted_dim salted_to joined_to
  salted_to-salted_dim f s [] h = refl
  salted_to-salted_dim f s (d ∷ dim) h =
      salted_to-append f s (exploded d (range_from 0 n_salts)) (salted_dim dim)
      ∙ ap (λ l. l ++ salted_to f s (salted_dim dim)) (salted_to_one f s d h)
      ∙ ap (λ l. joined_to f (d ∷ []) ++ l) (salted_to-salted_dim f s dim h)
      ∙ joined_to-append f d dim

  -- If every salt is below 16, the salted join has the rows of the join, in the same order.
  pub salted_join_lem :
      (salt : F → ℕ)
      → ((f : F) → salt f < n_salts)
      → (fact : List F) (dim : List D) → salted_join salt fact dim ≡ broken_join fact dim
  unfolding salted_join broken_join
  salted_join_lem salt h [] dim = refl
  salted_join_lem salt h (f ∷ fact) dim =
      ap (λ l. l ++ salted_join salt fact dim) (salted_to-salted_dim f (salt f) dim (h f))
      ∙ ap (λ l. joined_to f dim ++ l) (salted_join_lem salt h fact dim)
