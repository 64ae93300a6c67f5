-- ===== src/Labs/Caching.antt =====
-- spark/caching/spk8_caching.ipynb: the reuses of a frame, which count its rows by residues of the
-- key. Keys are not null, since they are residues themselves.
use spark_dev.Base.{ℕ, zero, suc, ◌+◌, ◌%◌, ◌==◌, ◌≡◌, refl, List, [], ◌∷◌, filter, length, arith}

abbrev pub n_reuse : ℕ
n_reuse = 4

-- the rows that one reuse counts
unfoldable pub counted : ℕ → List ℕ → ℕ
counted t keys = length (filter (λ key. key % n_reuse == t) keys)

-- the loop of `reuse_all`, over the first n residues
unfoldable pub reuse_loop : ℕ → List ℕ → ℕ
unfolding counted
reuse_loop zero keys = 0
reuse_loop (suc t) keys = reuse_loop t keys + counted t keys

unfoldable pub reuse_all : List ℕ → ℕ
unfolding reuse_loop
reuse_all keys = reuse_loop n_reuse keys

-- The reuses count every row, once.
pub reuse_all_lem : (keys : List ℕ) → reuse_all keys ≡ length keys
unfolding reuse_all reuse_loop counted
reuse_all_lem [] = refl
reuse_all_lem (key ∷ keys) = ground (arith, reuse_all_lem keys)
