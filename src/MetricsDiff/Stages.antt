-- ===== src/MetricsDiff/Stages.antt =====
-- The stages that common/metrics_diff.py reads, their totals, and the heavy one.
use spark_dev.Base.{
  inl, inr, In, All, arith, ◌≡◌, refl, ℕ, ◌+◌, Bool, true, false, ◌&&◌, ◌||◌, Option, none, some,
  List, [], ◌∷◌, ltb, ◌==◌, if◌then◌else◌, any, try_then,
}
use mathlib.Core.Option

-- a stage's dict: a key that is absent is none
pub record Stage : Type 0 where
  pub stage_id : Option ℕ
  pub attempt_id : Option ℕ
  pub num_tasks : Option ℕ
  pub shuffle_read_bytes : Option ℕ
  pub shuffle_write_bytes : Option ℕ
  pub memory_bytes_spilled : Option ℕ
  pub disk_bytes_spilled : Option ℕ

-- `.get(…, 0)`
abbrev pub or_zero : Option ℕ → ℕ
or_zero none = 0
or_zero (some n) = n

-- `{s["stageId"] for s in …}`, where a missing key raises
unfoldable pub stage_ids : List Stage → Option (List ℕ)
stage_ids [] = some []
stage_ids (s ∷ ss) = try_then s.stage_id (λ i. Option.map (λ is. i ∷ is) (stage_ids ss))

-- `[s for s in … if s["stageId"] not in before_ids]`
unfoldable pub new_stages : List ℕ → List Stage → Option (List Stage)
new_stages before [] = some []
new_stages before (s ∷ ss) = try_then s.stage_id (λ i.
    let rest = new_stages before ss in
    if any (λ j. i == j) before then rest else Option.map (λ ts. s ∷ ts) rest)

unfoldable pub total_of : (Stage → Option ℕ) → List Stage → ℕ
total_of f [] = 0
total_of f (s ∷ ss) = or_zero (f s) + total_of f ss

-- `<` on the keys of `max`, which are compared part by part
unfoldable pub lighter : Stage → Stage → Bool
lighter s t =
    let r = or_zero s.shuffle_read_bytes in
    let r' = or_zero t.shuffle_read_bytes in
    let m = or_zero s.memory_bytes_spilled in
    let m' = or_zero t.memory_bytes_spilled in
    ltb r r'
    || ((r == r') && (ltb m m' || ((m == m') && ltb (or_zero s.num_tasks) (or_zero t.num_tasks))))

-- `max`: the first of the heaviest
unfoldable pub heaviest : Stage → List Stage → Stage
heaviest s [] = s
heaviest s (t ∷ ts) = if lighter s t then heaviest t ts else heaviest s ts

lighter_irrefl : (s : Stage) → lighter s s ≡ false
unfolding lighter
lighter_irrefl s = ground arith

lighter_asym : (s t : Stage) → lighter s t ≡ true → lighter t s ≡ false
unfolding lighter
lighter_asym s t p = ground arith

-- not being lighter is transitive
lighter_weaken : (h s t : Stage) → lighter s t ≡ false → lighter h s ≡ false → lighter h t ≡ false
unfolding lighter
lighter_weaken h s t p q = ground arith

In-skip : {h : Stage} (s t : Stage) (ts : List Stage) → In h (s ∷ ts) → In h (s ∷ t ∷ ts)
In-skip s t ts (inl e) = inl e
In-skip s t ts (inr m) = inr (inr m)

-- The stage that `max` picks is one of the new stages, and none of them is heavier, by the shuffle
-- bytes read, then the bytes spilled, then the tasks.
pub heaviest_lem :
    (s : Stage) (ss : List Stage)
    → In (heaviest s ss) (s ∷ ss) × All (λ t. lighter (heaviest s ss) t ≡ false) (s ∷ ss)
unfolding heaviest
heaviest_lem s [] = (inl refl, (lighter_irrefl s, tt))
heaviest_lem s (t ∷ ts) = place (lighter s t) refl (heaviest_lem s ts) (heaviest_lem t ts)
  where
    place :
        (b : Bool)
        → lighter s t ≡ b
        → In (heaviest s ts) (s ∷ ts) × All (λ u. lighter (heaviest s ts) u ≡ false) (s ∷ ts)
        → In (heaviest t ts) (t ∷ ts) × All (λ u. lighter (heaviest t ts) u ≡ false) (t ∷ ts)
        → (let h = if b then heaviest t ts else heaviest s ts in
            In h (s ∷ t ∷ ts) × All (λ u. lighter h u ≡ false) (s ∷ t ∷ ts))
    place true e p q =
        (inr q.0, (lighter_weaken (heaviest t ts) t s (lighter_asym s t e) q.1.0, q.1))
    place false e p q =
        (In-skip s t ts p.0, (p.1.0, (lighter_weaken (heaviest s ts) s t e p.1.0, p.1.1)))
