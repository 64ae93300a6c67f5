-- ===== src/Labs/Delivery/Replays.antt =====
-- Records that are on the topic again, in kafka/delivery_semantics/kaf5_delivery.ipynb.
use spark_dev.Base.{
  ℕ, suc, ◌+◌, ◌≡◌, inl, inr, refl, sym, ap, ◌∙◌, List, [], ◌∷◌, ◌++◌, length, All, All-mono,
  length-append, In, arith,
}
use mathlib.Core.Path.{subst}
use spark_dev.Labs.Delivery.{
  Counter, bump, count_from, seen, naive_revenue, deduped_ids, deduped_revenue, Isolation,
  consume_id_counts,
}

seen-bump : (i : ℕ) (c : Counter) → seen (bump i c) ≡ suc (seen c)
unfolding seen bump
seen-bump i [] = omega arith
seen-bump i ((j, n) ∷ c) = ground (arith, seen-bump i c)

pub seen-count_from : (c : Counter) (ids : List ℕ) → seen (count_from c ids) ≡ seen c + length ids
unfolding count_from
seen-count_from c [] = omega arith
seen-count_from c (i ∷ ids) = omega (arith, seen-count_from (bump i c) ids, seen-bump i c)

-- An id that is counted again keeps the keys, and is one of them.
keys-bump : (i : ℕ) (c : Counter) → In i (deduped_ids c) → deduped_ids (bump i c) ≡ deduped_ids c
unfolding bump deduped_ids
keys-bump i [] m = absurd m
keys-bump i ((j, n) ∷ c) m = ground (arith, keys-bump i c)

bumped : (i : ℕ) (c : Counter) → In i (deduped_ids (bump i c))
unfolding bump deduped_ids
bumped i [] = inl refl
bumped i ((j, n) ∷ c) = ground (arith, bumped i c)

kept : (i k : ℕ) (c : Counter) → In k (deduped_ids c) → In k (deduped_ids (bump i c))
unfolding bump deduped_ids
kept i k [] m = absurd m
kept i k ((j, n) ∷ c) m = ground (arith, kept i k c)

keys-count_from :
    (c : Counter) (ids : List ℕ)
    → All (λ i. In i (deduped_ids c)) ids
    → deduped_ids (count_from c ids) ≡ deduped_ids c
unfolding count_from
keys-count_from c [] h = refl
keys-count_from c (i ∷ ids) (m, h) =
    let same = keys-bump i c m in
    keys-count_from (bump i c) ids (
      All-mono (λ k. In k (deduped_ids c)) (λ k. In k (deduped_ids (bump i c))) (λ k. kept i k c)
        ids h)
    ∙ same

still_counted :
    (c : Counter) (ids : List ℕ) (k : ℕ)
    → In k (deduped_ids c)
    → In k (deduped_ids (count_from c ids))
unfolding count_from
still_counted c [] k m = m
still_counted c (i ∷ ids) k m = still_counted (bump i c) ids k (kept i k c m)

counted : (c : Counter) (ids : List ℕ) (k : ℕ) → In k ids → In k (deduped_ids (count_from c ids))
unfolding count_from
counted c [] k m = absurd m
counted c (i ∷ ids) k (inl e) =
    still_counted (bump i c) ids k (subst (λ x. In x (deduped_ids (bump i c))) (sym e) (bumped i c))
counted c (i ∷ ids) k (inr m) = counted (bump i c) ids k m

count_from-append :
    (c : Counter) (xs ys : List ℕ) → count_from c (xs ++ ys) ≡ count_from (count_from c xs) ys
unfolding count_from
count_from-append c [] ys = refl
count_from-append c (x ∷ xs) ys = count_from-append (bump x c) xs ys

-- If a consumer reads some ids and then some of them again, the revenue that counts each id once is
-- what it was without the replays, and the naive one counts every record.
pub replays_harmless :
    (records : Isolation → List ℕ) (level : Isolation) (first again : List ℕ)
    → records level ≡ first ++ again
    → All (λ i. In i first) again
    → (deduped_revenue (consume_id_counts records level)
        ≡ deduped_revenue (consume_id_counts (λ _. first) level))
      × (naive_revenue (consume_id_counts records level) ≡ length first + length again)
unfolding consume_id_counts deduped_revenue naive_revenue seen
replays_harmless records level first again e h = (
  ap length (
      ap (λ ids. deduped_ids (count_from [] ids)) e
      ∙ ap deduped_ids (count_from-append [] first again)
      ∙ keys-count_from (count_from [] first) again (
          All-mono (λ i. In i first) (λ i. In i (deduped_ids (count_from [] first)))
            (λ i. counted [] first i) again h)),
  ap (λ ids. seen (count_from [] ids)) e
      ∙ omega (arith, seen-count_from [] (first ++ again), length-append first again),
)
