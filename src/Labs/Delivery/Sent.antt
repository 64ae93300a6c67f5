-- ===== src/Labs/Delivery/Sent.antt =====
-- The charges that kafka/delivery_semantics/kaf5_delivery.ipynb sends, read and counted.
use spark_dev.Base.{
  range_from, length-range_from, In-range_from, ℕ, zero, suc, ◌+◌, ◌≤◌, ◌<◌, ◌≡◌, refl, sym, ap,
  ◌∙◌, List, [], ◌∷◌, ◌++◌, length, length-append, All, All-append, All-mono, In, arith,
}
use mathlib.Core.Path.{subst}
use spark_dev.Labs.Delivery.{
  Counter, bump, count_from, n_events, resent, sent, naive_revenue, deduped_ids, deduped_revenue,
  Isolation, consume_id_counts,
}
use spark_dev.Labs.Delivery.Replays.{replays_harmless}

range_from_within :
    (i n bound : ℕ) → i + n ≤ bound → All (λ k. In k (range_from 0 bound)) (range_from i n)
range_from_within i zero bound h = tt
range_from_within i (suc n) bound h = (
  In-range_from 0 bound i (omega arith) (omega arith),
  range_from_within (suc i) n bound (omega arith),
)

-- An id that is larger than all those counted comes last.
keys-bump_new :
    (i : ℕ) (c : Counter)
    → All (λ k. k < i) (deduped_ids c)
    → deduped_ids (bump i c) ≡ deduped_ids c ++ (i ∷ [])
unfolding bump deduped_ids
keys-bump_new i [] h = refl
keys-bump_new i ((j, n) ∷ c) h = ground (arith, keys-bump_new i c h.1)

length-keys_from :
    (c : Counter) (i n : ℕ)
    → All (λ k. k < i) (deduped_ids c)
    → length (deduped_ids (count_from c (range_from i n))) ≡ length (deduped_ids c) + n
unfolding count_from
length-keys_from c i zero h = omega arith
length-keys_from c i (suc n) h =
    let new = keys-bump_new i c h in
    omega (
      arith,
      length-keys_from (bump i c) (suc i) n (
          subst (All (λ k. k < suc i)) (sym new) (
            All-append (λ k. k < suc i) (deduped_ids c) (i ∷ [])
              (All-mono (λ k. k < i) (λ k. k < suc i) (λ k l. omega arith) (deduped_ids c) h)
              (omega arith, tt))),
      ap length new,
      length-append (deduped_ids c) (i ∷ []),
    )

-- Read as they were sent, the charges make the naive revenue 1200 and the deduplicated one 1000.
pub sent_revenue :
    (records : Isolation → List ℕ) (level : Isolation)
    → records level ≡ sent
    → (deduped_revenue (consume_id_counts records level) ≡ n_events)
      × (naive_revenue (consume_id_counts records level) ≡ n_events + resent)
unfolding sent consume_id_counts deduped_revenue deduped_ids
sent_revenue records level e =
    let (once, all) =
      replays_harmless records level (range_from 0 n_events) (range_from 0 resent) e
        (range_from_within 0 resent n_events (omega arith)) in
    (
      once ∙ length-keys_from [] 0 n_events tt,
      omega (arith, all, length-range_from 0 n_events, length-range_from 0 resent),
    )
