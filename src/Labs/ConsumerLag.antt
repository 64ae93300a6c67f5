-- ===== src/Labs/ConsumerLag.antt =====
-- kafka/consumer_lag/kaf2_consumer_lag.ipynb: consumers of one group that read part of a topic and
-- stop, with and without committing.
-- The topic has one partition, with the offsets 0 to `end` - 1. Kafka is the parameter `consumer`:
-- the offsets that a consumer of the group is given, from what the group has committed, and the
-- position that `commit` stores after those that were seen. `IsConsumer` has what it documents.
use spark_dev.Base.{
  ◌≡◌, ℕ, zero, suc, ◌+◌, ◌-◌, Bool, true, false, Option, none, some, List, [], ◌∷◌, ◌++◌, length,
  leb, range_from, if◌then◌else◌,
}
pub mod Crashes

abbrev pub start_of : Option ℕ → ℕ
start_of none = 0
start_of (some offset) = offset

pub record Consumer : Type 0 where
  pub yields : ℕ → Option ℕ → List ℕ
  pub position : Option ℕ → List ℕ → ℕ

-- A consumer starts at the committed offset, at the earliest if there is none, and its position is
-- the offset after the last message that it was given.
pub record IsConsumer (consumer : Consumer) : Type 0 where
  pub yields_rest :
      (end : ℕ) (committed : Option ℕ)
      → consumer.yields end committed ≡ range_from (start_of committed) (end - start_of committed)
  pub position_after :
      (committed : Option ℕ) (seen : List ℕ)
      → consumer.position committed seen ≡ start_of committed + length seen

-- `for msg in c`, which appends to `seen` and stops at n
unfoldable pub consume_loop : ℕ → List ℕ → List ℕ → List ℕ
consume_loop n seen [] = seen
consume_loop n seen (offset ∷ offsets) =
    let seen' = seen ++ (offset ∷ []) in
    let rest = consume_loop n seen' offsets in if leb n (length seen') then seen' else rest

module _ (consumer : Consumer) where
  -- `consume_n`, without the automatic commit: the offsets seen, and what the group has committed
  unfoldable pub consume_n : ℕ → Option ℕ → ℕ → Bool → List ℕ × Option ℕ
  unfolding consume_loop
  consume_n end committed n commit_at_end =
      let seen = consume_loop n [] (consumer.yields end committed) in
      (seen, if commit_at_end then some (consumer.position committed seen) else committed)

  -- consumers of the group, one after another: all offsets seen, and what is committed
  unfoldable pub consume_all : ℕ → Option ℕ → List (ℕ × Bool) → List ℕ × Option ℕ
  unfolding consume_n
  consume_all end committed [] = ([], committed)
  consume_all end committed ((n, commit_at_end) ∷ runs) =
      let (seen, next) = consume_n end committed n commit_at_end in
      let (more, last) = consume_all end next runs in (seen ++ more, last)

-- the lag of the group
unfoldable pub lag : ℕ → Option ℕ → ℕ
lag end committed = end - start_of committed
