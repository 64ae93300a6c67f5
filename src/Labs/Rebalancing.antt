-- ===== src/Labs/Rebalancing.antt =====
-- kafka/consumer_groups/kaf3_rebalancing.ipynb: which consumer of a group has which partitions, as
-- consumers join and leave.
-- What Kafka assigns to a consumer, when the group has settled, is the parameter `assignment`, of
-- the members of the group and one of them.
use spark_dev.Base.{ℕ, ◌+◌, ◌≤◌, String, List, [], ◌∷◌, any, ◌==◌, length, if◌then◌else◌, arith}
use spark_dev.Base.Sorted.{sorted}

abbrev pub partitions : ℕ
partitions = 3

-- `set(a) | set(b)`, as a list without repetitions
unfoldable pub union : List ℕ → List ℕ → List ℕ
union [] b = b
union (p ∷ a) b = if any (λ q. q == p) (union a b) then union a b else p ∷ union a b

module _ (assignment : List String → String → List ℕ) where
  unfoldable pub assigned : List String → String → List ℕ
  assigned members c = sorted (assignment members c)

  -- the partitions of A and of B
  pub record Step : Type 0 where
    pub a : List ℕ
    pub b : List ℕ

  unfoldable pub step1 : Step
  step1 = record { a = assigned ("A" ∷ []) "A"; b = [] }

  unfoldable pub step2 : Step
  step2 = record { a = assigned ("A" ∷ "B" ∷ []) "A"; b = assigned ("A" ∷ "B" ∷ []) "B" }

  unfoldable pub step3 : Step
  step3 = record { a = assigned ("A" ∷ []) "A"; b = [] }

  unfoldable pub cover : Step → List ℕ
  cover s = sorted (union s.a s.b)

  unfoldable pub rows : List (String × Step × ℕ)
  rows =
      ("1. A alone", step1, length (cover step1))
      ∷ ("2. B joins (rebalance)", step2, length (cover step2))
      ∷ ("3. B leaves (rebal.)", step3, length (cover step3))
      ∷ []

  abbrev pub owners_of : List String → List String → List (String × List ℕ)
  owners_of members [] = []
  owners_of members (c ∷ cs) = (c, assigned members c) ∷ owners_of members cs

  -- the group that is larger than the topic
  unfoldable pub owners : List (String × List ℕ)
  owners = let members = "A" ∷ "C" ∷ "D" ∷ "E" ∷ [] in owners_of members members

-- `[name for name, parts in owners.items() if not parts]`
unfoldable pub idle : List (String × List ℕ) → List String
idle [] = []
idle ((name, []) ∷ owners) = name ∷ idle owners
idle ((name, p ∷ parts) ∷ owners) = idle owners

-- the number of partitions that are assigned
abbrev pub owned : List (String × List ℕ) → ℕ
owned [] = 0
owned ((name, parts) ∷ owners) = length parts + owned owners

-- Of more consumers than assigned partitions, at least the difference is idle.
pub idle_bound :
    (owners : List (String × List ℕ)) → length owners ≤ length (idle owners) + owned owners
unfolding idle
idle_bound [] = omega arith
idle_bound ((name, []) ∷ owners) = omega (arith, idle_bound owners)
idle_bound ((name, p ∷ parts) ∷ owners) = omega (arith, idle_bound owners)
