-- ===== src/Labs/ConsumerLag/Crashes.antt =====
-- Consumers of kafka/consumer_lag/kaf2_consumer_lag.ipynb that stop before they commit.
use spark_dev.Base.{
  ℕ, zero, suc, ◌+◌, ◌-◌, ◌≤◌, ◌<◌, ◌≡◌, ◌⊎◌, inl, inr, refl, sym, ap, ◌∙◌, Bool, true, false,
  Option, none, List, [], ◌∷◌, ◌++◌, length, length-append, leb, leb→le, Bool-cases, range_from,
  length-range_from, In-range_from, In, if◌then◌else◌, arith,
}
use mathlib.Core.Path.{subst}
use mathlib.Core.List.{append-nil, append_assoc}
use spark_dev.Labs.ConsumerLag.{
  start_of, Consumer, IsConsumer, consume_loop, consume_n, consume_all, lag,
}

-- The loop sees the first k of the offsets, all of them unless it saw n.
loop_prefix :
    (n : ℕ) (seen : List ℕ) (s m : ℕ)
    → (k : ℕ) × (k ≤ m)
      × (consume_loop n seen (range_from s m) ≡ seen ++ range_from s k)
      × ((k ≡ m) ⊎ (n ≤ length seen + k))
unfolding consume_loop
loop_prefix n seen s zero = (0, omega arith, sym (append-nil seen), inl refl)
loop_prefix n seen s (suc m) =
    go (consume_loop n (seen ++ (s ∷ [])) (range_from (suc s) m))
      (loop_prefix n (seen ++ (s ∷ [])) (suc s) m) (Bool-cases (leb n (length (seen ++ (s ∷ [])))))
  where
    go :
        (rest : List ℕ)
        → ((k : ℕ) × (k ≤ m)
            × (rest ≡ (seen ++ (s ∷ [])) ++ range_from (suc s) k)
            × ((k ≡ m) ⊎ (n ≤ length (seen ++ (s ∷ [])) + k)))
        → (leb n (length (seen ++ (s ∷ []))) ≡ true) ⊎ (leb n (length (seen ++ (s ∷ []))) ≡ false)
        → (k : ℕ) × (k ≤ suc m)
          × ((if leb n (length (seen ++ (s ∷ []))) then seen ++ (s ∷ []) else rest)
              ≡ seen ++ range_from s k)
          × ((k ≡ suc m) ⊎ (n ≤ length seen + k))
    go rest ih (inl e) = (
      1,
      omega arith,
      ap (λ b. if b then seen ++ (s ∷ []) else rest) e,
      inr (omega (arith, leb→le n (length (seen ++ (s ∷ []))) e, length-append seen (s ∷ []))),
    )
    go rest (k, bound, same, ends) (inr e) = (
      suc k,
      omega arith,
      ap (λ b. if b then seen ++ (s ∷ []) else rest) e
          ∙ same
          ∙ append_assoc seen (s ∷ []) (range_from (suc s) k),
      elim ends [
        | inl all ↦ inl (ap suc all)
        | inr many ↦ inr (omega (arith, many, length-append seen (s ∷ [])))
      ],
    )

In-append_left : (k : ℕ) (xs ys : List ℕ) → In k xs → In k (xs ++ ys)
In-append_left k [] ys m = absurd m
In-append_left k (x ∷ xs) ys (inl e) = inl e
In-append_left k (x ∷ xs) ys (inr m) = inr (In-append_left k xs ys m)

In-append_right : (k : ℕ) (xs ys : List ℕ) → In k ys → In k (xs ++ ys)
In-append_right k [] ys m = m
In-append_right k (x ∷ xs) ys m = inr (In-append_right k xs ys m)

lt-cases : (a b : ℕ) → (a < b) ⊎ (b ≤ a)
lt-cases a b = ground arith

module _ (consumer : Consumer) (laws : IsConsumer consumer) where
  -- What one consumer sees: the next k offsets, all that are left unless it saw n.
  consume_n_sees :
      (end : ℕ) (committed : Option ℕ) (n : ℕ) (commit_at_end : Bool)
      → (k : ℕ) × (k ≤ end - start_of committed)
        × ((consume_n consumer end committed n commit_at_end).0 ≡ range_from (start_of committed) k)
        × ((k ≡ end - start_of committed) ⊎ (n ≤ k))
  unfolding consume_n
  consume_n_sees end committed n commit_at_end =
      let (k, bound, same, ends) =
        loop_prefix n [] (start_of committed) (end - start_of committed) in
      (
        k,
        bound,
        ap (consume_loop n []) (laws.yields_rest end committed) ∙ same,
        elim ends [ inl all ↦ inl all | inr many ↦ inr (omega (arith, many)) ],
      )

  drains :
      (end : ℕ) (committed : Option ℕ) (n : ℕ)
      → end ≤ n
      → start_of committed ≤ end
      → end ≤ start_of (consume_n consumer end committed n true).1
  unfolding consume_n
  drains end committed n enough h =
      let (k, bound, same, ends) = consume_n_sees end committed n true in
      let moved = laws.position_after committed (consume_n consumer end committed n true).0 in
      let count : length (consume_n consumer end committed n true).0 ≡ k =
        ap length same ∙ length-range_from (start_of committed) k in
      elim ends [
        | inl all ↦ omega (arith, count, moved, all, h)
        | inr many ↦ omega (arith, count, moved, many, bound, enough)
      ]

  -- The consumers between two committed offsets saw all that lies between them.
  abbrev Covers : ℕ → Option ℕ → List ℕ → Option ℕ → Type 0
  Covers end first seen last =
      (start_of last ≤ end)
      × (start_of first ≤ start_of last)
      × ((k : ℕ) → start_of first ≤ k → k < start_of last → In k seen)

  consume_n-Covers :
      (end : ℕ) (committed : Option ℕ) (n : ℕ) (commit_at_end : Bool)
      → start_of committed ≤ end
      → let (seen, next) = consume_n consumer end committed n commit_at_end in
        Covers end committed seen next
  unfolding consume_n
  consume_n-Covers end committed n true h =
      let (k, bound, same, _) = consume_n_sees end committed n true in
      let moved = laws.position_after committed (consume_n consumer end committed n true).0 in
      let count : length (consume_n consumer end committed n true).0 ≡ k =
        ap length same ∙ length-range_from (start_of committed) k in
      (
        omega (arith, count, moved, bound, h),
        omega (arith, count, moved),
        λ x l u.
            subst (In x) (sym same)
              (In-range_from (start_of committed) k x l (omega (arith, count, moved, u))),
      )
  consume_n-Covers end committed n false h = (h, omega arith, λ x l u. absurd (omega (arith, l, u)))

  consume_all-Covers :
      (end : ℕ) (committed : Option ℕ) (runs : List (ℕ × Bool))
      → start_of committed ≤ end
      → let (seen, last) = consume_all consumer end committed runs in Covers end committed seen last
  unfolding consume_all
  consume_all-Covers end committed [] h = (h, omega arith, λ x l u. absurd (omega (arith, l, u)))
  consume_all-Covers end committed ((n, commit_at_end) ∷ runs) h =
      let (seen, next) = consume_n consumer end committed n commit_at_end in
      let (more, last) = consume_all consumer end next runs in
      let (within, forward, covered) = consume_n-Covers end committed n commit_at_end h in
      let (within', forward', covered') = consume_all-Covers end next runs within in
      (
        within',
        omega (arith, forward, forward'),
        λ x l u. elim (lt-cases x (start_of next)) [
          | inl before ↦ In-append_left x seen more (covered x l before)
          | inr after ↦ In-append_right x seen more (covered' x after u)
        ],
      )

  -- With Kafka's documented consumers: after any consumers of a new group, with and without a commit, one that reads to the end and
  -- commits leaves no offset unseen, and no lag.
  pub drained_at_least_once :
      (end : ℕ) (runs : List (ℕ × Bool)) (n : ℕ)
      → end ≤ n
      → let (seen, committed) = consume_all consumer end none runs in
        let (rest, last) = consume_n consumer end committed n true in
        ((k : ℕ) → k < end → In k (seen ++ rest)) × (lag end last ≡ 0)
  unfolding lag
  drained_at_least_once end runs n enough =
      let (seen, committed) = consume_all consumer end none runs in
      let (rest, last) = consume_n consumer end committed n true in
      let (within, _, covered) = consume_all-Covers end none runs (omega arith) in
      let (within', forward, covered') = consume_n-Covers end committed n true within in
      let reached : end ≤ start_of last = drains end committed n enough within in
      (
        λ k l. elim (lt-cases k (start_of committed)) [
          | inl before ↦ In-append_left k seen rest (covered k (omega arith) before)
          | inr after ↦ In-append_right k seen rest (covered' k after (omega (arith, l, reached)))
        ],
        omega (arith, reached),
      )
