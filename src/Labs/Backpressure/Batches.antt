-- ===== src/Labs/Backpressure/Batches.antt =====
-- The batches of kafka/backpressure/str3_backpressure.ipynb, with and without a cap.
use spark_dev.Base.{
  ℕ, zero, suc, ◌+◌, ◌≤◌, ◌≡◌, refl, sym, ap, ◌∙◌, Option, none, some, List, [], ◌∷◌, ◌++◌, map,
  length, All, All-map, length-append, arith,
}
use spark_dev.Labs.Backpressure.{
  IsBatched, Row, join, run_stream, shape_from, batch_shape, shape_rows,
}

abbrev sum : List ℕ → ℕ
sum [] = 0
sum (n ∷ ns) = n + sum ns

shape_rows-shape_from : (id : ℕ) (ns : List ℕ) → shape_rows (shape_from id ns) ≡ sum ns
unfolding shape_rows shape_from
shape_rows-shape_from id [] = refl
shape_rows-shape_from id (zero ∷ ns) = omega (arith, shape_rows-shape_from (suc id) ns)
shape_rows-shape_from id (suc n ∷ ns) = omega (arith, shape_rows-shape_from (suc id) ns)

length-join : {V : Type 0} (bs : List (List V)) → sum (map length bs) ≡ length (join bs)
length-join [] = refl
length-join (b ∷ bs) = omega (arith, length-join bs, length-append b (join bs))

-- With Spark's documented batches and any cap of at least 1, the batches have at most so many rows,
-- they have as many as the backlog in all, and they leave in the sink what a run without a cap
-- leaves there.
pub run_stream_capped :
    {V : Type 0} (engine : Option ℕ → List V → List (List V))
    → IsBatched engine
    → (parse : V → Row) (cap : ℕ) (values : List V) (sink : List Row)
    → let q = run_stream engine parse (some (suc cap)) values sink in
      (q.sink ≡ (run_stream engine parse none values sink).sink)
      × All (λ n. n ≤ suc cap) q.progress
      × (shape_rows (batch_shape q) ≡ length values)
unfolding run_stream batch_shape
run_stream_capped engine laws parse cap values sink =
    let all = laws.whole (some (suc cap)) values in
    let bs = engine (some (suc cap)) values in
    (
      ap (λ l. sink ++ map parse l) (all ∙ sym (laws.whole none values)),
      (All-map (λ n. n ≤ suc cap) length bs).1 (laws.bounded cap values),
      shape_rows-shape_from 0 (map length bs) ∙ length-join bs ∙ ap length all,
    )
