-- ===== src/Capstone/EndToEnd.antt =====
-- `ingest` and then `quality` of capstone/cap1_pipeline.py: what the gate says of the source table.
use spark_dev.Base.{
  ℕ, ◌≡◌, ◌≢◌, ◌↔◌, inl, refl, sym, Bool, Option, none, some, List, [], ◌∷◌, All, All-mono, In,
  In-filter, head?, arith,
}
use mathlib.Core.Path.{subst}
use mathlib.Core.Option
use mathlib.Core.Option.{some-injective}
use spark_dev.Base.Int.{pos}
use spark_dev.Capstone.Events.{Envelope, Change, changes_of}
use spark_dev.Capstone.Latest.{Ranking, partition_keys, partition, first_rows, latest, same_key}
use spark_dev.Capstone.Merge.{Row, not_matched, merge, merge_matched, merge_inserted}
use spark_dev.Capstone.Merge.Lookup.{row_at, All-row_at, row_at-All}
use spark_dev.Capstone.Replica.{
  Image, Entry, replay, empty_table, IsOrdered, Carries, image_of, ingest,
}
use spark_dev.Capstone.Replica.Copy.{reflects, ingest_copies}
use spark_dev.Capstone.Quality.{
  Table, Expectation, IsBetween, IsInSet, IsValidator, cap1_statuses, cell_of, decimal, text, whole,
  null, quality,
}
use spark_dev.Capstone.Quality.Gate.{quality_verdict}

partition-In : (k : Option ℕ) (c : Change) (cs : List Change) → In c (partition k cs) → In c cs
unfolding partition
partition-In k c cs m = ((In-filter (λ d. same_key k d.id) c cs).0 m).0

head-In : (cs : List Change) (c : Change) → head? cs ≡ some c → In c cs
head-In [] c e = cc
head-In (d ∷ cs) c e = inl (sym (some-injective _ _ e))

picked :
    (P : Change → Type 0) (o : Option Change) (rest : List Change)
    → ((c : Change) → o ≡ some c → P c)
    → All P rest
    → All P (elim o [ none ↦ rest | some c ↦ c ∷ rest ])
picked P none rest f h = h
picked P (some c) rest f h = (f c refl, h)

-- The first rows are changes.
first_rows-All :
    (P : Change → Type 0) (r : Ranking) (ks : List (Option ℕ)) (cs : List Change)
    → ((c : Change) → In c cs → P c)
    → All P (first_rows r ks cs)
unfolding first_rows
first_rows-All P r [] cs f = tt
first_rows-All P r (k ∷ ks) cs f =
    picked P (head? (r.order (partition k cs))) _
      (λ c e. f c (partition-In k c cs ((r.keeps c (partition k cs)).0 (head-In _ c e))))
      (first_rows-All P r ks cs f)

merge_inserted-All :
    (s : List Change)
    → All (λ (c : Change). c.id ≢ none) s
    → All (λ (r : Row). r.id ≢ none) (merge_inserted [] s)
unfolding merge_inserted not_matched
merge_inserted-All [] h = tt
merge_inserted-All (c ∷ s) h = ground (arith, merge_inserted-All s h.1, h.0)

abbrev pub IsAccepted : Option Image → Type 0
IsAccepted none = Unit
IsAccepted (some i) =
    IsBetween (pos 0) (pos 100000000) (cell_of decimal i.amount)
    × IsInSet cap1_statuses (cell_of text i.status)

-- Every row of the mirror has an id: all changes have one.
ingest-All :
    (r : Ranking) (h : List Entry) (vs : List Envelope) (rows : List Row)
    → Carries h vs
    → ingest r vs ≡ some rows
    → All (λ (r : Row). r.id ≢ none) rows
unfolding ingest merge merge_matched
ingest-All r h vs rows carries e =
    let cs = changes_of vs in
    subst (All (λ (r : Row). r.id ≢ none)) (some-injective _ _ e) (
      merge_inserted-All (latest r cs) (
        unfold latest in
        first_rows-All (λ c. c.id ≢ none) r (partition_keys cs) cs
          (λ c m. let (x, i, f) = reflects h vs carries c m in let known = f.id in λ q. cc)))

known_cell : (o : Option ℕ) → o ≢ none → cell_of whole o ≢ null
known_cell none f e = f refl
known_cell (some k) f e = ground arith

abbrev InRange : Row → Type 0
InRange r = IsBetween (pos 0) (pos 100000000) (cell_of decimal r.amount)

abbrev InSet : Row → Type 0
InSet r = IsInSet cap1_statuses (cell_of text r.status)

IsAccepted-lookup :
    (o : Option Row)
    → ((r : Row) → o ≡ some r → IsAccepted (some (image_of r))) ↔ IsAccepted (Option.map image_of o)
IsAccepted-lookup none = (λ f. tt, λ _ r e. cc)
IsAccepted-lookup (some t) =
    (λ f. f t refl, λ a r e. subst (λ u. IsAccepted (some (image_of u))) (some-injective _ _ e) a)

module _ (meets : Expectation → Table → Bool) (laws : IsValidator meets) where
  -- If a topic carries a history of the source table, in any order and with repetitions, and the
  -- changes of each row have growing LSNs, then `ingest` leaves a mirror that passes the gate if and
  -- only if, in each row that the source table has after the history, the amount is null or between
  -- 0 and a million, and the status is null or one of the five.
  pub gate_judges_source :
      (r : Ranking) (h : List Entry) (vs : List Envelope)
      → IsOrdered h
      → Carries h vs
      → (rows : List Row) × (ingest r vs ≡ some rows)
        × ((quality meets rows ≡ 0) ↔ ((k : ℕ) → IsAccepted (replay empty_table h k)))
  gate_judges_source r h vs ordered carries =
      let (rows, e, keyed, at) = ingest_copies r h vs ordered carries in
      let known = ingest-All r h vs rows carries e in
      let (to, from) =
        quality_verdict meets laws rows keyed
          (All-mono _ _ (λ (r : Row). known_cell r.id) rows known) in
      (
        rows,
        e,
        (
          λ passed k. subst IsAccepted (at k) (
              (IsAccepted-lookup (row_at k rows)).0 (λ r f. (
                All-row_at InRange rows (to passed).0 k r f,
                All-row_at InSet rows (to passed).1 k r f,
              ))),
          λ all. from (
            row_at-All InRange rows keyed known (λ k r f. (there rows at all k r f).0),
            row_at-All InSet rows keyed known (λ k r f. (there rows at all k r f).1),
          ),
        ),
      )
    where
      there :
          (rows : List Row)
          → ((k : ℕ) → Option.map image_of (row_at k rows) ≡ replay empty_table h k)
          → ((k : ℕ) → IsAccepted (replay empty_table h k))
          → (k : ℕ) (r : Row) → row_at k rows ≡ some r
          → IsAccepted (some (image_of r))
      there rows at all k =
          (IsAccepted-lookup (row_at k rows)).1 (subst IsAccepted (sym (at k)) (all k))
