-- ===== src/Capstone/Latest/Pick.antt =====
-- The deduplication by id of capstone/cap1_pipeline.py: one row for each id, with its newest LSN.
use spark_dev.Base.{
  ℕ, zero, suc, ◌≤◌, ◌≡◌, ◌≢◌, ◌↔◌, refl, ap, true, Option, none, some, List, [], ◌∷◌,
  if◌then◌else◌, head?, All-at, In, In-filter, length, arith, Bool-cases, inl, inr, sym,
}
use mathlib.Core.Path.{subst}
use spark_dev.Capstone.Events.{Change}
use spark_dev.Capstone.Latest.{
  NoNewer, Descends, Ranking, same_key, partition_keys, partition, first_rows, latest,
}
use spark_dev.Capstone.Merge.{sql_eq, matching}
use spark_dev.Capstone.Merge.Kept.{IsDistinct}
use spark_dev.Capstone.Latest.Keys.{
  same_key_iff, count_key, count_key-cons, count_key-le_one, count_key_pos, head?-In,
  same_key_sound,
}

-- The newest change of an id, if it has any.
abbrev pub IsLatest : ℕ → List Change → Option Change → Type 0
IsLatest k cs none = (c : Change) → In c cs → c.id ≢ some k
IsLatest k cs (some c) =
    In c cs × (c.id ≡ some k) × ((d : Change) → In d cs → d.id ≡ some k → NoNewer d.lsn c.lsn)

NoNewer-refl : (o : Option ℕ) → NoNewer o o
NoNewer-refl none = tt
NoNewer-refl (some a) = omega arith

pick : Ranking → Option ℕ → List Change → Option Change
pick r k cs = head? (r.order (partition k cs))

In-partition :
    (k : ℕ) (c : Change) (cs : List Change)
    → In c (partition (some k) cs) ↔ (In c cs × (c.id ≡ some k))
unfolding partition
In-partition k c cs =
    let f = In-filter (λ (d : Change). same_key (some k) d.id) c cs in
    (
      λ m. ((f.0 m).0, (same_key_iff k c.id).0 (f.0 m).1),
      λ h. f.1 (h.0, (same_key_iff k c.id).1 h.1),
    )

module _ (r : Ranking) (k : ℕ) (cs : List Change) where
  pick-IsLatest : IsLatest k cs (pick r (some k) cs)
  unfolding pick
  pick-IsLatest = go (r.order (partition (some k) cs)) (r.descends (partition (some k) cs)) keep
    where
      keep : (c : Change) → In c (r.order (partition (some k) cs)) ↔ (In c cs × (c.id ≡ some k))
      keep c =
          let f = r.keeps c (partition (some k) cs) in
          let g = In-partition k c cs in (λ m. g.0 (f.0 m), λ h. f.1 (g.1 h))

      go :
          (l : List Change)
          → Descends l
          → ((c : Change) → In c l ↔ (In c cs × (c.id ≡ some k)))
          → IsLatest k cs (head? l)
      go [] d f = λ c m e. (f c).1 (m, e)
      go (c ∷ l) d f =
          (((f c).0 (inl refl)).0, ((f c).0 (inl refl)).1, λ e m i. newest e ((f e).1 (m, i)))
        where
          newest : (e : Change) → In e (c ∷ l) → NoNewer e.lsn c.lsn
          newest e (inl p) =
              subst (λ (x : Change). NoNewer x.lsn c.lsn) (sym p) (NoNewer-refl c.lsn)
          newest e (inr m) = All-at (λ (x : Change). NoNewer x.lsn c.lsn) l d.0 m

-- The partition of a key holds rows of that key alone.
pick-id :
    (r : Ranking) (i : Option ℕ) (cs : List Change) (c : Change) → pick r i cs ≡ some c → c.id ≡ i
unfolding pick partition
pick-id r i cs c e =
    same_key_sound i c.id
      ((In-filter (λ (d : Change). same_key i d.id) c cs).0
        ((r.keeps c (partition i cs)).0 (head?-In (r.order (partition i cs)) c e))).1

cons_pick : Option Change → List Change → List Change
cons_pick none cs = cs
cons_pick (some c) cs = c ∷ cs

first_rows-cons :
    (r : Ranking) (i : Option ℕ) (is : List (Option ℕ)) (cs : List Change)
    → first_rows r (i ∷ is) cs ≡ cons_pick (pick r i cs) (first_rows r is cs)
unfolding first_rows pick cons_pick
first_rows-cons r i is cs = ground arith

matching-cons_pick :
    (k : ℕ) (i : Option ℕ) (o : Option Change) (l : List Change)
    → ((c : Change) → o ≡ some c → c.id ≡ i)
    → matching (some k) (cons_pick o l)
      ≡ (if sql_eq (some k) i then cons_pick o (matching (some k) l) else matching (some k) l)
unfolding matching cons_pick
matching-cons_pick k i none l h = ground arith
matching-cons_pick k i (some c) l h = rw (h c refl) (ground arith)

head-cons_pick : (o : Option Change) → head? (cons_pick o []) ≡ o
unfolding cons_pick
head-cons_pick none = refl
head-cons_pick (some c) = refl

sql_eq_sound : (k : ℕ) (i : Option ℕ) → sql_eq (some k) i ≡ true → i ≡ some k
sql_eq_sound k i h = ground arith

length-cons_pick : (o : Option Change) (l : List Change) → length (cons_pick o l) ≤ suc (length l)
unfolding cons_pick
length-cons_pick none l = omega arith
length-cons_pick (some c) l = omega arith

module _ (r : Ranking) (k : ℕ) (cs : List Change) where
  length-first_rows :
      (is : List (Option ℕ)) → length (matching (some k) (first_rows r is cs)) ≤ count_key k is
  length-first_rows [] = unfold first_rows matching in omega arith
  length-first_rows (i ∷ is) =
      rw
        (
          first_rows-cons r i is cs,
          matching-cons_pick k i (pick r i cs) (first_rows r is cs) (pick-id r i cs),
        )
        (ground (
          arith,
          length-first_rows is,
          length-cons_pick (pick r i cs) (matching (some k) (first_rows r is cs)),
          count_key-cons k i is,
        ))

  head-first_rows_absent :
      (is : List (Option ℕ)) → count_key k is ≡ 0 → matching (some k) (first_rows r is cs) ≡ []
  head-first_rows_absent is h = ground (arith, length-first_rows is)

  head-first_rows :
      (is : List (Option ℕ))
      → count_key k is ≡ 1
      → head? (matching (some k) (first_rows r is cs)) ≡ pick r (some k) cs
  head-first_rows [] h = unfold count_key in absurd (omega arith)
  head-first_rows (i ∷ is) h =
      rw
        (
          first_rows-cons r i is cs,
          matching-cons_pick k i (pick r i cs) (first_rows r is cs) (pick-id r i cs),
        )
        (elim (Bool-cases (sql_eq (some k) i)) [
          | inl e ↦
              let c = count_key-cons k i is in
              rw (e, head-first_rows_absent is (ground arith), head-cons_pick (pick r i cs))
                (ap (λ j. pick r j cs) (sql_eq_sound k i e))
          | inr e ↦ let c = count_key-cons k i is in rw e (head-first_rows is (ground arith))
        ])

-- The table `latest` has at most one row for an id.
pub latest-IsDistinct : (r : Ranking) (cs : List Change) → IsDistinct (latest r cs)
unfolding latest
latest-IsDistinct r cs k =
    omega (arith, length-first_rows r k cs (partition_keys cs), count_key-le_one k cs)

-- Its row for an id is the newest change of that id, and it has none only if no change has the id.
pub latest-IsLatest :
    (r : Ranking) (cs : List Change) (k : ℕ)
    → IsLatest k cs (head? (matching (some k) (latest r cs)))
unfolding latest
latest-IsLatest r cs k = go (count_key k keys) refl
  where
    keys : List (Option ℕ)
    keys = partition_keys cs

    go :
        (n : ℕ)
        → count_key k keys ≡ n
        → IsLatest k cs (head? (matching (some k) (first_rows r keys cs)))
    go zero e =
        rw (head-first_rows_absent r k cs keys e)
          (λ c m i. absurd (omega (arith, count_key_pos k c cs m i)))
    go (suc n) e =
        subst (IsLatest k cs)
          (sym (head-first_rows r k cs keys (omega (arith, count_key-le_one k cs))))
          (pick-IsLatest r k cs)
