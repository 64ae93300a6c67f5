-- ===== src/Capstone/Replica/Copy.antt =====
-- The mirror that `ingest` of capstone/cap1_pipeline.py builds is the source table.
use spark_dev.Base.{
  ℕ, ◌≤◌, ◌<◌, String, ◌≡◌, ◌≢◌, ◌⊎◌, inl, inr, refl, sym, ap, ◌∙◌, Option, none, some, List, [],
  ◌∷◌, ◌==◌, if◌then◌else◌, All-at, In, head?, arith, Option-cases,
}
use mathlib.Core.Path.{subst, subst₂}
use mathlib.Core.Option
use mathlib.Core.Option.{some-injective}
use spark_dev.Capstone.Events.{Envelope, Change, project, change_of, changes_of}
use spark_dev.Capstone.Latest.{NoNewer, Ranking, latest}
use spark_dev.Capstone.Latest.Pick.{IsLatest, latest-IsDistinct, latest-IsLatest}
use spark_dev.Capstone.Merge.{Row, matching, not_matched}
use spark_dev.Capstone.Merge.Lookup.{row_at, count_id, IsKeyed}
use spark_dev.Capstone.Merge.Upsert.{upsert, merge_upserts}
use spark_dev.Capstone.Replica.{
  Image, Kind, read, create, update, delete, Entry, op_code, left_of, left_by, replay, empty_table,
  IsOrdered, ShowsRow, Publishes, Carries, image_of, ingest,
}

-- A history that does not name an id leaves its row alone.
replay_absent :
    (k : ℕ) (t : ℕ → Option Image) (h : List Entry)
    → ((e : Entry) → In e h → e.id ≢ k)
    → replay t h k ≡ t k
unfolding replay
replay_absent k t [] f = refl
replay_absent k t (e ∷ h) f =
    replay_absent k (λ j. if e.id == j then left_by e else t j) h (λ d m. f d (inr m))
    ∙ (let p = f e (inl refl) in ground arith)

replay_step :
    (k : ℕ) (t : ℕ → Option Image) (x : Entry)
    → x.id ≡ k
    → (if x.id == k then left_by x else t k) ≡ left_by x
replay_step k t x e = ground arith

-- The entry of an id with the greatest LSN decides its row.
replay_newest :
    (k : ℕ) (t : ℕ → Option Image) (h : List Entry) (e : Entry)
    → IsOrdered h
    → In e h
    → e.id ≡ k
    → ((f : Entry) → In f h → f.id ≡ k → f.lsn ≤ e.lsn)
    → replay t h k ≡ left_by e
unfolding replay
replay_newest k t [] e o m i top = absurd m
replay_newest k t (x ∷ h) e o (inl p) i top =
    replay_absent k (λ j. if x.id == j then left_by x else t j) h
      (λ f m q. absurd (
        omega (
          arith,
          All-at (λ (f : Entry). x.id ≡ f.id → x.lsn < f.lsn) h o.0 m
              (ap (λ (y : Entry). y.id) (sym p) ∙ i ∙ sym q),
          top f (inr m) q,
          ap (λ (y : Entry). y.lsn) p,
        )))
    ∙ (replay_step k t x (ap (λ (y : Entry). y.id) (sym p) ∙ i)
        ∙ ap (λ (y : Entry). left_by y) (sym p))
replay_newest k t (x ∷ h) e o (inr m) i top =
    replay_newest k (λ j. if x.id == j then left_by x else t j) h e o.1 m i
      (λ f n q. top f (inr n) q)

-- A change that stands for an entry.
pub record Reflects (e : Entry) (c : Change) : Type 0 where
  pub lsn : c.lsn ≡ some e.lsn
  pub id : c.id ≡ some e.id
  pub row : Option.map image_of (not_matched c) ≡ left_by e

Publishes-row :
    (κ : Kind) (k : ℕ) (i : Image) (v : Envelope)
    → ShowsRow κ k i v
    → ((project (op_code κ) v).id ≡ some k)
      × (Option.map image_of (not_matched (project (op_code κ) v)) ≡ left_of κ i)
unfolding project not_matched
Publishes-row read k i v h = rw h (refl, refl)
Publishes-row create k i v h = rw h (refl, refl)
Publishes-row update k i v h = rw h (refl, refl)
Publishes-row delete k i v h = rw h.0 (h.1, refl)

Publishes-Reflects :
    (e : Entry) (v : Envelope) → Publishes e v → Reflects e (project (op_code e.kind) v)
Publishes-Reflects e v p = record {
  lsn = unfold project in p.lsn;
  id = (Publishes-row e.kind e.id e.image v p.row).0;
  row = (Publishes-row e.kind e.id e.image v p.row).1;
}

In-changes_of_step :
    (v : Envelope) (vs : List Envelope) (c : Change)
    → In c (changes_of (v ∷ vs))
    → ((op : String) × (v.op ≡ some op) × (c ≡ project op v)) ⊎ In c (changes_of vs)
unfolding changes_of change_of
In-changes_of_step v vs c m = elim (Option-cases v.op) [
  | inl e ↦ inr (ground arith)
  | inr (op, e) ↦ ground arith
]

widen :
    (v : Envelope) (vs : List Envelope) (c : Change)
    → (w : Envelope) × (op : String) × In w vs × (w.op ≡ some op) × (c ≡ project op w)
    → (w : Envelope) × (op : String) × In w (v ∷ vs) × (w.op ≡ some op) × (c ≡ project op w)
widen v vs c (w, op, i, e, p) = (w, op, inr i, e, p)

-- The changes are the projections of the envelopes that have an operation.
In-changes_of :
    (vs : List Envelope) (c : Change)
    → In c (changes_of vs)
    → (v : Envelope) × (op : String) × In v vs × (v.op ≡ some op) × (c ≡ project op v)
In-changes_of [] c m = unfold changes_of in absurd m
In-changes_of (v ∷ vs) c m = elim (In-changes_of_step v vs c m) [
  | inl (op, e, p) ↦ (v, op, inl refl, e, p)
  | inr n ↦ widen v vs c (In-changes_of vs c n)
]

changes_of-In :
    (vs : List Envelope) (v : Envelope) (op : String)
    → In v vs
    → v.op ≡ some op
    → In (project op v) (changes_of vs)
unfolding changes_of change_of
changes_of-In [] v op m e = absurd m
changes_of-In (w ∷ vs) v op m e = ground (arith, changes_of-In vs v op)

module _ (h : List Entry) (vs : List Envelope) (carries : Carries h vs) where
  reflected : (e : Entry) → In e h → (c : Change) × In c (changes_of vs) × Reflects e c
  reflected e m =
      let (v, n, p) = carries.complete e m in
      (
        project (op_code e.kind) v,
        changes_of-In vs v (op_code e.kind) n p.op,
        Publishes-Reflects e v p,
      )

  pub reflects : (c : Change) → In c (changes_of vs) → (e : Entry) × In e h × Reflects e c
  reflects c m =
      let (v, op, n, q, r) = In-changes_of vs c m in
      elim (carries.sound v n) [
        | inl e ↦ cc
        | inr (e, i, p) ↦ (
          e,
          i,
          subst (Reflects e) (ap (λ o. project o v) (some-injective _ _ (sym p.op ∙ q)) ∙ sym r)
              (Publishes-Reflects e v p),
        )
      ]

  module _ (k : ℕ) (ordered : IsOrdered h) where
    newest_entry :
        (c : Change)
        → IsLatest k (changes_of vs) (some c)
        → (e : Entry) → In e h
        → Reflects e c
        → (f : Entry) → In f h
        → f.id ≡ k
        → f.lsn ≤ e.lsn
    newest_entry c (_, _, top) e m re f n i =
        let (d, o, rf) = reflected f n in
        let older = top d o (rf.id ∙ ap some i) in subst₂ NoNewer rf.lsn re.lsn older

    copied :
        (o : Option Change)
        → IsLatest k (changes_of vs) o
        → Option.map image_of (upsert none o) ≡ replay empty_table h k
    unfolding upsert
    copied none l = sym (
        replay_absent k empty_table h
          (λ e m i. let (c, n, r) = reflected e m in l c n (r.id ∙ ap some i)))
    copied (some c) l =
        let (e, m, r) = reflects c l.0 in
        r.row
        ∙ sym (
            replay_newest k empty_table h e ordered m (some-injective _ _ (sym r.id ∙ l.1))
              (newest_entry c l e m r))

-- If a topic carries a history of the source table, in any order and with repetitions, and the
-- changes of each row have growing LSNs, then `ingest` does not raise, no id occurs twice in the
-- mirror, and for every id the mirror has the row that the source table has after the history.
pub ingest_copies :
    (r : Ranking) (h : List Entry) (vs : List Envelope)
    → IsOrdered h
    → Carries h vs
    → (rows : List Row) × (ingest r vs ≡ some rows)
      × IsKeyed rows
      × ((k : ℕ) → Option.map image_of (row_at k rows) ≡ replay empty_table h k)
unfolding ingest
ingest_copies r h vs ordered carries =
    let cs = changes_of vs in
    let (rows, e, keyed, at) =
      merge_upserts [] (latest r cs) nothing_keyed (latest-IsDistinct r cs) in
    (
      rows,
      e,
      keyed,
      λ k.
          ap (Option.map image_of)
            (at k ∙ ap (λ o. upsert o (head? (matching (some k) (latest r cs)))) (row_at_nothing k))
          ∙ copied h vs carries k ordered (head? (matching (some k) (latest r cs)))
              (latest-IsLatest r cs k),
    )
  where
    nothing_keyed : IsKeyed []
    nothing_keyed k = unfold count_id in omega arith

    row_at_nothing : (k : ℕ) → row_at k [] ≡ none
    row_at_nothing k = unfold row_at in refl
