-- ===== src/Tests/Capstone.antt =====
-- `ingest` of capstone/cap1_pipeline.py on an order that is created, changed and deleted, and one that
-- stays.
use spark_dev.Base.{
  ◌↔◌, ◌⊎◌, ℕ, String, sym, ◌≡◌, refl, inl, inr, Option, none, some, List, [], ◌∷◌, In, head?,
  arith,
}
use mathlib.Core.Option
use mathlib.Core.Path.{subst}
use spark_dev.Base.Int.{pos}
use spark_dev.Capstone.Events.{Source, Envelope, Change}
use spark_dev.Capstone.Merge.{Row, matching, merge}
use spark_dev.Capstone.Merge.Lookup.{row_at, count_id, IsKeyed}
use spark_dev.Capstone.Merge.Upsert.{upsert, merge_upserts}
use spark_dev.Capstone.Merge.Kept.{IsDistinct}
use spark_dev.Capstone.Merge.Again.{merge_retry}
use spark_dev.Capstone.Replica.{
  Image, create, delete, Entry, replay, empty_table, IsOrdered, after_image, Publishes, Carries,
  image_of, ingest,
}
use spark_dev.Capstone.Replica.Copy.{ingest_copies}
use spark_dev.Tests.Sorting.{insertion_sort}
use spark_dev.Tests.Validator.{meets, meets-IsValidator}
use spark_dev.Capstone.Quality.{quality}
use spark_dev.Capstone.EndToEnd.{IsAccepted, gate_judges_source}

abbrev image : String → ℕ → Image
image status updated = record {
  customer = some "ada";
  amount = some (pos 1250);
  status = some status;
  updated = some updated;
}

abbrev entry_1 : Entry
entry_1 = record { kind = create; id = 1; lsn = 10; image = image "new" 1 }

abbrev entry_2 : Entry
entry_2 = record { kind = create; id = 2; lsn = 11; image = image "new" 2 }

abbrev entry_3 : Entry
entry_3 = record { kind = delete; id = 1; lsn = 12; image = image "new" 1 }

abbrev history : List Entry
history = entry_1 ∷ entry_2 ∷ entry_3 ∷ []

abbrev source_at : ℕ → Option Source
source_at lsn = some (record { lsn = some lsn; ts_ms = none })

abbrev shows_image : Entry → Envelope
shows_image e = record {
  before = none;
  after = some (after_image e.id e.image);
  op = some "c";
  ts_ms = none;
  source = source_at e.lsn;
}

abbrev shows_delete : Entry → Envelope
shows_delete e = record {
  before = some (after_image e.id e.image);
  after = none;
  op = some "d";
  ts_ms = none;
  source = source_at e.lsn;
}

abbrev tombstone : Envelope
tombstone = record { before = none; after = none; op = none; ts_ms = none; source = none }

-- out of order, and one of them twice
abbrev topic : List Envelope
topic =
    shows_delete entry_3
    ∷ shows_image entry_2
    ∷ tombstone
    ∷ shows_image entry_1
    ∷ shows_image entry_2
    ∷ []

history-IsOrdered : IsOrdered history
history-IsOrdered = ((λ e. omega arith, (λ e. omega arith, tt)), ((λ e. omega arith, tt), (tt, tt)))

published_1 : Publishes entry_1 (shows_image entry_1)
published_1 = record { op = refl; lsn = refl; row = refl }

published_2 : Publishes entry_2 (shows_image entry_2)
published_2 = record { op = refl; lsn = refl; row = refl }

published_3 : Publishes entry_3 (shows_delete entry_3)
published_3 = record { op = refl; lsn = refl; row = (refl, refl) }

topic_complete : (e : Entry) → In e history → (v : Envelope) × In v topic × Publishes e v
topic_complete e (inl q) =
    subst (λ e. (v : Envelope) × In v topic × Publishes e v) (sym q)
      (shows_image entry_1, inr (inr (inr (inl refl))), published_1)
topic_complete e (inr (inl q)) =
    subst (λ e. (v : Envelope) × In v topic × Publishes e v) (sym q)
      (shows_image entry_2, inr (inl refl), published_2)
topic_complete e (inr (inr (inl q))) =
    subst (λ e. (v : Envelope) × In v topic × Publishes e v) (sym q)
      (shows_delete entry_3, inl refl, published_3)
topic_complete e (inr (inr (inr m))) = absurd m

abbrev Accounted : Envelope → Type 0
Accounted v = (v.op ≡ none) ⊎ ((e : Entry) × In e history × Publishes e v)

topic_sound : (v : Envelope) → In v topic → Accounted v
topic_sound v (inl q) = subst Accounted (sym q) (inr (entry_3, inr (inr (inl refl)), published_3))
topic_sound v (inr (inl q)) = subst Accounted (sym q) (inr (entry_2, inr (inl refl), published_2))
topic_sound v (inr (inr (inl q))) = subst Accounted (sym q) (inl refl)
topic_sound v (inr (inr (inr (inl q)))) =
    subst Accounted (sym q) (inr (entry_1, inl refl, published_1))
topic_sound v (inr (inr (inr (inr (inl q))))) =
    subst Accounted (sym q) (inr (entry_2, inr (inl refl), published_2))
topic_sound v (inr (inr (inr (inr (inr m))))) = absurd m

topic-Carries : Carries history topic
topic-Carries = record { complete = topic_complete; sound = topic_sound }

abbrev mirror_row : ℕ → String → Row
mirror_row id status = record {
  id = some id;
  customer = some "ada";
  amount = some (pos 1250);
  status = some status;
  updated = some 1;
}

abbrev change : String → ℕ → Change
change op id = record {
  op = op;
  lsn = some 7;
  id = some id;
  customer = some "ada";
  amount = some (pos 99);
  status = some "paid";
  updated = some 2;
}

abbrev old_rows : List Row
old_rows = mirror_row 1 "new" ∷ mirror_row 2 "new" ∷ []

abbrev new_changes : List Change
new_changes = change "d" 1 ∷ change "u" 2 ∷ change "c" 3 ∷ []

old_rows-IsKeyed : IsKeyed old_rows
unfolding count_id
old_rows-IsKeyed k = ground arith

new_changes-IsDistinct : IsDistinct new_changes
unfolding matching
new_changes-IsDistinct k = ground arith

merge_upserts_example :
    (rows : List Row) × (merge old_rows new_changes ≡ some rows)
    × IsKeyed rows
    × ((k : ℕ) → row_at k rows ≡ upsert (row_at k old_rows) (head? (matching (some k) new_changes)))
merge_upserts_example = merge_upserts old_rows new_changes old_rows-IsKeyed new_changes-IsDistinct

merge_retry_example :
    (rows again : List Row) × (merge old_rows new_changes ≡ some rows)
    × (merge rows new_changes ≡ some again)
    × ((k : ℕ) → row_at k again ≡ row_at k rows)
merge_retry_example = merge_retry old_rows new_changes old_rows-IsKeyed new_changes-IsDistinct

ingest_copies_example :
    (rows : List Row) × (ingest insertion_sort topic ≡ some rows)
    × IsKeyed rows
    × ((k : ℕ) → Option.map image_of (row_at k rows) ≡ replay empty_table history k)
ingest_copies_example = ingest_copies insertion_sort history topic history-IsOrdered topic-Carries

gate_judges_source_example :
    (rows : List Row) × (ingest insertion_sort topic ≡ some rows)
    × ((quality meets rows ≡ 0) ↔ ((k : ℕ) → IsAccepted (replay empty_table history k)))
gate_judges_source_example =
    gate_judges_source meets meets-IsValidator insertion_sort history topic history-IsOrdered
      topic-Carries
