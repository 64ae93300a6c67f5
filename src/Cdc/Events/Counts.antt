-- ===== src/Cdc/Events/Counts.antt =====
-- `op_counts` of common/cdc_helpers.py counts each kind of event, and every message is counted once.
use spark_dev.Base.{
  ℕ, suc, ◌+◌, ◌≤◌, ◌≡◌, ◌==◌, ◌⊎◌, In, Bool, true, false, refl, sym, ap, ◌∙◌, Option, none, some,
  List, [], ◌∷◌, if◌then◌else◌, arith, length, Bool-cases, Option-cases, inl, inr,
}
use mathlib.Core.Bool.{false≢true}
use mathlib.Core.Option.{some-injective}
use spark_dev.Base.Text.{Text, codes, text_eq, text_eq_sound, text_eq_refl}
use spark_dev.Base.Json.{Json, null, boolean, number, text, array, object, Items, Fields}
use spark_dev.Cdc.Events.{
  Event, tombstone_event, Key, text_key, number_key, key_eq, tombstone_key, key_of, event_key,
  Tally, tally_get, tally_set, count_from, op_counts, read_message, read_cdc_events,
}

-- whether an operation counts for a key: a missing one for "tombstone", True and False for 1 and 0,
-- and a list or a dict for none
pub has_key : Key → Json → Bool
has_key (text_key s) null = text_eq (codes "tombstone") s
has_key (text_key s) (text t) = text_eq t s
has_key (text_key s) (boolean b) = false
has_key (text_key s) (number m) = false
has_key (text_key s) (array xs) = false
has_key (text_key s) (object fs) = false
has_key (number_key n) null = false
has_key (number_key n) (text t) = false
has_key (number_key n) (boolean true) = 1 == n
has_key (number_key n) (boolean false) = 0 == n
has_key (number_key n) (number m) = m == n
has_key (number_key n) (array xs) = false
has_key (number_key n) (object fs) = false

has_key-key_of :
    (k : Key) (j : Json) → has_key k j ≡ (elim (key_of j) [ none ↦ false | some i ↦ key_eq i k ])
unfolding has_key key_of key_eq
has_key-key_of (text_key s) null = refl
has_key-key_of (text_key s) (text t) = refl
has_key-key_of (text_key s) (boolean b) = refl
has_key-key_of (text_key s) (number m) = refl
has_key-key_of (text_key s) (array xs) = refl
has_key-key_of (text_key s) (object fs) = refl
has_key-key_of (number_key n) null = refl
has_key-key_of (number_key n) (text t) = refl
has_key-key_of (number_key n) (boolean true) = refl
has_key-key_of (number_key n) (boolean false) = refl
has_key-key_of (number_key n) (number m) = refl
has_key-key_of (number_key n) (array xs) = refl
has_key-key_of (number_key n) (object fs) = refl

-- a list or a dict
abbrev pub IsContainer : Json → Type 0
IsContainer j = ((xs : Items) × (j ≡ array xs)) ⊎ ((fs : Fields) × (j ≡ object fs))

key_of-none : (j : Json) → key_of j ≡ none → IsContainer j
unfolding key_of
key_of-none null h = cc h
key_of-none (boolean b) h = cc h
key_of-none (number n) h = cc h
key_of-none (text t) h = cc h
key_of-none (array xs) h = inl (xs, refl)
key_of-none (object fs) h = inr (fs, refl)

-- how many events have a key
pub occurrences : Key → List Event → ℕ
occurrences k [] = 0
occurrences k (e ∷ es) = if has_key k e.op then suc (occurrences k es) else occurrences k es

-- the sum of the counts
pub total : Tally → ℕ
total [] = 0
total ((j, n) ∷ t) = n + total t

key_eq_sound : (j k : Key) → key_eq j k ≡ true → j ≡ k
unfolding key_eq
key_eq_sound (text_key s) (text_key t) h = ap text_key (text_eq_sound s t h)
key_eq_sound (text_key s) (number_key m) h = absurd (false≢true h)
key_eq_sound (number_key n) (text_key t) h = absurd (false≢true h)
key_eq_sound (number_key n) (number_key m) h = ap number_key (ground (arith, h))

key_eq_refl : (k : Key) → key_eq k k ≡ true
unfolding key_eq
key_eq_refl (text_key s) = text_eq_refl s
key_eq_refl (number_key n) = ground arith

tally_get-set :
    (k j : Key) (n : ℕ) (t : Tally)
    → tally_get j (tally_set k n t) ≡ (if key_eq k j then n else tally_get j t)
unfolding tally_get tally_set
tally_get-set k j n [] = refl
tally_get-set k j n ((i, m) ∷ t) = elim (Bool-cases (key_eq i k)) [
  | inl e ↦ let same = key_eq_sound i k e in rw e (ground arith)
  | inr e ↦ ground (arith, tally_get-set k j n t, key_eq_sound i j, key_eq_sound k j, key_eq_refl j)
]

total-set : (k : Key) (n : ℕ) (t : Tally) → total (tally_set k n t) + tally_get k t ≡ total t + n
unfolding tally_get tally_set total
total-set k n [] = omega arith
total-set k n ((i, m) ∷ t) = ground (arith, total-set k n t)

-- what counting from t gives: an exception at an event whose operation is a list or a dict, or else
-- counts that add to those of t
IsCounted : Tally → List Event → Option Tally → Type 0
IsCounted t es r =
    ((e : Event) × In e es × IsContainer e.op × (r ≡ none))
    ⊎ ((counts : Tally) × (r ≡ some counts)
        × ((k : Key) → tally_get k counts ≡ tally_get k t + occurrences k es)
        × (total counts ≡ total t + length es))

occurrences-event_key :
    (k j : Key) (e : Event) (es : List Event)
    → event_key e ≡ some j
    → occurrences k (e ∷ es) ≡ (if key_eq j k then suc (occurrences k es) else occurrences k es)
unfolding occurrences
occurrences-event_key k j e es p =
    ap (λ b. if b then suc (occurrences k es) else occurrences k es)
      (has_key-key_of k e.op
        ∙ ap (λ (o : Option Key). elim o [ none ↦ false | some i ↦ key_eq i k ]) p)

count_from-IsCounted : (t : Tally) (es : List Event) → IsCounted t es (count_from t es)
unfolding count_from IsCounted occurrences
count_from-IsCounted t [] = inr (t, refl, λ k. omega arith, omega arith)
count_from-IsCounted t (e ∷ es) = elim (Option-cases (event_key e)) [
  | inl p ↦ inl (e, inl refl, key_of-none e.op p, rw p refl)
  | inr (j, p) ↦ elim (count_from-IsCounted (tally_set j (tally_get j t + 1) t) es) [
    | inl (d, m, q, r) ↦ inl (d, inr m, q, rw p r)
    | inr (counts, r, each, all) ↦ inr (
      counts,
      rw p r,
      λ k. ground (
        arith,
        each k,
        occurrences-event_key k j e es p,
        tally_get-set j k (tally_get j t + 1) t,
        key_eq_sound j k,
      ),
      omega (arith, all, total-set j (tally_get j t + 1) t),
    )
  ]
]

-- how many messages have no value, or an empty one
pub nulls : List (Option (List ℕ)) → ℕ
nulls [] = 0
nulls (none ∷ ms) = suc (nulls ms)
nulls (some [] ∷ ms) = suc (nulls ms)
nulls (some (b ∷ bs) ∷ ms) = nulls ms

module _ (decode : List ℕ → Option Text) (loads : Text → Option Json) where
  read-cons :
      (m : Option (List ℕ)) (ms : List (Option (List ℕ))) (es : List Event)
      → read_cdc_events decode loads (m ∷ ms) ≡ some es
      → (e : Event) × (rest : List Event) × (read_message decode loads m ≡ some e)
        × (read_cdc_events decode loads ms ≡ some rest)
        × (es ≡ e ∷ rest)
  unfolding read_cdc_events
  read-cons m ms es h = elim (Option-cases (read_message decode loads m)) [
    | inl p ↦ ground arith
    | inr (e, p) ↦ elim (Option-cases (read_cdc_events decode loads ms)) [
      | inl q ↦ ground arith
      | inr (rest, q) ↦ (e, rest, p, q, ground arith)
    ]
  ]

  abbrev is_tombstone : Event → ℕ
  is_tombstone e = if has_key tombstone_key e.op then 1 else 0

  null_key : (e : Event) → some tombstone_event ≡ some e → is_tombstone e ≡ 1
  unfolding has_key text_eq
  null_key e h = ap is_tombstone (sym (some-injective _ _ h))

  nulls_step :
      (m : Option (List ℕ)) (ms : List (Option (List ℕ))) (e : Event)
      → read_message decode loads m ≡ some e
      → nulls (m ∷ ms) ≤ is_tombstone e + nulls ms
  unfolding nulls read_message
  nulls_step none ms e h = omega (arith, null_key e h)
  nulls_step (some []) ms e h = omega (arith, null_key e h)
  nulls_step (some (b ∷ bs)) ms e h = omega arith

  occurrences-cons :
      (e : Event) (es : List Event)
      → occurrences tombstone_key (e ∷ es) ≡ is_tombstone e + occurrences tombstone_key es
  unfolding occurrences
  occurrences-cons e es = elim (Bool-cases (has_key tombstone_key e.op)) [
    | inl p ↦ rw p (omega arith)
    | inr p ↦ rw p (omega arith)
  ]

  nulls-le :
      (ms : List (Option (List ℕ))) (es : List Event)
      → read_cdc_events decode loads ms ≡ some es
      → (nulls ms ≤ occurrences tombstone_key es) × (length es ≡ length ms)
  nulls-le [] es h =
      let e : [] ≡ es = some-injective _ _ (unfold read_cdc_events in h) in
      (unfold nulls in omega arith, ap length (sym e))
  nulls-le (m ∷ ms) es h =
      let (e, rest, p, q, r) = read-cons m ms es h in
      let ih = nulls-le ms rest q in
      let step = nulls_step m ms e p in
      let count = occurrences-cons e rest in rw r (omega (arith, ih.0, step, count), ap suc ih.1)

-- what `op_counts` makes of the events that were read from messages
abbrev pub Counted : List (Option (List ℕ)) → List Event → Option Tally → Type 0
Counted ms es r =
    ((e : Event) × In e es × IsContainer e.op × (r ≡ none))
    ⊎ ((counts : Tally) × (r ≡ some counts)
        × (total counts ≡ length ms)
        × ((k : Key) → tally_get k counts ≡ occurrences k es)
        × (nulls ms ≤ tally_get tombstone_key counts))

-- If reading a topic does not raise, then `op_counts` of its events raises, and one of them has a list
-- or a dict as its operation; or it returns counts, in which every message is counted once, each key
-- has the number of its events, and the tombstones are at least the messages without a value.
pub read_counts :
    (decode : List ℕ → Option Text) (loads : Text → Option Json) (ms : List (Option (List ℕ)))
    (es : List Event)
    → read_cdc_events decode loads ms ≡ some es
    → Counted ms es (op_counts es)
unfolding op_counts IsCounted total tally_get
read_counts decode loads ms es h =
    let (some_null, same) = nulls-le decode loads ms es h in
    elim (count_from-IsCounted [] es) [
      | inl raised ↦ inl raised
      | inr (counts, r, each, all) ↦
          let exact : (k : Key) → tally_get k counts ≡ occurrences k es =
            λ k. omega (arith, each k) in
          inr (
            counts,
            r,
            omega (arith, all, same),
            exact,
            omega (arith, exact tombstone_key, some_null),
          )
    ]
