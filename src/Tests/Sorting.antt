-- ===== src/Tests/Sorting.antt =====
-- Insertion sort as the order inside a window's partition.
use spark_dev.Base.{
  ℕ, ◌≡◌, refl, ◌↔◌, Bool, true, false, Option, none, some, List, [], ◌∷◌, leb, if◌then◌else◌, All,
  In, All-mono, arith,
}
use spark_dev.Capstone.Events.{Change}
use spark_dev.Capstone.Latest.{NoNewer, Descends, Ranking}

abbrev no_newer : Option ℕ → Option ℕ → Bool
no_newer none b = true
no_newer (some a) none = false
no_newer (some a) (some b) = leb a b

no_newer_lem : (a b : Option ℕ) → no_newer a b ≡ true → NoNewer a b
no_newer_lem none b e = tt
no_newer_lem (some a) none e = cc
no_newer_lem (some a) (some b) e = ground arith

newer_lem : (a b : Option ℕ) → no_newer a b ≡ false → NoNewer b a
newer_lem none b e = cc
newer_lem (some a) none e = tt
newer_lem (some a) (some b) e = ground arith

NoNewer-trans : (a b c : Option ℕ) → NoNewer a b → NoNewer b c → NoNewer a c
NoNewer-trans none b c p q = tt
NoNewer-trans (some a) none c p q = absurd p
NoNewer-trans (some a) (some b) none p q = q
NoNewer-trans (some a) (some b) (some c) p q = omega (arith, p, q)

unfoldable insert_change : Change → List Change → List Change
insert_change c [] = c ∷ []
insert_change c (d ∷ ds) = if no_newer d.lsn c.lsn then c ∷ d ∷ ds else d ∷ insert_change c ds

unfoldable newest_first : List Change → List Change
newest_first [] = []
newest_first (c ∷ cs) = insert_change c (newest_first cs)

In-insert_change : (a c : Change) (cs : List Change) → In a (insert_change c cs) ↔ In a (c ∷ cs)
unfolding insert_change
In-insert_change a c [] = (λ m. m, λ m. m)
In-insert_change a c (d ∷ ds) = ground (arith, In-insert_change a c ds)

In-newest_first : (a : Change) (cs : List Change) → In a (newest_first cs) ↔ In a cs
unfolding newest_first
In-newest_first a [] = (λ m. m, λ m. m)
In-newest_first a (c ∷ cs) =
    ground (arith, In-newest_first a cs, In-insert_change a c (newest_first cs))

All-insert_change :
    (P : Change → Type 0) (c : Change) (cs : List Change)
    → P c
    → All P cs
    → All P (insert_change c cs)
unfolding insert_change
All-insert_change P c [] p h = (p, tt)
All-insert_change P c (d ∷ ds) p h = ground (arith, All-insert_change P c ds p h.1)

insert_change-Descends :
    (c : Change) (cs : List Change) → Descends cs → Descends (insert_change c cs)
unfolding insert_change
insert_change-Descends c [] h = (tt, tt)
insert_change-Descends c (d ∷ ds) h =
    place (insert_change-Descends c ds h.1) (no_newer d.lsn c.lsn) refl
  where
    place :
        Descends (insert_change c ds)
        → (b : Bool) → no_newer d.lsn c.lsn ≡ b
        → Descends (if b then c ∷ d ∷ ds else d ∷ insert_change c ds)
    place more true e =
        let p = no_newer_lem d.lsn c.lsn e in
        ((p, All-mono _ _ (λ x q. NoNewer-trans x.lsn d.lsn c.lsn q p) ds h.0), h)
    place more false e =
        (All-insert_change (λ x. NoNewer x.lsn d.lsn) c ds (newer_lem d.lsn c.lsn e) h.0, more)

newest_first-Descends : (cs : List Change) → Descends (newest_first cs)
unfolding newest_first
newest_first-Descends [] = tt
newest_first-Descends (c ∷ cs) =
    insert_change-Descends c (newest_first cs) (newest_first-Descends cs)

pub insertion_sort : Ranking
insertion_sort = record {
  order = newest_first;
  keeps = In-newest_first;
  descends = newest_first-Descends;
}
