-- ===== src/Labs/WalGrowth/Dropped.antt =====
-- The orphaned slot of cdc5_wal_growth.ipynb is gone from the list once it is dropped.
use spark_dev.Base.{
  inl, inr, ◌⊎◌, ℕ, ◌≡◌, ◌≢◌, refl, sym, ap, ◌∙◌, true, false, Option, some, List, [], ◌∷◌, All,
  head?, arith,
}
use mathlib.Core.Path.{subst}
use spark_dev.Base.Text.{Text, text_eq_sound}
use spark_dev.Base.Json.{Json, null, boolean, number, text, array, object}
use spark_dev.Base.Effect.{raises, Outcome, returns, Surroundings, perform, ◌>>◌}
use spark_dev.Base.Triple.{
  Post, Triple, Triple-pure, Triple-raise, Triple-perform, Triple-bind, Triple-finally, Triple-any,
  Triple-assume, Triple-weaken,
}
use spark_dev.Cdc.Calls.{
  Call, pg_open, pg_execute, pg_fetchall, pg_close, Answer, rows, done, instant, response,
  http_error,
}
use spark_dev.Cdc.Connect.{is_text}
use spark_dev.Cdc.Postgres.{
  rows_of, fetch_rows, pg_exec, pg_connect, list_statement, or_empty, SlotRow, slot_row, slot_rows,
  list_slots, drop_slot,
}
use spark_dev.Cdc.Postgres.Slots.{KeepsSlot, drop_slot_sound}
use spark_dev.Labs.WalGrowth.{named, listed}

-- the first cell of a row of the list is not the slot's name
abbrev Unnamed : Text → List Json → Type 0
Unnamed slot r = head? r ≢ some (text slot)

-- What the documentation of Postgres says of the list of slots: no row is of a slot that does not
-- exist. Opening a connection and asking for the list create no slot.
pub record ListsSlot (env : Surroundings Call Answer) (slot : Text) (pg : KeepsSlot env slot)
    : Type 0 where
  pub opening : (h : List Call) → pg.present h ≡ false → pg.present (pg_open true ∷ h) ≡ false
  pub asking :
      (h : List Call) → pg.present h ≡ false → pg.present (pg_execute list_statement [] ∷ h) ≡ false
  pub listing :
      (h : List Call) (rs : List (List Json))
      → env (pg_fetchall ∷ pg_execute list_statement [] ∷ h) ≡ some (rows rs)
      → pg.present (pg_execute list_statement [] ∷ h) ≡ false
      → All (Unnamed slot) rs

module _ (env : Surroundings Call Answer) (str : Json → Text) (slot : Text) where
  abbrev NotIt : SlotRow → Type 0
  NotIt x = x.slot_name ≢ text slot

  head_cell : (c : Json) (cs : List Json) → Unnamed slot (c ∷ cs) → c ≢ text slot
  head_cell c cs u e = u (ap some e)

  slot_row_ensures :
      (r : List Json) → Unnamed slot r → Triple env (λ _. Unit) (slot_row str r) (λ x _. NotIt x)
  unfolding slot_row
  slot_row_ensures [] u = Triple-raise env _ _
  slot_row_ensures (a ∷ []) u = Triple-raise env _ _
  slot_row_ensures (a ∷ b ∷ []) u = Triple-raise env _ _
  slot_row_ensures (a ∷ b ∷ c ∷ []) u = Triple-raise env _ _
  slot_row_ensures (a ∷ b ∷ c ∷ d ∷ []) u =
      Triple-bind env (λ _. Unit) (λ _ _. Unit) _ _ _ (Triple-any env _ _)
        (λ n. Triple-pure env _ _ _ (λ h p. head_cell a (b ∷ c ∷ d ∷ []) u))
  slot_row_ensures (a ∷ b ∷ c ∷ d ∷ e ∷ es) u = Triple-raise env _ _

  slot_rows_ensures :
      (rs : List (List Json))
      → All (Unnamed slot) rs
      → Triple env (λ _. Unit) (slot_rows str rs) (λ xs _. All NotIt xs)
  unfolding slot_rows
  slot_rows_ensures [] u = Triple-pure env _ _ [] (λ h p. tt)
  slot_rows_ensures (r ∷ rs) u =
      Triple-bind env (λ _. Unit) (λ x _. NotIt x) _ (slot_row str r) _ (slot_row_ensures r u.0)
        (λ s.
          Triple-assume env (λ _. NotIt s) _ _
            (λ h n.
              Triple-bind env (λ _. NotIt s) (λ xs _. All NotIt xs) _ (slot_rows str rs) _
                (Triple-weaken env (λ _. Unit) _ _ _ (slot_rows_ensures rs u.1) (λ h p. tt))
                (λ ss. Triple-pure env _ _ (s ∷ ss) (λ h p. (n, p)))))

  is_text_sound : (j : Json) → is_text slot j ≡ true → j ≡ text slot
  is_text_sound (text t) e = ap text (text_eq_sound t slot e)
  is_text_sound null e = cc
  is_text_sound (boolean b) e = cc
  is_text_sound (number n) e = cc
  is_text_sound (array xs) e = cc
  is_text_sound (object fs) e = cc

  named_none : (xs : List SlotRow) → All NotIt xs → named slot xs ≡ []
  unfolding named
  named_none [] h = refl
  named_none (x ∷ xs) h = ground (arith, named_none xs h.1, is_text_sound x.slot_name, h.0)

  module _ (pg : KeepsSlot env slot) (lists : ListsSlot env slot pg) where
    abbrev IsGone : List Call → Type 0
    IsGone h = pg.present h ≡ false

    abbrev Listing : Option (List (List Json)) → List Call → Type 0
    Listing found h = All (Unnamed slot) (or_empty found)

    -- the history and the answer of the query
    abbrev Fetched : Answer → List Call → Type 0
    Fetched a h =
        (h' : List Call) × IsGone (pg_execute list_statement [] ∷ h')
        × (env (pg_fetchall ∷ pg_execute list_statement [] ∷ h') ≡ some a)

    rows_of_ensures : (a : Answer) → Triple env (Fetched a) (rows_of a) Listing
    rows_of_ensures (rows rs) =
        Triple-pure env (Fetched (rows rs)) Listing (some rs)
          (λ h (h', g, q). lists.listing h' rs q g)
    rows_of_ensures done = Triple-raise env _ _
    rows_of_ensures (instant t) = Triple-raise env _ _
    rows_of_ensures (response s b) = Triple-raise env _ _
    rows_of_ensures (http_error c t) = Triple-raise env _ _

    query_ensures : Triple env IsGone (pg_exec list_statement [] true) Listing
    unfolding pg_exec pg_connect
    query_ensures =
        Triple-bind env IsGone (λ _. IsGone) Listing (perform (pg_open true)) _
          (Triple-perform env IsGone _ (pg_open true) (λ h g a e. lists.opening h g))
          (λ _.
            Triple-finally env IsGone Listing
              (perform (pg_execute list_statement []) >> fetch_rows true) pg_close
              (Triple-bind env IsGone
                (λ _ h. (h' : List Call) × (h ≡ pg_execute list_statement [] ∷ h') × IsGone h)
                Listing (perform (pg_execute list_statement [])) _
                (Triple-perform env IsGone _ _ (λ h g a e. (h, refl, lists.asking h g)))
                (λ _.
                  unfold fetch_rows in
                  Triple-bind env _ Fetched Listing (perform pg_fetchall) rows_of
                    (Triple-perform env _ Fetched pg_fetchall (λ h (h', e, g) a q.
                      (h', subst IsGone e g, ap (λ l. env (pg_fetchall ∷ l)) (sym e) ∙ q)))
                    rows_of_ensures))
              (λ h a q. q))

    listed_ensures : Triple env IsGone (listed str slot) (λ xs _. xs ≡ [])
    unfolding listed list_slots
    listed_ensures =
        Triple-bind env IsGone (λ xs _. All NotIt xs) _ (list_slots str) _
          (Triple-bind env IsGone Listing _ (pg_exec list_statement [] true) _ query_ensures
            (λ found. Triple-assume env (Listing found) _ _ (λ h u.
              Triple-weaken env (λ _. Unit) _ _ _ (slot_rows_ensures (or_empty found) u)
                (λ h p. tt))))
          (λ xs. Triple-pure env _ _ (named slot xs) (λ h p. named_none xs p))

no_rows_or_raises :
    (r : Outcome (List SlotRow)) (h : List Call)
    → Post (λ xs _. xs ≡ []) r h
    → (r ≡ returns []) ⊎ (r ≡ raises)
no_rows_or_raises (returns xs) h e = inl (ap returns e)
no_rows_or_raises raises h e = inr refl

-- Over a database that keeps its documented promises on slots and lists those that exist: if
-- `drop_slot` returns True, then the notebook's search for the slot, made next, finds no row, unless
-- it raises.
pub dropped_unlisted :
    (env : Surroundings Call Answer) (str : Json → Text) (slot : Text) (pg : KeepsSlot env slot)
    → ListsSlot env slot pg
    → (retries wait : ℕ) (h h' : List Call) → drop_slot slot retries wait env h ≡ (returns true, h')
    → ((listed str slot env h').0 ≡ returns []) ⊎ ((listed str slot env h').0 ≡ raises)
dropped_unlisted env str slot pg lists retries wait h h' d =
    no_rows_or_raises (listed str slot env h').0 (listed str slot env h').1 (
      (listed_ensures env str slot pg lists).at h'
        (drop_slot_sound env slot pg retries wait h h' d))
