-- ===== src/Cdc/Postgres/Slots.antt =====
-- `drop_slot` of common/cdc_helpers.py against the replication slots that Postgres keeps.
use spark_dev.Base.{
  ℕ, zero, suc, ◌≡◌, refl, sym, ap, ◌∙◌, Bool, true, false, Option, none, some, List, [], ◌∷◌,
}
use mathlib.Core.Path.{subst}
use spark_dev.Base.Text.{Text}
use spark_dev.Base.Json.{Json, text}
use spark_dev.Base.Effect.{Outcome, returns, Surroundings, perform, ◌>>◌}
use spark_dev.Base.Triple.{
  Post, Triple, Triple-pure, Triple-raise, Triple-perform, Triple-bind, Triple-finally,
  Triple-catch, Triple-if, Triple-weaken,
}
use spark_dev.Cdc.Calls.{
  Call, pg_open, pg_execute, pg_fetchall, pg_close, sleep, Answer, rows, done, instant, response,
  http_error,
}
use spark_dev.Cdc.Postgres.{
  rows_of, fetch_rows, pg_exec, select_slot, drop_statement, is_absent, try_drop, drop_slot,
}

-- What the documentation of Postgres says of a slot. `present` is whether the slot exists after a
-- history of calls; no other client creates it meanwhile.
pub record KeepsSlot (env : Surroundings Call Answer) (slot : Text) : Type 0 where
  pub present : List Call → Bool
  -- the query finds a slot that exists
  pub selected :
      (h : List Call) (rs : List (List Json))
      → env (pg_fetchall ∷ pg_execute select_slot (text slot ∷ []) ∷ h) ≡ some (rows rs)
      → is_absent (some rs) ≡ true
      → present (pg_fetchall ∷ pg_execute select_slot (text slot ∷ []) ∷ h) ≡ false
  -- a drop that does not raise removes the slot
  pub dropped :
      (h : List Call) (a : Answer)
      → env (pg_execute drop_statement (text slot ∷ []) ∷ h) ≡ some a
      → present (pg_execute drop_statement (text slot ∷ []) ∷ h) ≡ false
  -- closing a connection creates no slot
  pub closing : (h : List Call) → present h ≡ false → present (pg_close ∷ h) ≡ false

pg_exec_ensures :
    (env : Surroundings Call Answer) (sql : Text) (ps : List Json) (fetch : Bool)
    (Q : Option (List (List Json)) → List Call → Type 0)
    → ((h : List Call) (a : Option (List (List Json))) → Q a h → Q a (pg_close ∷ h))
    → Triple env (λ _. Unit) (perform (pg_execute sql ps) >> fetch_rows fetch) Q
    → Triple env (λ _. Unit) (pg_exec sql ps fetch) Q
unfolding pg_exec
pg_exec_ensures env sql ps fetch Q stable t =
    Triple-bind env (λ _. Unit) (λ _ _. Unit) Q (perform (pg_open true)) _
      (Triple-perform env (λ _. Unit) (λ _ _. Unit) (pg_open true) (λ h p a e. tt))
      (λ _.
        Triple-finally env (λ _. Unit) Q (perform (pg_execute sql ps) >> fetch_rows fetch) pg_close
          t stable)

module _ (env : Surroundings Call Answer) (slot : Text) (pg : KeepsSlot env slot) where
  abbrev IsGone : List Call → Type 0
  IsGone h = pg.present h ≡ false

  abbrev Selected : Option (List (List Json)) → List Call → Type 0
  Selected found h = is_absent found ≡ true → IsGone h

  -- the history and the answer of the query
  abbrev Fetched : Answer → List Call → Type 0
  Fetched a h =
      (h' : List Call) × (h ≡ pg_fetchall ∷ pg_execute select_slot (text slot ∷ []) ∷ h')
      × (env (pg_fetchall ∷ pg_execute select_slot (text slot ∷ []) ∷ h') ≡ some a)

  rows_of_ensures : (a : Answer) → Triple env (Fetched a) (rows_of a) Selected
  rows_of_ensures (rows rs) =
      Triple-pure env (Fetched (rows rs)) Selected (some rs)
        (λ h (h', e, q) none_found. ap pg.present e ∙ pg.selected h' rs q none_found)
  rows_of_ensures done = Triple-raise env _ _
  rows_of_ensures (instant t) = Triple-raise env _ _
  rows_of_ensures (response s b) = Triple-raise env _ _
  rows_of_ensures (http_error c t) = Triple-raise env _ _

  select_ensures : Triple env (λ _. Unit) (pg_exec select_slot (text slot ∷ []) true) Selected
  select_ensures =
      pg_exec_ensures env select_slot (text slot ∷ []) true Selected (λ h a q e. pg.closing h (q e))
        (Triple-bind env (λ _. Unit)
          (λ _ h. (h' : List Call) × (h ≡ pg_execute select_slot (text slot ∷ []) ∷ h')) Selected
          (perform (pg_execute select_slot (text slot ∷ []))) _
          (Triple-perform env (λ _. Unit) _ _ (λ h p a e. (h, refl)))
          (λ _.
            unfold fetch_rows in
            Triple-bind env _ Fetched Selected (perform pg_fetchall) rows_of
              (Triple-perform env _ Fetched pg_fetchall (λ h (h', e) a q.
                (h', ap (λ l. pg_fetchall ∷ l) e, ap (λ l. env (pg_fetchall ∷ l)) (sym e) ∙ q)))
              rows_of_ensures))

  drop_ensures :
      Triple env (λ _. Unit) (pg_exec drop_statement (text slot ∷ []) false) (λ _ h. IsGone h)
  drop_ensures =
      pg_exec_ensures env drop_statement (text slot ∷ []) false (λ _ h. IsGone h)
        (λ h a q. pg.closing h q)
        (Triple-bind env (λ _. Unit) (λ _ h. IsGone h) (λ _ h. IsGone h)
          (perform (pg_execute drop_statement (text slot ∷ []))) _
          (Triple-perform env (λ _. Unit) _ _ (λ h p a e. pg.dropped h a e))
          (λ _. unfold fetch_rows in Triple-pure env _ _ none (λ h p. p)))

  abbrev Dropped : Bool → List Call → Type 0
  Dropped b h = b ≡ true → IsGone h

  try_drop_ensures : Triple env (λ _. Unit) (try_drop slot) Dropped
  unfolding try_drop
  try_drop_ensures =
      Triple-catch env (λ _. Unit) Dropped _ _
        (Triple-bind env (λ _. Unit) (λ _ h. IsGone h) Dropped _ _ drop_ensures
          (λ _. Triple-pure env _ Dropped true (λ h p _. p)))
        (Triple-pure env _ Dropped false (λ h p e. cc))

  drop_slot_ensures :
      (retries wait : ℕ) → Triple env (λ _. Unit) (drop_slot slot retries wait) Dropped
  unfolding drop_slot
  drop_slot_ensures zero wait = Triple-pure env _ Dropped false (λ h p e. cc)
  drop_slot_ensures (suc n) wait =
      let again = drop_slot_ensures n wait in
      Triple-bind env (λ _. Unit) Selected Dropped _ _ select_ensures
        (λ found.
          Triple-if env (Selected found) Dropped (is_absent found) _ _
            (λ e. Triple-pure env (Selected found) Dropped true (λ h q _. q e))
            (λ _.
              Triple-weaken env (λ _. Unit) (Selected found) Dropped _
                (Triple-bind env (λ _. Unit) Dropped Dropped _ _ try_drop_ensures
                  (λ b.
                    Triple-if env (Dropped b) Dropped b _ _
                      (λ e. Triple-pure env (Dropped b) Dropped true (λ h q _. q e))
                      (λ _.
                        Triple-weaken env (λ _. Unit) (Dropped b) Dropped _
                          (Triple-bind env (λ _. Unit) (λ _ _. Unit) Dropped _ _
                            (Triple-perform env (λ _. Unit) _ (sleep wait) (λ h p a e. tt))
                            (λ _. again))
                          (λ h p. tt))))
                (λ h p. tt)))

-- Over a database that keeps its documented promises on slots, if `drop_slot` returns True then the
-- slot does not exist at the end.
pub drop_slot_sound :
    (env : Surroundings Call Answer) (slot : Text) (pg : KeepsSlot env slot) (retries wait : ℕ)
    (h h' : List Call)
    → drop_slot slot retries wait env h ≡ (returns true, h')
    → pg.present h' ≡ false
drop_slot_sound env slot pg retries wait h h' e =
    subst (λ (r : Outcome Bool × List Call). Post (Dropped env slot pg) r.0 r.1) e
      ((drop_slot_ensures env slot pg retries wait).at h tt) refl
