-- ===== src/Cdc/Postgres/Closing.antt =====
-- The Postgres functions of common/cdc_helpers.py leave no connection open.
use spark_dev.Base.{ℕ, zero, suc, ◌≡◌, refl, Bool, true, false, Option, none, some, List, [], ◌∷◌}
use spark_dev.Base.Text.{Text}
use spark_dev.Base.Json.{Json, text}
use spark_dev.Base.Effect.{
  Outcome, returns, raises, continue, Surroundings, pure, finally, ◌>>=◌, ◌>>◌,
}
use spark_dev.Base.Keeps.{Keeps, Keeps-perform, Keeps-pure, Keeps-bind, Keeps-catch, Keeps-if}
use spark_dev.Cdc.Calls.{
  Call, pg_open, pg_execute, pg_fetchall, pg_close, request, sleep, now, admin_open, admin_delete,
  admin_close, Answer, Cdc,
}
use spark_dev.Cdc.Postgres.{
  pg_connect, pg_exec, pg_exec_many, execute_all, insert_orders, seed_statements, seed_orders,
  select_slot, drop_statement, is_absent, try_drop, drop_slot,
}

-- whether a connection to Postgres is open after a history
abbrev pub connected : Surroundings Call Answer → List Call → Bool
connected env [] = false
connected env (pg_open b ∷ h) = elim (env (pg_open b ∷ h)) [
  | none ↦ connected env h
  | some _ ↦ true
]
connected env (pg_close ∷ h) = false
connected env (pg_execute s ps ∷ h) = connected env h
connected env (pg_fetchall ∷ h) = connected env h
connected env (request m p b t ∷ h) = connected env h
connected env (sleep t ∷ h) = connected env h
connected env (now ∷ h) = connected env h
connected env (admin_open ∷ h) = connected env h
connected env (admin_delete ts ∷ h) = connected env h
connected env (admin_close ∷ h) = connected env h

module _ (env : Surroundings Call Answer) where
  -- no connection is open
  abbrev pub IsClosed : List Call → Type 0
  IsClosed h = connected env h ≡ false

  opened-IsClosed :
      {A : Type 0} (f : Answer → Cdc A)
      → ((a : Answer) (h : List Call) → IsClosed (f a env h).1)
      → Keeps env IsClosed (pg_connect true >>= f)
  unfolding pg_connect
  opened-IsClosed f k = record { at = λ h p. continue_open (env (pg_open true ∷ h)) h p refl }
    where
      continue_open :
          (o : Option Answer) (h : List Call)
          → IsClosed h
          → env (pg_open true ∷ h) ≡ o
          → IsClosed
              (continue (elim o [ none ↦ raises | some a ↦ returns a ]) f env (pg_open true ∷ h)).1
      continue_open none h p e = rw e p
      continue_open (some a) h p e = k a (pg_open true ∷ h)

  pg_exec-IsClosed :
      (sql : Text) (ps : List Json) (fetch : Bool) → Keeps env IsClosed (pg_exec sql ps fetch)
  unfolding pg_exec
  pg_exec-IsClosed sql ps fetch = opened-IsClosed _ (λ a h. refl)

  pg_exec_many-IsClosed : (ss : List Text) → Keeps env IsClosed (pg_exec_many ss)
  unfolding pg_exec_many
  pg_exec_many-IsClosed ss = opened-IsClosed _ (λ a h. refl)

  returned-IsClosed :
      {A B : Type 0} (r : Outcome A) (b : B) (h : List Call)
      → IsClosed h
      → IsClosed (continue r (λ _. pure b) env h).1
  returned-IsClosed (returns a) b h p = p
  returned-IsClosed raises b h p = p

  finally-IsClosed :
      {A B : Type 0} (m : Cdc A) (b : B) (h : List Call)
      → IsClosed ((finally m pg_close >>= λ _. pure b) env h).1
  finally-IsClosed m b h =
      returned-IsClosed (finally m pg_close env h).0 b (finally m pg_close env h).1 refl

  seed_orders-IsClosed :
      (table : Text) (n : ℕ) (full : Bool) → Keeps env IsClosed (seed_orders table n full)
  unfolding seed_orders
  seed_orders-IsClosed table n full = opened-IsClosed _ (λ a h.
      finally-IsClosed (execute_all (seed_statements table full) >> insert_orders table 0 n) n h)

  try_drop-IsClosed : (slot : Text) → Keeps env IsClosed (try_drop slot)
  unfolding try_drop
  try_drop-IsClosed slot =
      Keeps-catch env IsClosed _ _
        (Keeps-bind env IsClosed _ _ (pg_exec-IsClosed drop_statement (text slot ∷ []) false)
          (λ _. Keeps-pure env IsClosed true))
        (Keeps-pure env IsClosed false)

  drop_slot-IsClosed :
      (slot : Text) (retries wait : ℕ) → Keeps env IsClosed (drop_slot slot retries wait)
  unfolding drop_slot
  drop_slot-IsClosed slot zero wait = Keeps-pure env IsClosed false
  drop_slot-IsClosed slot (suc n) wait =
      let again = drop_slot-IsClosed slot n wait in
      Keeps-bind env IsClosed _ _ (pg_exec-IsClosed select_slot (text slot ∷ []) true) (λ present.
        Keeps-if env IsClosed (is_absent present) _ _ (Keeps-pure env IsClosed true) (
          Keeps-bind env IsClosed _ _ (try_drop-IsClosed slot) (λ dropped.
            Keeps-if env IsClosed dropped _ _ (Keeps-pure env IsClosed true) (
              Keeps-bind env IsClosed _ _ (Keeps-perform env IsClosed (sleep wait) (λ h p. p))
                (λ _. again)))))

-- Whatever the database answers and whichever call raises, `pg_exec`, `pg_exec_many`, `seed_orders`
-- and `drop_slot` started with no open connection leave none open.
pub postgres_closes :
    (env : Surroundings Call Answer) (h : List Call)
    → IsClosed env h
    → ((sql : Text) (ps : List Json) (fetch : Bool) → IsClosed env (pg_exec sql ps fetch env h).1)
      × ((ss : List Text) → IsClosed env (pg_exec_many ss env h).1)
      × ((table : Text) (n : ℕ) (full : Bool) → IsClosed env (seed_orders table n full env h).1)
      × ((slot : Text) (retries wait : ℕ) → IsClosed env (drop_slot slot retries wait env h).1)
postgres_closes env h p = (
  λ sql ps fetch. (pg_exec-IsClosed env sql ps fetch).at h p,
  λ ss. (pg_exec_many-IsClosed env ss).at h p,
  λ table n full. (seed_orders-IsClosed env table n full).at h p,
  λ slot retries wait. (drop_slot-IsClosed env slot retries wait).at h p,
)
