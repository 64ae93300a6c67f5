-- ===== src/Cdc/Postgres.antt =====
-- The Postgres functions of common/cdc_helpers.py. Cursors, which the connection's `close` closes
-- too, are not modelled; runs of blanks in an SQL text are one blank.
pub mod Closing
pub mod Slots
use spark_dev.Base.{
  ℕ, zero, suc, ◌+◌, ◌*◌, ◌%◌, Bool, true, false, Option, none, some, List, [], ◌∷◌, ◌++◌, map,
  if◌then◌else◌,
}
use spark_dev.Base.Text.{Text, codes}
use spark_dev.Base.Json.{Json, null, number, text}
use spark_dev.Base.Effect.{perform, pure, raise, catch, finally, ◌>>=◌, ◌>>◌}
use spark_dev.Cdc.Calls.{
  Call, pg_open, pg_execute, pg_fetchall, pg_close, sleep, Answer, done, instant, rows, response,
  http_error, Cdc,
}

unfoldable pub pg_connect : Bool → Cdc Answer
pg_connect autocommit = perform (pg_open autocommit)

-- an answer of another kind does not come
abbrev pub rows_of : Answer → Cdc (Option (List (List Json)))
rows_of (rows rs) = pure (some rs)
rows_of done = raise
rows_of (instant t) = raise
rows_of (response s b) = raise
rows_of (http_error c t) = raise

unfoldable pub fetch_rows : Bool → Cdc (Option (List (List Json)))
fetch_rows true = do a ← perform pg_fetchall; rows_of a
fetch_rows false = pure none

unfoldable pub pg_exec : Text → List Json → Bool → Cdc (Option (List (List Json)))
unfolding pg_connect fetch_rows
pg_exec sql params fetch = do
  pg_connect true
  finally (do perform (pg_execute sql params); fetch_rows fetch) pg_close

unfoldable pub execute_all : List Text → Cdc (Unit {0})
execute_all [] = pure tt
execute_all (s ∷ ss) = do perform (pg_execute s []); execute_all ss

unfoldable pub pg_exec_many : List Text → Cdc (Unit {0})
unfolding pg_connect execute_all
pg_exec_many statements = do pg_connect true; finally (execute_all statements) pg_close

-- `f"cust-{i % 7}"`, a single digit
abbrev customer_name : ℕ → Text
customer_name i = codes "cust-" ++ (b'0' + i % 7) ∷ []

abbrev insert_sql : Text → Text
insert_sql table =
    codes "INSERT INTO public."
    ++ table
    ++ codes " (id, customer, amount, status) VALUES (%s,%s,%s,%s)"

-- the amount `10 + i * 1.5`, in hundredths
unfoldable pub insert_orders : Text → ℕ → ℕ → Cdc (Unit {0})
insert_orders table i zero = pure tt
insert_orders table i (suc n) = do
  perform (
      pg_execute (insert_sql table)
        (number i ∷ text (customer_name i) ∷ number (1000 + i * 150) ∷ text (codes "NEW") ∷ []))
  insert_orders table (i + 1) n

abbrev seed_statements : Text → Bool → List Text
seed_statements table replica_identity_full =
    (codes "DROP TABLE IF EXISTS public." ++ table)
    ∷ (codes "CREATE TABLE public."
        ++ table
        ++ codes " ( id INT PRIMARY KEY, customer TEXT NOT NULL, amount NUMERIC(10,2) NOT NULL,"
        ++ codes " status TEXT NOT NULL DEFAULT 'NEW', updated TIMESTAMP NOT NULL DEFAULT now() )")
    ∷ (if replica_identity_full
        then (codes "ALTER TABLE public." ++ table ++ codes " REPLICA IDENTITY FULL") ∷ []
        else [])

unfoldable pub seed_orders : Text → ℕ → Bool → Cdc ℕ
unfolding pg_connect execute_all insert_orders
seed_orders table n replica_identity_full = do
  pg_connect true
  finally (do execute_all (seed_statements table replica_identity_full); insert_orders table 0 n)
      pg_close
  pure n

-- a row of `list_slots`; the LSN is `str(r[2])`, whose text is a parameter
pub record SlotRow : Type 0 where
  pub slot_name : Json
  pub active : Json
  pub restart_lsn : Text
  pub retained_bytes : Option ℕ

-- `int(v) if v is not None else None`
abbrev retained : Json → Cdc (Option ℕ)
retained null = pure none
retained (number n) = pure (some n)
retained _ = raise

unfoldable pub slot_row : (Json → Text) → List Json → Cdc SlotRow
slot_row str (name ∷ active ∷ lsn ∷ bytes ∷ []) = do
  n ← retained bytes
  pure (record { slot_name = name; active = active; restart_lsn = str lsn; retained_bytes = n })
slot_row str _ = raise

unfoldable pub slot_rows : (Json → Text) → List (List Json) → Cdc (List SlotRow)
unfolding slot_row
slot_rows str [] = pure []
slot_rows str (r ∷ rs) = do s ← slot_row str r; ss ← slot_rows str rs; pure (s ∷ ss)

abbrev pub or_empty : Option (List (List Json)) → List (List Json)
or_empty none = []
or_empty (some rs) = rs

abbrev pub list_statement : Text
list_statement =
    codes "SELECT slot_name, active, restart_lsn, "
    ++ codes "pg_wal_lsn_diff(pg_current_wal_lsn(), restart_lsn) AS retained_bytes "
    ++ codes "FROM pg_replication_slots ORDER BY slot_name"

unfoldable pub list_slots : (Json → Text) → Cdc (List SlotRow)
unfolding pg_exec slot_rows
list_slots str = do rs ← pg_exec list_statement [] true; slot_rows str (or_empty rs)

abbrev pub select_slot : Text
select_slot = codes "SELECT 1 FROM pg_replication_slots WHERE slot_name=%s"

abbrev pub drop_statement : Text
drop_statement = codes "SELECT pg_drop_replication_slot(%s)"

-- `not present`: no rows
abbrev pub is_absent : Option (List (List Json)) → Bool
is_absent none = true
is_absent (some []) = true
is_absent (some (r ∷ rs)) = false

-- the `try` in the loop: whether the statement went through
unfoldable pub try_drop : Text → Cdc Bool
unfolding pg_exec
try_drop slot = catch (do pg_exec drop_statement (text slot ∷ []) false; pure true) (pure false)

unfoldable pub drop_slot : Text → ℕ → ℕ → Cdc Bool
unfolding pg_exec try_drop
drop_slot slot zero wait = pure false
drop_slot slot (suc retries) wait = do
  present ← pg_exec select_slot (text slot ∷ []) true
  if is_absent present then pure true else do
    dropped ← try_drop slot
    if dropped then pure true else (do perform (sleep wait); drop_slot slot retries wait)
