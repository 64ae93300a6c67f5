-- ===== src/Cdc/Teardown/Kept.antt =====
-- What later calls of common/cdc_helpers.py leave of the history: a fact that no call undoes.
use spark_dev.Base.{ℕ, zero, suc, Bool, true, false, none, List, [], ◌∷◌}
use spark_dev.Base.Text.{Text}
use spark_dev.Base.Json.{Json, text}
use spark_dev.Base.Effect.{finally, Surroundings, perform, pure, catch, ◌>>◌}
use spark_dev.Base.Keeps.{
  Keeps, Keeps-perform, Keeps-pure, Keeps-raise, Keeps-bind, Keeps-catch, Keeps-if, Keeps-finally,
}
use spark_dev.Cdc.Calls.{
  Cdc, delete, Call, pg_open, pg_execute, pg_fetchall, pg_close, request, sleep, admin_open,
  admin_delete, admin_close, Answer, done, instant, rows, response, http_error,
}
use spark_dev.Cdc.Postgres.{
  rows_of, fetch_rows, pg_exec, select_slot, drop_statement, is_absent, try_drop, drop_slot,
}
use spark_dev.Cdc.Connect.{reply_of, req, connector_path, delete_connector}

-- the attempt to delete a topic, whose exceptions are ignored
abbrev pub deletion : Text → Cdc (Unit {0})
deletion topic = do
  perform admin_open
  finally (catch (do perform (admin_delete (topic ∷ [])); pure tt) (pure tt)) admin_close

-- A fact of the history that later calls do not undo.
module _ (env : Surroundings Call Answer) (P : List Call → Type 0)
    (stable : (c : Call) (h : List Call) → P h → P (c ∷ h)) where
  pub call-Keeps : (c : Call) → Keeps env P (perform c)
  call-Keeps c = Keeps-perform env P c (stable c)

  rows_of-Keeps : (a : Answer) → Keeps env P (rows_of a)
  rows_of-Keeps (rows rs) = Keeps-pure env P _
  rows_of-Keeps done = Keeps-raise env P
  rows_of-Keeps (instant t) = Keeps-raise env P
  rows_of-Keeps (response s b) = Keeps-raise env P
  rows_of-Keeps (http_error c t) = Keeps-raise env P

  pub fetch_rows-Keeps : (fetch : Bool) → Keeps env P (fetch_rows fetch)
  unfolding fetch_rows
  fetch_rows-Keeps true = Keeps-bind env P _ _ (call-Keeps pg_fetchall) rows_of-Keeps
  fetch_rows-Keeps false = Keeps-pure env P none

  pub pg_exec-Keeps :
      (sql : Text) (ps : List Json) (fetch : Bool) → Keeps env P (pg_exec sql ps fetch)
  unfolding pg_exec
  pg_exec-Keeps sql ps fetch =
      Keeps-bind env P (perform (pg_open true)) _ (call-Keeps (pg_open true)) (λ _.
        Keeps-finally env P _ pg_close
          (Keeps-bind env P (perform (pg_execute sql ps)) _ (call-Keeps (pg_execute sql ps))
            (λ _. fetch_rows-Keeps fetch))
          (stable pg_close))

  try_drop-Keeps : (slot : Text) → Keeps env P (try_drop slot)
  unfolding try_drop
  try_drop-Keeps slot =
      Keeps-catch env P _ _
        (Keeps-bind env P _ _ (pg_exec-Keeps drop_statement (text slot ∷ []) false)
          (λ _. Keeps-pure env P true))
        (Keeps-pure env P false)

  pub drop_slot-Keeps : (slot : Text) (n wait : ℕ) → Keeps env P (drop_slot slot n wait)
  unfolding drop_slot
  drop_slot-Keeps slot zero wait = Keeps-pure env P false
  drop_slot-Keeps slot (suc n) wait =
      let again = drop_slot-Keeps slot n wait in
      Keeps-bind env P _ _ (pg_exec-Keeps select_slot (text slot ∷ []) true) (λ found.
        Keeps-if env P (is_absent found) _ _ (Keeps-pure env P true) (
          Keeps-bind env P _ _ (try_drop-Keeps slot) (λ b.
            Keeps-if env P b _ _ (Keeps-pure env P true)
              (Keeps-bind env P _ _ (call-Keeps (sleep wait)) (λ _. again)))))

  pub reply_of-Keeps : (a : Answer) → Keeps env P (reply_of a)
  unfolding reply_of
  reply_of-Keeps (response s b) = Keeps-pure env P _
  reply_of-Keeps (http_error k t) = Keeps-pure env P _
  reply_of-Keeps done = Keeps-raise env P
  reply_of-Keeps (instant t) = Keeps-raise env P
  reply_of-Keeps (rows rs) = Keeps-raise env P

  pub delete_connector-Keeps : (name : Text) → Keeps env P (delete_connector name)
  unfolding delete_connector req
  delete_connector-Keeps name =
      Keeps-bind env P _ _
        (Keeps-bind env P _ reply_of (call-Keeps (request delete (connector_path name) none 15000))
          reply_of-Keeps)
        (λ r. Keeps-pure env P r.0)

  pub deletion-Keeps : (topic : Text) → Keeps env P (deletion topic)
  deletion-Keeps topic = Keeps-bind env P (perform admin_open) _ (call-Keeps admin_open) (λ _.
      Keeps-finally env P _ admin_close
        (Keeps-catch env P _ _
          (Keeps-bind env P _ _ (call-Keeps (admin_delete (topic ∷ []))) (λ _. Keeps-pure env P tt))
          (Keeps-pure env P tt))
        (stable admin_close))
