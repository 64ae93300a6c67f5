-- ===== src/Cdc/Teardown/Order.antt =====
-- What `teardown` of common/cdc_helpers.py has done when it returns.
use spark_dev.Base.{
  ℕ, ◌≡◌, refl, inl, inr, Bool, true, false, Option, none, some, List, [], ◌∷◌, In,
}
use mathlib.Core.Path.{subst}
use spark_dev.Base.Text.{Text, codes}
use spark_dev.Base.Json.{Json}
use spark_dev.Base.Effect.{Outcome, returns, Surroundings, perform, pure, catch, ◌>>◌}
use spark_dev.Base.Triple.{
  Post, Triple, Triple-perform, Triple-pure, Triple-bind, Triple-kept, Triple-finally,
  Triple-and_kept, Triple-post, Triple-any, Triple-if,
}
use spark_dev.Cdc.Calls.{
  delete, Call, pg_open, pg_execute, pg_close, request, sleep, admin_open, admin_delete,
  admin_close, Answer,
}
use spark_dev.Cdc.Slot.{Unicode, topic_name}
use spark_dev.Cdc.Config.{slot_or_default}
use spark_dev.Cdc.Postgres.{fetch_rows, pg_exec, drop_slot}
use spark_dev.Cdc.Connect.{reply_of, req, connector_path, delete_connector, reset_offsets}
use spark_dev.Cdc.Teardown.Kept.{
  call-Keeps, fetch_rows-Keeps, pg_exec-Keeps, drop_slot-Keeps, reply_of-Keeps, deletion,
  deletion-Keeps,
}
use spark_dev.Cdc.Teardown.{delete_data_topic, drop_table, drop_source, teardown}

-- a call that stands somewhere in the history
abbrev pub Made : Call → List Call → Type 0
Made c h = In c h

module _ (env : Surroundings Call Answer) where
  Made-stable : (d : Call) (c : Call) (h : List Call) → Made d h → Made d (c ∷ h)
  Made-stable d c h m = inr m

  made : (c : Call) → Triple env (λ _. Unit) (perform c) (λ _ h. Made c h)
  made c = Triple-perform env (λ _. Unit) _ c (λ h p a e. inl refl)

  pub delete_connector-Made :
      (name : Text)
      → Triple env
          (λ _. Unit)
          (delete_connector name)
          (λ _ h. Made (request delete (connector_path name) none 15000) h)
  unfolding delete_connector req
  delete_connector-Made name =
      let c = request delete (connector_path name) none 15000 in
      Triple-bind env (λ _. Unit) (λ _ h. Made c h) _ _ _
        (Triple-bind env (λ _. Unit) (λ _ h. Made c h) (λ _ h. Made c h) (perform c) reply_of
          (made c)
          (λ a. Triple-kept env (Made c) _ (reply_of-Keeps env (Made c) (Made-stable c) a)))
        (λ r. Triple-pure env (Made c) _ r.0 (λ h p. p))

  pg_exec-Made :
      (sql : Text) (ps : List Json) (fetch : Bool)
      → Triple env (λ _. Unit) (pg_exec sql ps fetch) (λ _ h. Made (pg_execute sql ps) h)
  unfolding pg_exec
  pg_exec-Made sql ps fetch =
      let c = pg_execute sql ps in
      Triple-bind env (λ _. Unit) (λ _ _. Unit) _ (perform (pg_open true)) _
        (Triple-perform env (λ _. Unit) _ (pg_open true) (λ h p a e. tt))
        (λ _.
          Triple-finally env (λ _. Unit) (λ _ h. Made c h) (perform c >> fetch_rows fetch) pg_close
            (Triple-bind env (λ _. Unit) (λ _ h. Made c h) (λ _ h. Made c h) (perform c) _ (made c)
              (λ _.
                Triple-kept env (Made c) _ (fetch_rows-Keeps env (Made c) (Made-stable c) fetch)))
            (λ h a m. inr m))

  -- an attempt whose exception is ignored is made all the same
  attempt-Made :
      (c : Call) → Triple env (λ _. Unit) (catch (perform c >> pure tt) (pure tt)) (λ _ h. Made c h)
  attempt-Made c = record { at = λ h p. go (env (c ∷ h)) h refl }
    where
      go :
          (o : Option Answer) (h : List Call)
          → env (c ∷ h) ≡ o
          → Post
              (λ _ g. Made c g)
              (catch (perform c >> pure tt) (pure tt) env h).0
              (catch (perform c >> pure tt) (pure tt) env h).1
      go none h e = rw e (inl refl)
      go (some a) h e = rw e (inl refl)

  pub deletion-Made :
      (topic : Text)
      → Triple env (λ _. Unit) (deletion topic) (λ _ h. Made (admin_delete (topic ∷ [])) h)
  deletion-Made topic =
      let c = admin_delete (topic ∷ []) in
      Triple-bind env (λ _. Unit) (λ _ _. Unit) _ (perform admin_open) _
        (Triple-perform env (λ _. Unit) _ admin_open (λ h p a e. tt))
        (λ _.
          Triple-finally env (λ _. Unit) (λ _ h. Made c h) _ admin_close (attempt-Made c)
            (λ h a m. inr m))

  -- what `teardown` has asked for
  abbrev pub AskedFor : Text → Text → Bool → List Call → Type 0
  AskedFor name table drop_topic h =
      Made (request delete (connector_path name) none 15000) h
      × Made (pg_execute (drop_table table) []) h
      × (drop_topic ≡ true → Made (admin_delete (topic_name table (codes "public") ∷ [])) h)

  drop_source-Made :
      (name : Text) (c : ℕ) (cs : Text) (drop_topic : Bool)
      → Triple env
          (Made (request delete (connector_path name) none 15000))
          (drop_source (some (c ∷ cs)) drop_topic)
          (λ _ h. AskedFor name (c ∷ cs) drop_topic h)
  unfolding drop_source delete_data_topic
  drop_source-Made name c cs drop_topic =
      let d = request delete (connector_path name) none 15000 in
      let t = pg_execute (drop_table (c ∷ cs)) [] in
      let a = admin_delete (topic_name (c ∷ cs) (codes "public") ∷ []) in
      Triple-bind env (Made d) (λ _ h. Made d h × Made t h) _ _ _
        (Triple-and_kept env (Made d) (λ _ h. Made t h) _
          (pg_exec-Keeps env (Made d) (Made-stable d) (drop_table (c ∷ cs)) [] false)
          (pg_exec-Made (drop_table (c ∷ cs)) [] false))
        (λ _.
          Triple-if env (λ h. Made d h × Made t h) (λ _ h. AskedFor name (c ∷ cs) drop_topic h)
            drop_topic _ _
            (λ e.
              Triple-post env (λ h. Made d h × Made t h) (λ _ h. (Made d h × Made t h) × Made a h)
                (λ _ h. AskedFor name (c ∷ cs) drop_topic h) _
                (Triple-and_kept env (λ h. Made d h × Made t h) (λ _ h. Made a h) _
                  (deletion-Keeps env (λ h. Made d h × Made t h) (λ x h p. (inr p.0, inr p.1))
                    (topic_name (c ∷ cs) (codes "public")))
                  (deletion-Made (topic_name (c ∷ cs) (codes "public"))))
                (λ _ h q. (q.0.0, q.0.1, λ yes. q.1)))
            (λ e.
              Triple-pure env (λ h. Made d h × Made t h)
                (λ _ h. AskedFor name (c ∷ cs) drop_topic h) tt (λ h p. (p.0, p.1, λ yes. cc))))

  pub teardown_made :
      (u : Unicode) (name : Text) (c : ℕ) (cs : Text) (slot : Option Text) (drop_topic : Bool)
      → Triple env
          (λ _. Unit)
          (teardown u name (some (c ∷ cs)) slot drop_topic)
          (λ _ h. AskedFor name (c ∷ cs) drop_topic h)
  unfolding teardown
  teardown_made u name c cs slot drop_topic =
      let d = request delete (connector_path name) none 15000 in
      Triple-bind env (λ _. Unit) (λ _ _. Unit) _ _ _
        (Triple-any env (λ _. Unit) (reset_offsets name))
        (λ _.
          Triple-bind env (λ _. Unit) (λ _ h. Made d h) _ _ _ (delete_connector-Made name)
            (λ _.
              Triple-bind env (Made d) (λ _ h. Made d h) _ (perform (sleep 2000)) _
                (Triple-kept env (Made d) _ (call-Keeps env (Made d) (Made-stable d) (sleep 2000)))
                (λ _.
                  Triple-bind env (Made d) (λ _ h. Made d h) _
                    (drop_slot (slot_or_default u name slot) 5 1500) _
                    (Triple-kept env (Made d) _ (
                      drop_slot-Keeps env (Made d) (Made-stable d) (slot_or_default u name slot) 5
                        1500))
                    (λ _. drop_source-Made name c cs drop_topic))))

-- Whatever the services answer, if `teardown` with a table returns, then it has asked Connect to
-- delete the connector, has executed the drop of the table, and, unless told to keep it, has asked
-- Kafka to delete the table's topic.
pub teardown_asks :
    (env : Surroundings Call Answer) (u : Unicode) (name : Text) (c : ℕ) (cs : Text)
    (slot : Option Text) (drop_topic : Bool) (h h' : List Call)
    → teardown u name (some (c ∷ cs)) slot drop_topic env h ≡ (returns tt, h')
    → AskedFor env name (c ∷ cs) drop_topic h'
teardown_asks env u name c cs slot drop_topic h h' e =
    subst
      (λ (r : Outcome (Unit {0}) × List Call).
        Post (λ _ g. AskedFor env name (c ∷ cs) drop_topic g) r.0 r.1)
      e ((teardown_made env u name c cs slot drop_topic).at h tt)
