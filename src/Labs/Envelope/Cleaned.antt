-- ===== src/Labs/Envelope/Cleaned.antt =====
-- What the first and the last cell of cdc4_event_envelope.ipynb ask the services for.
use spark_dev.Base.{◌≡◌, inr, true, some, none, List, [], ◌∷◌}
use mathlib.Core.Path.{subst}
use spark_dev.Base.Effect.{Outcome, returns, Surroundings, perform}
use spark_dev.Base.Triple.{Post, Triple, Triple-bind, Triple-kept, Triple-and_kept, Triple-post}
use spark_dev.Cdc.Calls.{delete, Call, request, sleep, admin_delete, Answer}
use spark_dev.Cdc.Slot.{Unicode, safe_slot}
use spark_dev.Cdc.Connect.{connector_path, delete_connector}
use spark_dev.Cdc.Postgres.{drop_slot}
use spark_dev.Cdc.Teardown.{teardown}
use spark_dev.Cdc.Teardown.Kept.{
  call-Keeps, drop_slot-Keeps, delete_connector-Keeps, deletion-Keeps,
}
use spark_dev.Cdc.Teardown.Order.{
  Made, AskedFor, delete_connector-Made, deletion-Made, teardown_made,
}
use spark_dev.Labs.Envelope.{
  table, env_conn, unwrap_conn, unwrap_topic, drop_unwrap_topic, clean_slate,
}

module _ (env : Surroundings Call Answer) (u : Unicode) where
  abbrev First : List Call → Type 0
  First h = AskedFor env env_conn table true h

  -- what the cell has asked for: the first connector, its table and topic, the second connector and
  -- its topic
  abbrev pub Cleaned : List Call → Type 0
  Cleaned h =
      AskedFor env env_conn table true h
      × Made (request delete (connector_path unwrap_conn) none 15000) h
      × Made (admin_delete (unwrap_topic ∷ [])) h

  abbrev Both : List Call → Type 0
  Both h = First h × Made (request delete (connector_path unwrap_conn) none 15000) h

  First-stable : (c : Call) (h : List Call) → First h → First (c ∷ h)
  First-stable c h (d, t, a) = (inr d, inr t, λ e. inr (a e))

  Both-stable : (c : Call) (h : List Call) → Both h → Both (c ∷ h)
  Both-stable c h (f, m) = (First-stable c h f, inr m)

  clean_slate_ensures : Triple env (λ _. Unit) (clean_slate u) (λ _ h. Cleaned h)
  unfolding clean_slate drop_unwrap_topic
  clean_slate_ensures =
      Triple-bind env (λ _. Unit) (λ _ h. First h) _ (teardown u env_conn (some table) none true) _
        (teardown_made env u env_conn _ _ none true)
        (λ _.
          Triple-bind env First (λ _ h. Both h) _ (delete_connector unwrap_conn) _
            (Triple-and_kept env First _ _
              (delete_connector-Keeps env First First-stable unwrap_conn)
              (delete_connector-Made env unwrap_conn))
            (λ _.
              Triple-bind env Both (λ _ h. Both h) _ (perform (sleep 2000)) _
                (Triple-kept env Both _ (call-Keeps env Both Both-stable (sleep 2000)))
                (λ _.
                  Triple-bind env Both (λ _ h. Both h) _
                    (drop_slot (safe_slot u unwrap_conn) 5 1500) _
                    (Triple-kept env Both _
                      (drop_slot-Keeps env Both Both-stable (safe_slot u unwrap_conn) 5 1500))
                    (λ _.
                      Triple-post env Both
                        (λ _ h. Both h × Made (admin_delete (unwrap_topic ∷ [])) h) _ _
                        (Triple-and_kept env Both _ _
                          (deletion-Keeps env Both Both-stable unwrap_topic)
                          (deletion-Made env unwrap_topic))
                        (λ _ h q. (q.0.0, q.0.1, q.1))))))

-- Whatever the services answer, if the first cell returns from its calls, it has asked for the
-- deletion of both connectors and of both topics, and for the drop of the table.
pub clean_slate_asks :
    (env : Surroundings Call Answer) (u : Unicode) (h h' : List Call)
    → clean_slate u env h ≡ (returns tt, h')
    → Cleaned env u h'
clean_slate_asks env u h h' e =
    subst (λ (r : Outcome (Unit {0}) × List Call). Post (λ _ g. Cleaned env u g) r.0 r.1) e
      ((clean_slate_ensures env u).at h tt)
