-- ===== src/Cdc/Connect.antt =====
-- The Kafka Connect functions of common/cdc_helpers.py. Durations are in milliseconds.
pub mod Polling
use spark_dev.Base.{
  ℕ, zero, suc, ◌+◌, ◌/◌, Bool, true, false, ◌&&◌, ◌||◌, Option, none, some, List, [], ◌∷◌, ◌++◌,
  ◌==◌, ltb, if◌then◌else◌, any, all, take,
}
use spark_dev.Base.Text.{Text, codes, text_eq}
use spark_dev.Base.Dict.{Dict}
use spark_dev.Base.Json.{
  Json, null, boolean, number, text, array, object, no_items, item, no_fields, field, get_field,
  items,
}
use spark_dev.Base.Effect.{Outcome, returns, raises, perform, pure, raise, catch, ◌>>=◌, ◌>>◌}
use spark_dev.Cdc.Calls.{
  Method, get, put, delete, Call, request, sleep, now, Answer, done, instant, rows, response,
  http_error, Cdc,
}

-- the `except HTTPError` of `_req`; an answer of another kind does not come
unfoldable pub reply_of : Answer → Cdc (ℕ × Option Json)
reply_of (response status body) = pure (status, body)
reply_of (http_error c t) =
    pure (c, some (object (field (codes "error") (text (take 400 t)) no_fields)))
reply_of done = raise
reply_of (instant t) = raise
reply_of (rows rs) = raise

-- `_req`
unfoldable pub req : Method → Text → Option (Dict Text) → ℕ → Cdc (ℕ × Option Json)
unfolding reply_of
req method path body timeout = do a ← perform (request method path body timeout); reply_of a

abbrev pub connector_path : Text → Text
connector_path name = codes "/connectors/" ++ name

unfoldable pub register_connector : Text → Dict Text → Cdc (ℕ × Option Json)
unfolding req
register_connector name config =
    req put (connector_path name ++ codes "/config") (some config) 15000

unfoldable pub delete_connector : Text → Cdc ℕ
unfolding req
delete_connector name = do r ← req delete (connector_path name) none 15000; pure r.0

-- `body or {}`
unfoldable pub or_empty_object : Option Json → Json
or_empty_object none = object no_fields
or_empty_object (some null) = object no_fields
or_empty_object (some (boolean false)) = object no_fields
or_empty_object (some (boolean true)) = boolean true
or_empty_object (some (number zero)) = object no_fields
or_empty_object (some (number (suc n))) = number (suc n)
or_empty_object (some (text [])) = object no_fields
or_empty_object (some (text (c ∷ t))) = text (c ∷ t)
or_empty_object (some (array no_items)) = object no_fields
or_empty_object (some (array (item x xs))) = array (item x xs)
or_empty_object (some (object fs)) = object fs

unfoldable pub connector_status : Text → Cdc Json
unfolding req or_empty_object
connector_status name = do
  r ← req get (connector_path name ++ codes "/status") none 15000
  pure (or_empty_object r.1)

abbrev or_default : Option Json → Json → Json
or_default none d = d
or_default (some v) d = v

-- `v.get(key, default)`: only a dict has it
unfoldable pub json_get : Text → Json → Json → Outcome Json
json_get key fallback (object fs) = returns (or_default (get_field key fs) fallback)
json_get key fallback null = raises
json_get key fallback (boolean b) = raises
json_get key fallback (number n) = raises
json_get key fallback (text t) = raises
json_get key fallback (array xs) = raises

abbrev pub lift : {A : Type 0} → Outcome A → Cdc A
lift r env h = (r, h)

abbrev pub is_text : Text → Json → Bool
is_text t (text s) = text_eq s t
is_text t null = false
is_text t (boolean b) = false
is_text t (number n) = false
is_text t (array xs) = false
is_text t (object fs) = false

abbrev pub running : Text
running = codes "RUNNING"

abbrev pub failed : Text
failed = codes "FAILED"

-- the loop of `reset_offsets`, which stops early at STOPPED
unfoldable pub await_stopped : Text → ℕ → Cdc (Unit {0})
unfolding connector_status json_get
await_stopped name zero = pure tt
await_stopped name (suc n) = do
  status ← connector_status name
  connector ← lift (json_get (codes "connector") (object no_fields) status)
  st ← lift (json_get (codes "state") null connector)
  if is_text (codes "STOPPED") st then pure tt else do perform (sleep 1000); await_stopped name n

unfoldable pub reset_offsets : Text → Cdc Bool
unfolding req await_stopped
reset_offsets name = do
  found ← req get (connector_path name) none 15000
  if found.0 == 200
      then (do
        req put (connector_path name ++ codes "/stop") none 15000
        await_stopped name 10
        r ← req delete (connector_path name ++ codes "/offsets") none 15000
        pure (r.0 == 200 || r.0 == 204))
      else pure false

-- what one poll of `wait_for_connector` reads: the connector's state and the states of its tasks
pub record Status : Type 0 where
  pub state : Json
  pub tasks : List Json

-- `t.get("state")` for each task, put into a set: a list or a dict there is unhashable
unfoldable pub task_state : Json → Outcome Json
unfolding json_get
task_state t = json_get (codes "state") null t

abbrev and_then : {A B : Type 0} → Outcome A → (A → Outcome B) → Outcome B
and_then (returns a) f = f a
and_then raises f = raises

unfoldable pub hashable : Json → Outcome Json
hashable null = returns null
hashable (boolean b) = returns (boolean b)
hashable (number n) = returns (number n)
hashable (text t) = returns (text t)
hashable (array xs) = raises
hashable (object fs) = raises

unfoldable pub task_states : List Json → Outcome (List Json)
unfolding task_state hashable
task_states [] = returns []
task_states (t ∷ ts) =
    let rest = task_states ts in
    and_then (task_state t)
      (λ s. and_then (hashable s) (λ s. and_then rest (λ ss. returns (s ∷ ss))))

-- iteration over a value of `tasks`; only an array has members that are dicts
unfoldable pub task_list : Json → Outcome (List Json)
task_list (array xs) = returns (items xs)
task_list (object no_fields) = returns []
task_list (object (field k v fs)) = raises
task_list (text []) = returns []
task_list (text (c ∷ t)) = raises
task_list null = raises
task_list (boolean b) = raises
task_list (number n) = raises

unfoldable pub read_status : Json → Outcome Status
unfolding json_get task_states task_list
read_status st = and_then (json_get (codes "connector") (object no_fields) st) (λ connector.
    and_then (json_get (codes "state") (text (codes "UNKNOWN")) connector) (λ state.
      and_then (json_get (codes "tasks") (array no_items) st) (λ tasks.
        and_then (task_list tasks) (λ ts.
          and_then (task_states ts) (λ ss. returns (record { state = state; tasks = ss }))))))

abbrev pub is_nonempty : List Json → Bool
is_nonempty [] = false
is_nonempty (x ∷ xs) = true

-- the two tests of the loop: a result, or another round
unfoldable pub verdict : Status → Option Text
verdict s =
    if is_text running s.state && (is_nonempty s.tasks && all (is_text running) s.tasks)
    then some running
    else if is_text failed s.state || any (is_text failed) s.tasks
    then some failed
    else none

abbrev pub instant_of : Answer → Cdc ℕ
instant_of (instant t) = pure t
instant_of done = raise
instant_of (rows rs) = raise
instant_of (response s b) = raise
instant_of (http_error c t) = raise

-- `time.time()`
unfoldable pub time : Cdc ℕ
time = do a ← perform now; instant_of a

-- The loop of `wait_for_connector`, with fuel; `none` means that the fuel ran out.
unfoldable pub wait_loop : ℕ → Text → ℕ → ℕ → Json → Cdc (Option Json)
unfolding time connector_status read_status verdict
wait_loop zero name deadline poll state = pure none
wait_loop (suc fuel) name deadline poll state = do
  t ← time
  if ltb t deadline
      then (do
        st ← connector_status name
        s ← lift (read_status st)
        elim (verdict s) [
          | some r ↦ pure (some (text r))
          | none ↦ do perform (sleep poll); wait_loop fuel name deadline poll s.state
        ])
      else pure (some state)

-- enough rounds for a clock that each sleep advances
abbrev pub rounds : ℕ → ℕ → ℕ
rounds timeout poll = timeout / poll + 2

unfoldable pub wait_for_connector : Text → ℕ → ℕ → Cdc (Option Json)
unfolding wait_loop
wait_for_connector name timeout poll = do
  t ← time
  wait_loop (rounds timeout poll) name (t + timeout) poll (text (codes "UNKNOWN"))

-- The loop of `connect_up`, with fuel.
unfoldable pub up_loop : ℕ → ℕ → Cdc (Option Bool)
unfolding time req
up_loop zero deadline = pure none
up_loop (suc fuel) deadline = do
  t ← time
  if ltb t deadline
      then (do
        up ← catch (do r ← req get (codes "/") none 5000; pure (r.0 == 200)) (pure false)
        if up then pure (some true) else (do perform (sleep 2000); up_loop fuel deadline))
      else pure (some false)

unfoldable pub connect_up : ℕ → Cdc (Option Bool)
unfolding up_loop
connect_up timeout = do t ← time; up_loop (rounds timeout 2000) (t + timeout)
