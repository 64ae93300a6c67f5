-- ===== src/Cdc/Connect/Polling.antt =====
-- The polling loops of common/cdc_helpers.py end, by a clock that `time.sleep` advances.
use spark_dev.Base.{
  ℕ, zero, suc, ◌+◌, ◌-◌, ◌*◌, ◌/◌, ◌≤◌, ◌<◌, ◌≡◌, ◌≢◌, refl, ap, ◌∙◌, true, false, Option, none,
  some, List, ◌∷◌, ltb, ltb→lt, arith, ◌==◌,
}
use spark_dev.Base.Text.{Text, codes}
use spark_dev.Base.Json.{Json, text}
use spark_dev.Base.Dict.{Dict}
use spark_dev.Base.Effect.{Outcome, returns, raises, Surroundings, perform, pure, ◌>>◌}
use spark_dev.Base.Keeps.{Keeps, Keeps-perform, Keeps-pure, Keeps-raise, Keeps-bind, Keeps-catch}
use spark_dev.Base.Triple.{
  Post, Triple, Triple-pure, Triple-raise, Triple-perform, Triple-bind, Triple-if, Triple-weaken,
  Triple-assume, Triple-kept, Triple-assume,
}
use spark_dev.Cdc.Calls.{
  Method, get, Call, request, sleep, now, Answer, done, instant, rows, response, http_error, Cdc,
}
use spark_dev.Cdc.Connect.{
  reply_of, req, connector_status, lift, read_status, verdict, time, instant_of, wait_loop, rounds,
  wait_for_connector, up_loop, connect_up,
}

-- The documented behaviour of the clock: it does not go back, a sleep lasts its time, and
-- `time.time()` reads it.
pub record Ticks (env : Surroundings Call Answer) : Type 0 where
  pub clock : List Call → ℕ
  pub onward : (c : Call) (h : List Call) → clock h ≤ clock (c ∷ h)
  pub sleeps : (d : ℕ) (h : List Call) → clock h + d ≤ clock (sleep d ∷ h)
  pub reads : (h : List Call) (t : ℕ) → env (now ∷ h) ≡ some (instant t) → clock (now ∷ h) ≡ t

rounds-suc : (timeout poll : ℕ) → rounds timeout poll ≡ suc (timeout / poll + 1)
rounds-suc timeout poll = omega arith

enough_rounds : (timeout poll : ℕ) → 0 < poll → timeout ≤ (timeout / poll + 1) * poll
enough_rounds timeout poll h = omega arith

Post-ne_none :
    {A : Type 0} (r : Outcome (Option A)) (h : List Call)
    → Post (λ (o : Option A) _. o ≢ none) r h
    → r ≢ returns none
Post-ne_none (returns o) h p e = p (cc)
Post-ne_none raises h p e = cc

module _ (env : Surroundings Call Answer) (ticks : Ticks env) where
  abbrev Since : ℕ → List Call → Type 0
  Since x h = x ≤ ticks.clock h

  perform-Since : (x : ℕ) (c : Call) → Keeps env (Since x) (perform c)
  perform-Since x c = Keeps-perform env (Since x) c (λ h p. omega (arith, ticks.onward c h))

  reply_of-Since : (x : ℕ) (a : Answer) → Keeps env (Since x) (reply_of a)
  unfolding reply_of
  reply_of-Since x (response s b) = Keeps-pure env (Since x) _
  reply_of-Since x (http_error c t) = Keeps-pure env (Since x) _
  reply_of-Since x done = Keeps-raise env (Since x)
  reply_of-Since x (instant t) = Keeps-raise env (Since x)
  reply_of-Since x (rows rs) = Keeps-raise env (Since x)

  req-Since :
      (x : ℕ) (m : Method) (path : Text) (body : Option (Dict Text)) (timeout : ℕ)
      → Keeps env (Since x) (req m path body timeout)
  unfolding req
  req-Since x m path body timeout =
      Keeps-bind env (Since x) _ _ (perform-Since x (request m path body timeout))
        (reply_of-Since x)

  connector_status-Since : (x : ℕ) (name : Text) → Keeps env (Since x) (connector_status name)
  unfolding connector_status
  connector_status-Since x name =
      Keeps-bind env (Since x) _ _ (req-Since x get _ none 15000) (λ r. Keeps-pure env (Since x) _)

  -- the instant read is the clock's
  time_ensures : (x : ℕ) → Triple env (Since x) time (λ t h. (ticks.clock h ≡ t) × (x ≤ t))
  unfolding time
  time_ensures x =
      Triple-bind env (Since x)
        (λ a h.
          (h' : List Call) × (h ≡ now ∷ h') × (env (now ∷ h') ≡ some a) × (x ≤ ticks.clock h'))
        _ (perform now) instant_of (Triple-perform env (Since x) _ now (λ h p a e. (h, refl, e, p)))
        read
    where
      read :
          (a : Answer)
          → Triple env
              (λ h.
                (h' : List Call) × (h ≡ now ∷ h')
                × (env (now ∷ h') ≡ some a)
                × (x ≤ ticks.clock h'))
              (instant_of a)
              (λ t h. (ticks.clock h ≡ t) × (x ≤ t))
      read (instant t) = Triple-pure env _ _ t (λ h (h', e, q, p).
          let r = ticks.reads h' t q in
          (ap ticks.clock e ∙ r, omega (arith, r, ticks.onward now h', p)))
      read done = Triple-raise env _ _
      read (rows rs) = Triple-raise env _ _
      read (response s b) = Triple-raise env _ _
      read (http_error c t) = Triple-raise env _ _

  -- the state after a round, `verdict` already read
  after_round :
      (x : ℕ) (poll : ℕ) (loop : Cdc (Option Json)) (v : Option Text)
      → Triple env (Since (x + poll)) loop (λ r _. r ≢ none)
      → Triple env
          (Since x)
          (elim v [ some r ↦ pure (some (text r)) | none ↦ perform (sleep poll) >> loop ])
          (λ r _. r ≢ none)
  after_round x poll loop (some r) k = Triple-pure env (Since x) _ (some (text r)) (λ h p. cc)
  after_round x poll loop none k =
      Triple-bind env (Since x) (λ _. Since (x + poll)) _ (perform (sleep poll)) (λ _. loop)
        (Triple-perform env (Since x) _ (sleep poll)
          (λ h p a e. omega (arith, ticks.sleeps poll h)))
        (λ _. k)

  lift-Since : {A : Type 0} (x : ℕ) (r : Outcome A) → Triple env (Since x) (lift r) (λ _. Since x)
  lift-Since x (returns a) = record { at = λ h p. p }
  lift-Since x raises = record { at = λ h p. tt }

  -- one round of the loop, given that the rest of the loop returns a state
  round_ensures :
      (x : ℕ) (name : Text) (deadline poll fuel : ℕ) (state : Json)
      → (x < deadline
          → (s : Json)
          → Triple env (Since (x + poll)) (wait_loop fuel name deadline poll s) (λ r _. r ≢ none))
      → Triple env (Since x) (wait_loop (suc fuel) name deadline poll state) (λ r _. r ≢ none)
  unfolding wait_loop
  round_ensures x name deadline poll fuel state k =
      Triple-bind env (Since x) (λ t h. (ticks.clock h ≡ t) × (x ≤ t)) _ time _ (time_ensures x)
        (λ t.
          Triple-if env _ _ (ltb t deadline) _ _
            (λ early. Triple-assume env _ _ _ (λ h p.
              Triple-weaken env (Since x) _ _ _
                (Triple-bind env (Since x) (λ _. Since x) _ (connector_status name) _
                  (Triple-kept env (Since x) _ (connector_status-Since x name))
                  (λ st.
                    Triple-bind env (Since x) (λ _. Since x) _ (lift (read_status st)) _
                      (lift-Since x (read_status st))
                      (λ s.
                        after_round x poll _ (verdict s)
                          (k (omega (arith, ltb→lt t deadline early, p.1)) s.state))))
                (λ h' q. omega arith)))
            (λ late. Triple-pure env _ _ (some state) (λ h p. cc)))

  wait_loop_ends :
      (fuel : ℕ) (name : Text) (deadline poll : ℕ) (state : Json)
      → Triple env
          (Since (deadline - fuel * poll))
          (wait_loop (suc fuel) name deadline poll state)
          (λ r _. r ≢ none)
  wait_loop_ends zero name deadline poll state =
      round_ensures (deadline - zero * poll) name deadline poll zero state
        (λ h. absurd (omega arith))
  wait_loop_ends (suc fuel) name deadline poll state =
      round_ensures (deadline - suc fuel * poll) name deadline poll (suc fuel) state (λ h s.
        Triple-weaken env _ _ _ _ (wait_loop_ends fuel name deadline poll s) (λ h p. omega arith))

  start_ends :
      (name : Text) (timeout poll : ℕ)
      → 0 < poll
      → Triple env (λ _. Unit) (wait_for_connector name timeout poll) (λ r _. r ≢ none)
  unfolding wait_for_connector
  start_ends name timeout poll h =
      Triple-bind env (λ _. Unit) (λ t h. (ticks.clock h ≡ t) × (0 ≤ t)) _ time _
        (Triple-weaken env (Since 0) _ _ _ (time_ensures 0) (λ h p. omega arith))
        (λ t. rw (rounds-suc timeout poll) (
          Triple-weaken env _ _ _ _
            (wait_loop_ends (timeout / poll + 1) name (t + timeout) poll (text (codes "UNKNOWN")))
            (λ h' p. omega (arith, p.0, enough_rounds timeout poll h))))

  wait_for_connector_ends :
      (name : Text) (timeout poll : ℕ) (h : List Call)
      → 0 < poll
      → (wait_for_connector name timeout poll env h).0 ≢ returns none
  wait_for_connector_ends name timeout poll h p =
      Post-ne_none _ _ ((start_ends name timeout poll p).at h tt)

  up_round :
      (x deadline fuel : ℕ)
      → (x < deadline → Triple env (Since (x + 2000)) (up_loop fuel deadline) (λ r _. r ≢ none))
      → Triple env (Since x) (up_loop (suc fuel) deadline) (λ r _. r ≢ none)
  unfolding up_loop
  up_round x deadline fuel k =
      Triple-bind env (Since x) (λ t h. (ticks.clock h ≡ t) × (x ≤ t)) _ time _ (time_ensures x)
        (λ t.
          Triple-if env _ _ (ltb t deadline) _ _
            (λ early. Triple-assume env _ _ _ (λ h p.
              Triple-weaken env (Since x) _ _ _
                (Triple-bind env (Since x) (λ _. Since x) _ _ _
                  (Triple-kept env (Since x) _ (
                    Keeps-catch env (Since x) _ _
                      (Keeps-bind env (Since x) _ _ (req-Since x get (codes "/") none 5000)
                        (λ r. Keeps-pure env (Since x) (r.0 == 200)))
                      (Keeps-pure env (Since x) false)))
                  (λ up.
                    Triple-if env (Since x) _ up _ _
                      (λ e. Triple-pure env (Since x) _ (some true) (λ h p. cc))
                      (λ e.
                        Triple-bind env (Since x) (λ _. Since (x + 2000)) _ (perform (sleep 2000)) _
                          (Triple-perform env (Since x) _ (sleep 2000)
                            (λ h p a e. omega (arith, ticks.sleeps 2000 h)))
                          (λ _. k (omega (arith, ltb→lt t deadline early, p.1))))))
                (λ h' q. omega arith)))
            (λ late. Triple-pure env _ _ (some false) (λ h p. cc)))

  up_loop_ends :
      (fuel deadline : ℕ)
      → Triple env (Since (deadline - fuel * 2000)) (up_loop (suc fuel) deadline) (λ r _. r ≢ none)
  up_loop_ends zero deadline =
      up_round (deadline - zero * 2000) deadline zero (λ h. absurd (omega arith))
  up_loop_ends (suc fuel) deadline =
      up_round (deadline - suc fuel * 2000) deadline (suc fuel)
        (λ h. Triple-weaken env _ _ _ _ (up_loop_ends fuel deadline) (λ h p. omega arith))

  connect_up_ends : (timeout : ℕ) (h : List Call) → (connect_up timeout env h).0 ≢ returns none
  unfolding connect_up
  connect_up_ends timeout h = Post-ne_none _ _ (
      (Triple-bind env (λ _. Unit) (λ t h. (ticks.clock h ≡ t) × (0 ≤ t)) _ time _
          (Triple-weaken env (Since 0) _ _ _ (time_ensures 0) (λ h p. omega arith))
          (λ t. rw (rounds-suc timeout 2000) (
            Triple-weaken env _ _ _ _ (up_loop_ends (timeout / 2000 + 1) (t + timeout))
              (λ h' p. omega (arith, p.0))))).at
        h tt)

-- With a clock that behaves as documented and a positive poll interval, the fuel of the polling
-- loops is enough: `wait_for_connector` and `connect_up` give a result or raise.
pub polling_ends :
    (env : Surroundings Call Answer)
    → Ticks env
    → (name : Text) (timeout poll : ℕ) (h : List Call) → 0 < poll
    → ((wait_for_connector name timeout poll env h).0 ≢ returns none)
      × ((connect_up timeout env h).0 ≢ returns none)
polling_ends env ticks name timeout poll h p =
    (wait_for_connector_ends env ticks name timeout poll h p, connect_up_ends env ticks timeout h)
