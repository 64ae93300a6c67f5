-- ===== src/Kafka/Attempts.antt =====
-- What `ensure_topic` and `produce_events` of common/kafka_helpers.py have asked of Kafka.
use spark_dev.Base.{
  ℕ, zero, suc, ◌+◌, ◌≡◌, refl, ap, ◌∙◌, Bool, true, false, Option, some, List, ◌∷◌, if◌then◌else◌,
}
use native.Mathlib.Omega.{arith}
use mathlib.Core.Path.{subst}
use spark_dev.Base.Text.{Text}
use spark_dev.Base.Json.{Json}
use spark_dev.Base.Dict.{Dict}
use spark_dev.Base.Effect.{Outcome, returns, Surroundings, perform, pure, ◌>>◌}
use spark_dev.Base.Soft.{
  Soft, Soft-pure, Soft-perform, Soft-bind, Soft-catch, Soft-finally, Soft-if,
}
use spark_dev.Base.Triple.{Post, Triple, Triple-pure, Triple-perform, Triple-bind, Triple-post}
use spark_dev.Kafka.Calls.{
  NewTopic, Call, admin_open, admin_close, sleep, send, producer_open, producer_flush,
  producer_close, Answer,
}
use spark_dev.Kafka.Topics.{
  delete_first, try_create, create_loop, ensure_topic, key_at, value_at, send_loop, produce_events,
}

-- Opening and closing the client and sleeping do not fail; every other call may.
pub record Serves (env : Surroundings Call Answer) : Type 0 where
  pub opens : (h : List Call) → (a : Answer) × (env (admin_open ∷ h) ≡ some a)
  pub closes : (h : List Call) → (a : Answer) × (env (admin_close ∷ h) ≡ some a)
  pub sleeps : (d : ℕ) (h : List Call) → (a : Answer) × (env (sleep d ∷ h) ≡ some a)

module _ (env : Surroundings Call Answer) (serves : Serves env) where
  create_loop-Soft : (t : NewTopic) (n : ℕ) → Soft env (create_loop t n)
  unfolding create_loop try_create
  create_loop-Soft t zero = Soft-pure env tt
  create_loop-Soft t (suc n) =
      let again = create_loop-Soft t n in
      Soft-bind env (try_create t) _ (Soft-catch env _ _ (Soft-pure env false)) (λ b.
        Soft-if env b _ _ (Soft-pure env tt) (
          Soft-bind env (perform (sleep 1000)) _ (Soft-perform env _ (serves.sleeps 1000))
            (λ _. again)))

  ensure_topic-Soft :
      (topic : Text) (n : ℕ) (configs : Option (Dict Text)) (recreate : Bool)
      → Soft env (ensure_topic topic n configs recreate)
  unfolding ensure_topic delete_first
  ensure_topic-Soft topic n configs recreate =
      Soft-bind env (perform admin_open) _ (Soft-perform env _ serves.opens) (λ _.
        Soft-finally env _ admin_close serves.closes (
          Soft-bind env _ _
            (Soft-if env recreate _ _ (Soft-catch env _ _ (Soft-pure env tt)) (Soft-pure env tt))
            (λ _. create_loop-Soft _ 5)))

-- When the client opens and closes and time.sleep returns, `ensure_topic` returns, whatever Kafka
-- answers to the deletion and to the five creations, an exception each time included.
pub ensure_topic_soft :
    (env : Surroundings Call Answer)
    → Serves env
    → (topic : Text) (n : ℕ) (configs : Option (Dict Text)) (recreate : Bool) (h : List Call)
    → (ensure_topic topic n configs recreate env h).0 ≡ returns tt
ensure_topic_soft env serves topic n configs recreate h =
    ((ensure_topic-Soft env serves topic n configs recreate).at h).1

module _ (topic : Text) (value_fn : Option (ℕ → Json)) (key_fn : Option (ℕ → Option Json)) where
  abbrev pub event_at : ℕ → Call
  event_at i = send topic (key_at key_fn i) (value_at value_fn i)

  -- the events 0 to n - 1 after a history, the last one newest
  abbrev pub events_after : List Call → ℕ → List Call
  events_after h zero = h
  events_after h (suc n) = event_at n ∷ events_after h n

  events_after_ap : (h : List Call) (i j : ℕ) → i ≡ j → events_after h i ≡ events_after h j
  events_after_ap h i j e = ap (events_after h) e

  send_loop_sends :
      (env : Surroundings Call Answer) (h : List Call) (i n : ℕ)
      → Triple env
          (λ g. g ≡ events_after h i)
          (send_loop topic value_fn key_fn i n)
          (λ _ g. g ≡ events_after h (i + n))
  unfolding send_loop
  send_loop_sends env h i zero =
      Triple-pure env _ _ tt (λ g p. p ∙ events_after_ap h i (i + 0) (omega arith))
  send_loop_sends env h i (suc n) =
      let more = send_loop_sends env h (i + 1) n in
      Triple-bind env (λ g. g ≡ events_after h i) (λ _ g. g ≡ events_after h (i + 1)) _
        (perform (event_at i)) _
        (Triple-perform env _ _ (event_at i)
          (λ g p a e. ap (λ l. event_at i ∷ l) p ∙ events_after_ap h (suc i) (i + 1) (omega arith)))
        (λ _.
          Triple-post env _ _ _ _ more
            (λ _ g q. q ∙ events_after_ap h (i + 1 + n) (i + suc n) (omega arith)))

abbrev pub flushed : Bool → List Call → List Call
flushed true h = producer_flush ∷ h
flushed false h = h

flush_sent :
    (env : Surroundings Call Answer) (all : List Call) (flush : Bool)
    → Triple env
        (λ g. g ≡ all)
        (if flush then (do perform producer_flush; pure tt) else pure tt)
        (λ (_ : Unit {0}) g. g ≡ flushed flush all)
flush_sent env all true =
    Triple-bind env _ (λ _ g. g ≡ producer_flush ∷ all) _ (perform producer_flush) _
      (Triple-perform env _ _ producer_flush (λ g p a e. ap (λ l. producer_flush ∷ l) p))
      (λ _. Triple-pure env _ _ tt (λ g p. p))
flush_sent env all false = Triple-pure env _ _ tt (λ g p. p)

-- If `produce_events` returns, it returns n, and it has opened a producer, sent the events 0 to n - 1
-- in order, each once with its own key and value, flushed if told to, and closed the producer.
pub produce_events_lem :
    (env : Surroundings Call Answer) (topic : Text) (n : ℕ) (value_fn : Option (ℕ → Json))
    (key_fn : Option (ℕ → Option Json)) (flush : Bool) (h : List Call) (m : ℕ) (h' : List Call)
    → produce_events topic n value_fn key_fn flush env h ≡ (returns m, h')
    → (m ≡ n)
      × (h'
          ≡ producer_close
            ∷ flushed flush (events_after topic value_fn key_fn (producer_open ∷ h) n))
unfolding produce_events
produce_events_lem env topic n value_fn key_fn flush h m h' e =
    subst (λ (r : Outcome ℕ × List Call). Post sent r.0 r.1) e ((sends env).at h refl)
  where
    sent : ℕ → List Call → Type 0
    sent k g =
        (k ≡ n)
        × (g
            ≡ producer_close
              ∷ flushed flush (events_after topic value_fn key_fn (producer_open ∷ h) n))

    sends :
        (env : Surroundings Call Answer)
        → Triple env (λ g. g ≡ h) (produce_events topic n value_fn key_fn flush) sent
    sends env =
        let all = events_after topic value_fn key_fn (producer_open ∷ h) n in
        Triple-bind env _ (λ _ g. g ≡ producer_open ∷ h) _ (perform producer_open) _
          (Triple-perform env _ _ producer_open (λ g p a e. ap (λ l. producer_open ∷ l) p))
          (λ _.
            Triple-bind env _ (λ _ g. g ≡ all) _ _ _
              (Triple-post env _ _ _ _
                (send_loop_sends topic value_fn key_fn env (producer_open ∷ h) 0 n)
                (λ _ g q.
                  q
                  ∙ events_after_ap topic value_fn key_fn (producer_open ∷ h) (0 + n) n
                      (omega arith)))
              (λ _.
                Triple-bind env _ (λ _ g. g ≡ flushed flush all) _ _ _ (flush_sent env all flush)
                  (λ _.
                    Triple-bind env _ (λ _ g. g ≡ producer_close ∷ flushed flush all) _
                      (perform producer_close) _
                      (Triple-perform env _ _ producer_close
                        (λ g p a e. ap (λ l. producer_close ∷ l) p))
                      (λ _. Triple-pure env _ _ n (λ g p. (refl, p))))))
