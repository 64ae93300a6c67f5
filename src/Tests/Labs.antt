-- ===== src/Tests/Labs.antt =====
-- The notebooks and the capstone's mart and gate.
use spark_dev.Base.{
  range_from, ◌-◌, length, ℕ, ◌+◌, ◌<◌, ◌≡◌, refl, inl, inr, true, false, Bool, ◌&&◌, Option, none,
  some, List, [], ◌∷◌, ◌++◌, map, filter, length, In, if◌then◌else◌, leb, arith,
}
use spark_dev.Base.Text.{Text}
use spark_dev.Labs.PoisonPill.{
  Message, Parsed, main_count, dlq_count, detected_poison, detected_good, poison_flag,
}
use spark_dev.Labs.PoisonPill.Routing.{is_blank, dlq_reconciles}
use spark_dev.Labs.Checkpoints.{
  Engine, IsAvailableNow, start_offset, drop, Row, World, Action, produce, run_stream, stream_query,
  act_all,
}
use spark_dev.Labs.Checkpoints.Once.{sink_exactly_once}
use spark_dev.Labs.Delivery.{
  Isolation, read_uncommitted, consume_id_counts, deduped_revenue, naive_revenue,
}
use spark_dev.Labs.Delivery.Replays.{replays_harmless}
use spark_dev.Labs.ConsumerLag.{Consumer, IsConsumer, start_of, consume_n, consume_all, lag}
use spark_dev.Labs.ConsumerLag.Crashes.{drained_at_least_once}

-- a schema that reads one text only
abbrev from_json : Text → Option Parsed
from_json [] = none
from_json (c ∷ t) =
    if leb c 100 then some record { id = some c; amount = none; status = none } else none

abbrev message : Option Text → ℕ → Message
message value offset = record {
  value = value;
  topic = "kaf6_orders";
  partition = 0;
  offset = offset;
  timestamp = 0;
}

-- a good event, an unreadable one, a null and an empty one
abbrev messages : List Message
messages =
    message (some (7 ∷ [])) 0
    ∷ message (some (200 ∷ [])) 1
    ∷ message none 2
    ∷ message (some []) 3
    ∷ []

dlq_reconciles_example :
    (main_count from_json messages + dlq_count from_json messages ≡ 4)
    × (detected_poison from_json messages + detected_good from_json messages ≡ 4)
    × (dlq_count from_json messages
        ≡ detected_poison from_json messages
          + length (filter (λ m. is_blank m && poison_flag from_json m) messages))
dlq_reconciles_example = dlq_reconciles from_json messages

abbrev parse : ℕ → Row
parse n = record { id = some n; v = some n }

abbrev fresh : World ℕ
fresh = record { topic = []; checkpoints = λ _. none; tables = λ _. [] }

-- three productions, two runs, and a run with another checkpoint into a scratch table
abbrev actions : List (Action ℕ)
actions =
    produce (0 ∷ 1 ∷ [])
    ∷ run_stream "ckpt" "sink"
    ∷ produce (2 ∷ [])
    ∷ run_stream "bad" "scratch"
    ∷ run_stream "ckpt" "sink"
    ∷ produce (3 ∷ [])
    ∷ []

abbrev engine : Engine ℕ
engine = record {
  reads = λ offset topic. drop (start_offset offset) topic;
  leaves = λ offset topic. length topic;
}

engine-IsAvailableNow : IsAvailableNow engine
engine-IsAvailableNow = record {
  reads_rest = λ offset topic. refl;
  leaves_end = λ offset topic. refl;
}

sink_exactly_once_example :
    (stream_query engine parse "ckpt" "sink" (act_all engine parse actions fresh)).tables "sink"
    ≡ map parse (act_all engine parse actions fresh).topic
sink_exactly_once_example =
    sink_exactly_once engine engine-IsAvailableNow parse "ckpt" "sink" actions fresh
      (tt, (refl, (tt, (refl, (refl, (tt, tt)))))) refl refl

abbrev records : Isolation → List ℕ
records level = 0 ∷ 1 ∷ 2 ∷ 0 ∷ 1 ∷ []

replays_harmless_example :
    (deduped_revenue (consume_id_counts records read_uncommitted)
      ≡ deduped_revenue (consume_id_counts (λ _. 0 ∷ 1 ∷ 2 ∷ []) read_uncommitted))
    × (naive_revenue (consume_id_counts records read_uncommitted) ≡ 5)
replays_harmless_example =
    replays_harmless records read_uncommitted (0 ∷ 1 ∷ 2 ∷ []) (0 ∷ 1 ∷ []) refl
      (inl refl, (inr (inl refl), tt))

-- a consumer that commits, and one that stops before it does
abbrev runs : List (ℕ × Bool)
runs = (2, true) ∷ (3, false) ∷ []

abbrev consumer : Consumer
consumer = record {
  yields = λ end committed. range_from (start_of committed) (end - start_of committed);
  position = λ committed seen. start_of committed + length seen;
}

consumer-IsConsumer : IsConsumer consumer
consumer-IsConsumer = record {
  yields_rest = λ end committed. refl;
  position_after = λ committed seen. refl;
}

drained_at_least_once_example :
    let (seen, committed) = consume_all consumer 6 none runs in
    let (rest, last) = consume_n consumer 6 committed 6 true in
    ((k : ℕ) → k < 6 → In k (seen ++ rest)) × (lag 6 last ≡ 0)
drained_at_least_once_example =
    drained_at_least_once consumer consumer-IsConsumer 6 runs 6 (omega arith)
