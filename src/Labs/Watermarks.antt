-- ===== src/Labs/Watermarks.antt =====
-- kafka/watermarking/str1_watermarking.ipynb: the events, the watermark, and the counts of events
-- by windows of a minute, without a watermark. A time is in seconds after 10:00.
use spark_dev.Base.{
  ℕ, ◌+◌, ◌-◌, ◌*◌, ◌/◌, ◌%◌, max, ◌≡◌, refl, Bool, List, [], ◌∷◌, map, length, length-map, ltb,
  range_from, arith,
}
use spark_dev.Labs.Delivery.{Counter, bump, count_from, seen}
use spark_dev.Labs.Delivery.Replays.{seen-count_from}

-- the dict of an event, with the number of its page
pub record Click : Type 0 where
  pub id : ℕ
  pub page : ℕ
  pub event_time : ℕ

unfoldable pub ontime : ℕ → Click
ontime i = record { id = i; page = i % 5; event_time = i / 20 * 60 + i % 20 * 3 }

-- the events of the first production
unfoldable pub clicks : List Click
clicks = map ontime (range_from 0 60)

-- the late event
abbrev pub straggler : Click
straggler = record { id = 9000; page = 0; event_time = 30 }

-- `agg(F.max("event_time"))`, of a topic with events
unfoldable pub frontier : List Click → ℕ
frontier [] = 0
frontier (c ∷ cs) = max c.event_time (frontier cs)

unfoldable pub cutoff : List Click → ℕ
unfolding frontier
cutoff cs = frontier cs - 120

-- the minute that a window starts at
unfoldable pub window_of : Click → ℕ
window_of c = c.event_time / 60

-- the rows of `no_wm`, and of `contrast` when the late event is on the topic
unfoldable pub window_counts : List Click → Counter
unfolding window_of
window_counts cs = count_from [] (map window_of cs)

-- The windows count every event, a late one too.
pub seen-window_counts : (cs : List Click) → seen (window_counts cs) ≡ length cs
unfolding window_counts seen
seen-window_counts cs =
    omega (arith, seen-count_from [] (map window_of cs), length-map window_of cs)

-- The events that are produced first count 20 in each of three minutes.
pub clicks_counts : window_counts clicks ≡ (0, 20) ∷ (1, 20) ∷ (2, 20) ∷ []
unfolding window_counts clicks ontime count_from bump
clicks_counts = refl

-- The late event is older than the watermark that the others leave.
pub straggler_late : ltb straggler.event_time (cutoff clicks) ≡ Bool.true
unfolding cutoff clicks ontime
straggler_late = refl
