-- ===== src/Tests/Slots.antt =====
-- Surroundings that answer every call, and the replication slots there.
use spark_dev.Base.{
  ◌⊎◌, ℕ, ◌+◌, ◌≤◌, ◌≡◌, ◌≢◌, refl, Bool, true, false, none, some, List, [], ◌∷◌, All,
  if◌then◌else◌, arith,
}
use spark_dev.Base.Text.{Text, codes, text_eq}
use spark_dev.Base.Json.{Json, number, text}
use spark_dev.Base.Effect.{raises, returns, Surroundings}
use spark_dev.Cdc.Calls.{
  Call, pg_open, pg_execute, pg_fetchall, pg_close, request, sleep, now, admin_open, admin_delete,
  admin_close, Answer, done, instant, rows, response,
}
use spark_dev.Cdc.Postgres.{is_absent, drop_statement, drop_slot}
use spark_dev.Cdc.Postgres.Slots.{KeepsSlot, drop_slot_sound}
use spark_dev.Cdc.Connect.Polling.{Ticks}
use spark_dev.Base.{All, head?}
use spark_dev.Labs.WalGrowth.{listed}
use spark_dev.Labs.WalGrowth.Dropped.{ListsSlot, dropped_unlisted}

-- whether the slot is there: it is until a drop
unfoldable pub has_slot : List Call → Bool
has_slot [] = true
has_slot (pg_execute sql ps ∷ h) = if text_eq sql drop_statement then false else has_slot h
has_slot (pg_open b ∷ h) = has_slot h
has_slot (pg_fetchall ∷ h) = has_slot h
has_slot (pg_close ∷ h) = has_slot h
has_slot (request m p b t ∷ h) = has_slot h
has_slot (sleep d ∷ h) = has_slot h
has_slot (now ∷ h) = has_slot h
has_slot (admin_open ∷ h) = has_slot h
has_slot (admin_delete ts ∷ h) = has_slot h
has_slot (admin_close ∷ h) = has_slot h

-- the milliseconds slept
unfoldable pub slept : List Call → ℕ
slept [] = 0
slept (sleep d ∷ h) = slept h + d
slept (pg_execute sql ps ∷ h) = slept h
slept (pg_open b ∷ h) = slept h
slept (pg_fetchall ∷ h) = slept h
slept (pg_close ∷ h) = slept h
slept (request m p b t ∷ h) = slept h
slept (now ∷ h) = slept h
slept (admin_open ∷ h) = slept h
slept (admin_delete ts ∷ h) = slept h
slept (admin_close ∷ h) = slept h

-- every service answers; Connect has no connector
unfoldable pub services : Surroundings Call Answer
unfolding has_slot slept
services [] = none
services (pg_fetchall ∷ h) = some (rows (if has_slot h then (number 1 ∷ []) ∷ [] else []))
services (request m p b t ∷ h) = some (response 404 none)
services (now ∷ h) = some (instant (slept h))
services (sleep d ∷ h) = some done
services (pg_execute sql ps ∷ h) = some done
services (pg_open b ∷ h) = some done
services (pg_close ∷ h) = some done
services (admin_open ∷ h) = some done
services (admin_delete ts ∷ h) = some done
services (admin_close ∷ h) = some done

pub services-Ticks : Ticks services
unfolding services slept
services-Ticks = record {
  clock = slept;
  onward = onward;
  sleeps = λ d h. omega arith;
  reads = λ h t e. cc;
}
  where
    onward : (c : Call) (h : List Call) → slept h ≤ slept (c ∷ h)
    onward (sleep d) h = omega arith
    onward (pg_execute sql ps) h = omega arith
    onward (pg_open b) h = omega arith
    onward pg_fetchall h = omega arith
    onward pg_close h = omega arith
    onward (request m p b t) h = omega arith
    onward now h = omega arith
    onward admin_open h = omega arith
    onward (admin_delete ts) h = omega arith
    onward admin_close h = omega arith

no_rows :
    (b : Bool) (rs : List (List Json))
    → some (rows (if b then (number 1 ∷ []) ∷ [] else [])) ≡ some (rows rs)
    → is_absent (some rs) ≡ true
    → b ≡ false
no_rows true [] e a = cc
no_rows true (r ∷ rs) e a = cc
no_rows false rs e a = refl

services-KeepsSlot : (slot : Text) → KeepsSlot services slot
unfolding services has_slot text_eq
services-KeepsSlot slot = record {
  present = has_slot;
  selected = λ h rs e a. no_rows (has_slot h) rs e a;
  dropped = λ h a e. refl;
  closing = λ h p. p;
}

abbrev slot : Text
slot = codes "a_b_slot"

dropped_run :
    drop_slot slot 3 1000 services [] ≡ (returns true, (drop_slot slot 3 1000 services []).1)
unfolding drop_slot services text_eq
dropped_run = refl

drop_slot_sound_example :
    (services-KeepsSlot slot).present (drop_slot slot 3 1000 services []).1 ≡ false
drop_slot_sound_example =
    drop_slot_sound services slot (services-KeepsSlot slot) 3 1000 []
      (drop_slot slot 3 1000 services []).1 dropped_run

abbrev str : Json → Text
str j = codes "?"

no_names :
    (b : Bool) (rs : List (List Json))
    → some (rows (if b then (number 1 ∷ []) ∷ [] else [])) ≡ some (rows rs)
    → b ≡ false
    → All (λ r. head? r ≢ some (text slot)) rs
no_names true rs e g = cc
no_names false [] e g = tt
no_names false (r ∷ rs) e g = cc

services-ListsSlot : ListsSlot services slot (services-KeepsSlot slot)
unfolding services has_slot text_eq services-KeepsSlot
services-ListsSlot = record {
  opening = λ h g. g;
  asking = λ h g. g;
  listing = λ h rs e g. no_names (has_slot h) rs e g;
}

dropped_unlisted_example :
    ((listed str slot services (drop_slot slot 3 1000 services []).1).0 ≡ returns [])
    ⊎ ((listed str slot services (drop_slot slot 3 1000 services []).1).0 ≡ raises)
dropped_unlisted_example =
    dropped_unlisted services str slot (services-KeepsSlot slot) services-ListsSlot 3 1000 []
      (drop_slot slot 3 1000 services []).1 dropped_run
