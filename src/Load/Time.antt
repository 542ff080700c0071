-- ===== src/Load/Time.antt =====
-- load/time: durations and instants, in nanoseconds.
use creo_bench.Prelude.{ℕ, ◌+◌, ◌-◌, ◌/◌, ◌%◌, ◌^◌}

-- `as u64`, and the arithmetic of `AtomicU64` and of release builds.
abbrev pub u64_modulus : ℕ
u64_modulus = 2 ^ 64

abbrev pub wrapping_add : ℕ → ℕ → ℕ
wrapping_add a b = (a + b) % u64_modulus

-- `DurationMeasurement::as_millis`.
unfoldable pub as_millis : ℕ → ℕ
as_millis duration = duration / 1000000 % u64_modulus

pub record StartTime : Type 0 where
  pub instant : ℕ
  pub relative_to_start : ℕ

-- `StartTime::scheduled`.
unfoldable pub scheduled : ℕ → ℕ → StartTime
scheduled time_zero offset = record { instant = time_zero + offset; relative_to_start = offset }

-- `Instant::elapsed` at the instant `now`, which is no earlier.
unfoldable pub elapsed : StartTime → ℕ → ℕ
elapsed start now = now - start.instant

-- The subtraction saturates, as the source's does.
unfoldable pub relative_to_start_of : StartTime → ℕ → ℕ
relative_to_start_of start instant = start.relative_to_start + (instant - start.instant)

pub record RequestTiming : Type 0 where
  pub sent_at : ℕ
  pub service_time : ℕ

-- `ServiceTimeMeasurement::finish`, of a measurement that began at `sent_at`.
unfoldable pub finish : ℕ → ℕ → RequestTiming
finish sent_at now = record { sent_at = sent_at; service_time = now - sent_at }
