-- ===== src/LatencyLogger.antt =====
-- src/libs/telemetry/latency-logger.service.ts: the latencies of the last operations. What is
-- recorded in OpenTelemetry and told to a span is a list of calls; the console is left out.
pub mod Window
pub mod Sorting
pub mod Stats
pub mod Measured
mod Examples
use starsyncbackend.Prelude.{
  ℕ, zero, suc, ◌*◌, ◌/◌, String, Bool, true, false, List, [], ◌∷◌, ◌++◌, Option, none, some, ◌==◌,
  if◌then◌else◌, get_or, length, drop, filter, map, ltb,
}
use starsyncbackend.Prelude.Int.{ℤ, pos, ltb_ℤ, minus, ◌+ℤ◌}
use starsyncbackend.JsMap
use starsyncbackend.Effect.{Effect, Result, Error, ok, err}

-- `Record<string, string>`
abbrev pub Attributes : Type 0
Attributes = List (String × String)

pub record LatencyMeasurement : Type 0 where
  pub operation : String
  pub latency_ms : ℤ
  pub timestamp : ℕ
  pub attributes : Option Attributes

-- Calls of the telemetry: `recordLatency`, and those of a span.
pub data Telemetry : Type 0 where
  record_latency : String → ℤ → Option Attributes → Telemetry
  start_span : String → Telemetry
  set_status_ok : Telemetry
  set_status_error : Error → Telemetry
  end_span : Telemetry

pub record LatencyLogger : Type 0 where
  pub measurements : List LatencyMeasurement
  pub telemetry : List Telemetry

unfoldable pub start : LatencyLogger
start = record { measurements = []; telemetry = [] }

unfoldable pub max_measurements : ℕ
max_measurements = 1000

-- A call of the telemetry.
abbrev pub tell : Telemetry → LatencyLogger → LatencyLogger
tell call s = record s { telemetry = s.telemetry ++ call ∷ [] }

-- `push`, and `shift` where there are too many.
unfoldable pub push_measurement :
    LatencyMeasurement → List LatencyMeasurement → List LatencyMeasurement
unfolding max_measurements
push_measurement m ms =
    let pushed = ms ++ m ∷ [] in
    if ltb max_measurements (length pushed) then drop 1 pushed else pushed

unfoldable pub log_latency : ℕ → String → ℤ → Option Attributes → LatencyLogger → LatencyLogger
unfolding push_measurement
log_latency now operation latency_ms attributes s =
    let m : LatencyMeasurement = record {
      operation = operation;
      latency_ms = latency_ms;
      timestamp = now;
      attributes = attributes;
    } in
    tell (record_latency operation latency_ms attributes)
      (record s { measurements = push_measurement m s.measurements })

-- `{ ...attributes, success }`
abbrev pub with_success : Option Attributes → String → Option Attributes
with_success attributes success = some (JsMap.set "success" success (get_or attributes []))

-- What follows the operation in `measureSync`: the three blocks `try`, `catch` and `finally`. The
-- clock shows `now` then, and `begun` before it.
unfoldable pub finish_measure {ℓ} :
    {A : Type ℓ}
    → ℕ
    → ℕ
    → String
    → Option Attributes
    → Result A
    → LatencyLogger
    → Result A × LatencyLogger
unfolding log_latency
finish_measure begun now operation attributes (ok result) s = (
  ok result,
  tell end_span (
      tell set_status_ok
        (log_latency now operation (minus now begun) (with_success attributes "true") s)),
)
finish_measure begun now operation attributes (err error) s = (
  err error,
  tell end_span (
      tell (set_status_error error)
        (log_latency now operation (minus now begun) (with_success attributes "false") s)),
)

-- `measureSync`; the operation may itself use the service.
unfoldable pub measure_sync :
    {A : Type 0}
    → ℕ
    → ℕ
    → String
    → Effect LatencyLogger A
    → Option Attributes
    → Effect LatencyLogger A
unfolding finish_measure
measure_sync begun now operation f attributes s =
    let (result, s') = f (tell (start_span operation) s) in
    finish_measure begun now operation attributes result s'

-- `measureAsync`: the operation is what runs until its promise settles, other calls included.
unfoldable pub measure_async :
    {A : Type 0}
    → ℕ
    → ℕ
    → String
    → Effect LatencyLogger A
    → Option Attributes
    → Effect LatencyLogger A
unfolding finish_measure
measure_async begun now operation f attributes s =
    let (result, s') = f (tell (start_span operation) s) in
    finish_measure begun now operation attributes result s'

-- `sort((a, b) => a - b)`: the runtime's sort, as an insertion sort.
unfoldable pub insert : ℤ → List ℤ → List ℤ
insert x [] = x ∷ []
insert x (y ∷ ys) = if ltb_ℤ y x then y ∷ insert x ys else x ∷ y ∷ ys

unfoldable pub sort : List ℤ → List ℤ
unfolding insert
sort [] = []
sort (x ∷ xs) = insert x (sort xs)

-- `latencies[i] || 0`
unfoldable pub at : List ℤ → ℕ → ℤ
at [] i = pos 0
at (x ∷ xs) zero = x
at (x ∷ xs) (suc i) = at xs i

-- `reduce((a, b) => a + b, 0)`
unfoldable pub sum_from : ℤ → List ℤ → ℤ
sum_from a [] = a
sum_from a (x ∷ xs) = sum_from (a +ℤ x) xs

-- The average is a fraction: its numerator and its denominator.
pub record LatencyStats : Type 0 where
  pub count : ℕ
  pub average : ℤ × ℕ
  pub min : ℤ
  pub max : ℤ
  pub p95 : ℤ
  pub p99 : ℤ

-- `this.measurements.filter((m) => m.operation === operation).map((m) => m.latencyMs)`
unfoldable pub latencies_of : String → LatencyLogger → List ℤ
latencies_of operation s =
    map (λ m. m.latency_ms) (filter (λ m. m.operation == operation) s.measurements)

-- The statistics of latencies that are sorted; `n * 0.95` is rounded down, for whole numbers up to
-- 1000 the same as a division of whole numbers.
unfoldable pub stats_of : List ℤ → LatencyStats
unfolding at sum_from
stats_of [] = record {
  count = 0;
  average = (pos 0, 1);
  min = pos 0;
  max = pos 0;
  p95 = pos 0;
  p99 = pos 0;
}
stats_of (x ∷ xs) =
    let latencies = x ∷ xs in
    let n = length latencies in
    record {
      count = n;
      average = (sum_from (pos 0) latencies, n);
      min = at latencies 0;
      max = at latencies (length xs);
      p95 = at latencies (n * 95 / 100);
      p99 = at latencies (n * 99 / 100);
    }

unfoldable pub get_latency_stats : String → LatencyLogger → LatencyStats
unfolding sort latencies_of stats_of
get_latency_stats operation s = stats_of (sort (latencies_of operation s))

unfoldable pub get_all_measurements : LatencyLogger → List LatencyMeasurement
get_all_measurements s = s.measurements

unfoldable pub clear_measurements : LatencyLogger → LatencyLogger
clear_measurements s = record s { measurements = [] }
