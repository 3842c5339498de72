-- ===== src/LatencyLogger/Examples.antt =====
-- Runs of src/libs/telemetry/latency-logger.service.ts.
use starsyncbackend.Prelude.{List, [], ◌∷◌, none, ◌≡◌, ◌≤◌, length, arith}
use starsyncbackend.Prelude.Int.{pos}
use starsyncbackend.LatencyLogger.{
  start, max_measurements, get_all_measurements, log_latency, clear_measurements, push_measurement,
  latencies_of, get_latency_stats,
}
use starsyncbackend.LatencyLogger.Window.{
  Call, log, clear, run, step, history, last_n, get_all_measurements_lem,
}
use starsyncbackend.LatencyLogger.Stats.{Describes, get_latency_stats-Describes}

abbrev calls : List Call
calls =
    log 1 "save" (pos 7) none ∷ clear ∷ log 2 "save" (pos 5) none ∷ log 3 "save" (pos 4) none ∷ []

get_all_measurements_lem_example :
    (get_all_measurements (run calls start) ≡ last_n max_measurements (history calls []))
    × (length (get_all_measurements (run calls start)) ≤ max_measurements)
get_all_measurements_lem_example = get_all_measurements_lem calls

get_latency_stats-Describes_example :
    Describes (get_latency_stats "save" (run calls start)) (latencies_of "save" (run calls start))
unfolding latencies_of run step log_latency clear_measurements push_measurement start
    max_measurements
get_latency_stats-Describes_example =
    get_latency_stats-Describes "save" (run calls start) (omega arith)
