-- ===== src/LatencyLogger/Measured.antt =====
-- What a measured operation of src/libs/telemetry/latency-logger.service.ts leaves behind.
use starsyncbackend.Prelude.{ℕ, String, List, [], ◌∷◌, ◌++◌, Option, ◌≡◌, refl, ap}
use starsyncbackend.Prelude.Int.{minus}
use starsyncbackend.Effect.{Effect, Result, ok, err}
use starsyncbackend.LatencyLogger.{
  Attributes, LatencyLogger, Telemetry, record_latency, start_span, set_status_ok, set_status_error,
  end_span, tell, push_measurement, with_success, finish_measure, measure_sync, measure_async,
  log_latency,
}

-- How the result shows in the attributes and in the status of the span.
abbrev pub success_of {ℓ} : {A : Type ℓ} → Result A → String
success_of (ok a) = "true"
success_of (err x) = "false"

abbrev pub status_of {ℓ} : {A : Type ℓ} → Result A → Telemetry
status_of (ok a) = set_status_ok
status_of (err x) = set_status_error x

append_three {ℓ} :
    {A : Type ℓ} (xs : List A) (a b c : A)
    → ((xs ++ a ∷ []) ++ b ∷ []) ++ c ∷ [] ≡ xs ++ a ∷ b ∷ c ∷ []
append_three [] a b c = refl
append_three (x ∷ xs) a b c = ap (λ ys. x ∷ ys) (append_three xs a b c)

module _ {A : Type 0} (begun now : ℕ) (operation : String) (attributes : Option Attributes) where
  -- What is kept of an operation, and what is told of it, after it ran and left a result and a state.
  pub record Logged (result : Result A) (s s' : LatencyLogger) : Type 0 where
    pub measured :
        s'.measurements
        ≡ push_measurement
            (record {
              operation = operation;
              latency_ms = minus now begun;
              timestamp = now;
              attributes = with_success attributes (success_of result);
            })
            s.measurements
    pub told :
        s'.telemetry
        ≡ s.telemetry
          ++ record_latency operation
              (minus now begun)
              (with_success attributes (success_of result))
            ∷ status_of result
            ∷ end_span
            ∷ []

  finish_measure_lem :
      (result : Result A) (s : LatencyLogger)
      → ((finish_measure begun now operation attributes result s).0 ≡ result)
        × Logged result s (finish_measure begun now operation attributes result s).1
  unfolding finish_measure log_latency
  finish_measure_lem (ok a) s =
      (refl, record { measured = refl; told = append_three s.telemetry _ _ _ })
  finish_measure_lem (err x) s =
      (refl, record { measured = refl; told = append_three s.telemetry _ _ _ })

  -- Measuring an operation, which may itself use the service, hands its result on, the error that
  -- it throws included; in both cases one measurement with the time it took is added to those that
  -- the operation left, marked as a success or not, and the telemetry is told the latency, the
  -- status and the end of the span, in this order. measureAsync does what measureSync does.
  pub measure_lem :
      (f : Effect LatencyLogger A) (s : LatencyLogger)
      → let (result, during) = f (tell (start_span operation) s) in
        ((measure_sync begun now operation f attributes s).0 ≡ result)
        × Logged result during (measure_sync begun now operation f attributes s).1
        × (measure_async begun now operation f attributes s
            ≡ measure_sync begun now operation f attributes s)
  unfolding measure_sync measure_async
  measure_lem f s =
      let (result, during) = f (tell (start_span operation) s) in
      let (same, left) = finish_measure_lem result during in (same, left, refl)
