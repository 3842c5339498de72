-- ===== src/LatencyLogger/Window.antt =====
-- Which measurements src/libs/telemetry/latency-logger.service.ts keeps.
use starsyncbackend.Prelude.{
  ℕ, zero, suc, ◌-◌, ◌≤◌, String, true, false, List, [], ◌∷◌, ◌++◌, Option, ◌≡◌, refl, arith,
  length, drop, length-append, length-drop, ltb, Bool-cases, inl, inr, sym,
}
use starsyncbackend.Prelude.Int.{ℤ}
use starsyncbackend.LatencyLogger.{
  Attributes, LatencyMeasurement, LatencyLogger, start, push_measurement, log_latency,
  clear_measurements, get_all_measurements, max_measurements,
}

pub data Call : Type 0 where
  log : ℕ → String → ℤ → Option Attributes → Call
  clear : Call

unfoldable pub step : Call → LatencyLogger → LatencyLogger
step (log now operation latency_ms attributes) s = log_latency now operation latency_ms attributes s
step clear s = clear_measurements s

unfoldable pub run : List Call → LatencyLogger → LatencyLogger
run [] s = s
run (c ∷ cs) s = run cs (step c s)

-- The specification: everything is kept since the last clearing, and the last thousand are shown.
abbrev pub history : List Call → List LatencyMeasurement → List LatencyMeasurement
history [] ms = ms
history (log now operation latency_ms attributes ∷ cs) ms = history cs (
    ms
    ++ record {
      operation = operation;
      latency_ms = latency_ms;
      timestamp = now;
      attributes = attributes;
    }
      ∷ [])
history (clear ∷ cs) ms = history cs []

abbrev pub last_n {ℓ} : {A : Type ℓ} → ℕ → List A → List A
last_n n xs = drop (length xs - n) xs

drop-append {ℓ} :
    {A : Type ℓ} (n : ℕ) (xs ys : List A) → n ≤ length xs → drop n (xs ++ ys) ≡ drop n xs ++ ys
drop-append zero xs ys h = refl
drop-append (suc n) [] ys h = ground (arith, h)
drop-append (suc n) (x ∷ xs) ys h = drop-append n xs ys (ground (arith, h))

drop-suc {ℓ} : {A : Type ℓ} (n : ℕ) (xs : List A) → drop 1 (drop n xs) ≡ drop (suc n) xs
drop-suc zero xs = refl
drop-suc (suc n) [] = refl
drop-suc (suc n) (x ∷ xs) = drop-suc n xs

push_measurement-last_n :
    (m : LatencyMeasurement) (ms : List LatencyMeasurement)
    → push_measurement m (last_n max_measurements ms) ≡ last_n max_measurements (ms ++ m ∷ [])
unfolding push_measurement max_measurements
push_measurement-last_n m ms =
    let n = length ms in
    let longer : length (ms ++ m ∷ []) ≡ suc n = omega (arith, length-append ms (m ∷ [])) in
    let kept = drop (n - 1000) ms in
    let pushed : length (kept ++ m ∷ []) ≡ suc (n - (n - 1000)) =
      omega (arith, length-append kept (m ∷ []), length-drop (n - 1000) ms) in
    elim (Bool-cases (ltb 999 n)) [
      | inl h ↦
          let k : suc n - 1000 ≡ suc (n - 1000) = ground (arith, h) in
          let over : ltb 1000 (length (kept ++ m ∷ [])) ≡ true = ground (arith, pushed, h) in
          rw over (
            rw (longer, k, sym (drop-append (n - 1000) ms (m ∷ []) (ground (arith, h))))
              (drop-suc (n - 1000) (ms ++ m ∷ [])))
      | inr h ↦
          let k : suc n - 1000 ≡ 0 = ground (arith, h) in
          let k' : n - 1000 ≡ 0 = ground (arith, h) in
          let under : ltb 1000 (length (kept ++ m ∷ [])) ≡ false = ground (arith, pushed, h) in
          rw under (rw (longer, k, k') refl)
    ]

run-last_n :
    (cs : List Call) (ms : List LatencyMeasurement) (s : LatencyLogger)
    → s.measurements ≡ last_n max_measurements ms
    → get_all_measurements (run cs s) ≡ last_n max_measurements (history cs ms)
unfolding run step log_latency clear_measurements get_all_measurements
run-last_n [] ms s h = h
run-last_n (log now operation latency_ms attributes ∷ cs) ms s h =
    run-last_n cs _ _ (rw h (push_measurement-last_n _ ms))
run-last_n (clear ∷ cs) ms s h = run-last_n cs [] _ refl

-- The service that keeps a window implements one that keeps everything since the last clearing and
-- shows the last thousand: after any history of logging and clearing its measurements are those, in
-- their order, and so at most a thousand.
pub get_all_measurements_lem :
    (cs : List Call)
    → (get_all_measurements (run cs start) ≡ last_n max_measurements (history cs []))
      × (length (get_all_measurements (run cs start)) ≤ max_measurements)
unfolding start max_measurements
get_all_measurements_lem cs =
    let shown = run-last_n cs [] start refl in
    let all = history cs [] in
    (shown, rw shown (omega (arith, length-drop (length all - 1000) all)))
