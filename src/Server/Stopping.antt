-- ===== src/Server/Stopping.antt =====
-- How many steps the server takes to its end.
use one_time_note.Base.{ℕ, ◌+◌, ◌*◌, ◌≤◌, ◌≡◌, ap, arith}
use one_time_note.Clock.{Duration}
use one_time_note.Server.{
  Serving, serving, reporting, cancelling, finished, Cleaning, selecting, cleaning, stopped, Main,
  listening, shutting, closing, joining, receiving, returned, Server, signal_arrives,
  request_arrives, request_ends, serve_fails, serve_closes, serve_reports, serve_cancels,
  ticker_fires, cleanup_returns, cleaner_stops, shutdown_starts, shutdown_succeeds, shutdown_fails,
  grace_period_ends, close_returns, group_joins, error_received, Run, here, next, steps_to_end,
  arrivals,
}

abbrev pub serving_left : Serving → ℕ
serving_left serving = 3
serving_left (reporting result) = 2
serving_left (cancelling result) = 1
serving_left (finished result) = 0

abbrev pub cleaning_left : Cleaning → ℕ
cleaning_left stopped = 0
cleaning_left _ = 1

abbrev pub main_left : Main → ℕ
main_left listening = 5
main_left shutting = 4
main_left closing = 3
main_left joining = 2
main_left receiving = 1
main_left (returned result) = 0

-- The steps that are left, besides the rounds of the cleanups.
abbrev pub left : Server → ℕ
left s = serving_left s.serve + cleaning_left s.cleaner + main_left s.main + s.active

module _ (grace_period : Duration) where
  steps_to_end_le :
      {s t : Server} (run : Run grace_period s t)
      → steps_to_end grace_period run + left t ≤ left s + 2 * arrivals grace_period run
  unfolding steps_to_end arrivals
  steps_to_end_le here = omega arith
  steps_to_end_le (next run (signal_arrives s)) = steps_to_end_le run
  steps_to_end_le (next run (ticker_fires s p)) =
      omega (arith, steps_to_end_le run, ap cleaning_left p)
  steps_to_end_le (next run (cleanup_returns s p)) =
      omega (arith, steps_to_end_le run, ap cleaning_left p)
  steps_to_end_le (next run (request_arrives s)) = omega (arith, steps_to_end_le run)
  steps_to_end_le (next run (request_ends s n p)) = omega (arith, steps_to_end_le run, p)
  steps_to_end_le (next run (serve_fails s e p)) =
      omega (arith, steps_to_end_le run, ap serving_left p)
  steps_to_end_le (next run (serve_closes s p i)) =
      omega (arith, steps_to_end_le run, ap serving_left p)
  steps_to_end_le (next run (serve_reports s result p e)) =
      omega (arith, steps_to_end_le run, ap serving_left p)
  steps_to_end_le (next run (serve_cancels s result p)) =
      omega (arith, steps_to_end_le run, ap serving_left p)
  steps_to_end_le (next run (cleaner_stops s p d)) =
      omega (arith, steps_to_end_le run, ap cleaning_left p)
  steps_to_end_le (next run (shutdown_starts s p d)) =
      omega (arith, steps_to_end_le run, ap main_left p)
  steps_to_end_le (next run (shutdown_succeeds s p e)) =
      omega (arith, steps_to_end_le run, ap main_left p)
  steps_to_end_le (next run (shutdown_fails s p e)) =
      omega (arith, steps_to_end_le run, ap main_left p)
  steps_to_end_le (next run (grace_period_ends s p g)) =
      omega (arith, steps_to_end_le run, ap main_left p)
  steps_to_end_le (next run (close_returns s p)) =
      omega (arith, steps_to_end_le run, ap main_left p)
  steps_to_end_le (next run (group_joins s result p f c)) =
      omega (arith, steps_to_end_le run, ap main_left p)
  steps_to_end_le (next run (error_received s result p e)) =
      omega (arith, steps_to_end_le run, ap main_left p)

  -- From the call of `Shutdown` on, the server takes at most eight steps besides the ends of the requests
  -- that are active then, the arrivals and ends of later requests, signals and the rounds of the cleanups.
  pub steps_to_end_bound :
      {s t : Server}
      → s.main ≡ shutting
      → (run : Run grace_period s t)
      → steps_to_end grace_period run ≤ 8 + s.active + 2 * arrivals grace_period run
  steps_to_end_bound {s} {t} p run = omega (
    arith,
    steps_to_end_le run,
    ap main_left p,
    serving_left_le s.serve,
    cleaning_left_le s.cleaner,
  )
    where
      serving_left_le : (serve : Serving) → serving_left serve ≤ 3
      serving_left_le serving = omega arith
      serving_left_le (reporting result) = omega arith
      serving_left_le (cancelling result) = omega arith
      serving_left_le (finished result) = omega arith

      cleaning_left_le : (cleaner : Cleaning) → cleaning_left cleaner ≤ 1
      cleaning_left_le selecting = omega arith
      cleaning_left_le cleaning = omega arith
      cleaning_left_le stopped = omega arith
