-- ===== src/Example/Serving.antt =====
-- A server whose `Serve` fails while a request is handled, and that stops when its grace period ends.
use one_time_note.Base.{◌+◌, ◌*◌, ◌≤◌, ◌≡◌, refl, true, none, some}
use one_time_note.Base.Int.{ℤ, pos}
use one_time_note.Server.{
  finished, stopped, shutting, returned, Server, started, Run, here, next, request_arrives,
  request_ends, serve_fails, serve_reports, serve_cancels, ticker_fires, cleanup_returns,
  cleaner_stops, shutdown_starts, grace_period_ends, close_returns, group_joins, error_received,
  failure, steps_to_end, arrivals, append,
}
use one_time_note.Server.Shutdown.{Run-returned}
use one_time_note.Server.Stopping.{steps_to_end_bound}

abbrev grace_period : ℤ
grace_period = pos 3_000_000_000

abbrev stopping : Server
stopping = record started {
  serve = finished (some 7);
  main = shutting;
  done = true;
  serve_err = some (some 7);
  is_shut = true;
  active = 1;
}

abbrev ended : Server
ended = record stopping { cleaner = stopped; main = returned (some 7); serve_err = none }

abbrev to_shutdown : Run grace_period started stopping
to_shutdown =
    next
      (next
        (next (next (next here (request_arrives started)) (serve_fails _ 7 refl))
          (serve_reports _ (some 7) refl refl))
        (serve_cancels _ (some 7) refl))
      (shutdown_starts _ refl refl)

-- A request on a connection that was accepted before.
abbrev late_request : Run grace_period stopping stopping
late_request = next (next here (request_arrives stopping)) (request_ends _ 1 refl)

abbrev from_shutdown : Run grace_period stopping ended
from_shutdown =
    next
      (next
        (next
          (next
            (next (next (next late_request (ticker_fires _ refl)) (cleanup_returns _ refl))
              (grace_period_ends _ refl refl))
            (cleaner_stops _ refl refl))
          (close_returns _ refl))
        (group_joins _ (some 7) refl refl refl))
      (error_received _ (some 7) refl refl)

Run-returned_example :
    (some 7 ≡ failure grace_period (append grace_period to_shutdown from_shutdown))
    × (ended.serve ≡ finished (some 7))
    × (ended.cleaner ≡ stopped)
    × (ended.is_shut ≡ true)
Run-returned_example =
    Run-returned grace_period (append grace_period to_shutdown from_shutdown) (some 7) refl

steps_to_end_bound_example :
    steps_to_end grace_period from_shutdown ≤ 8 + 1 + 2 * arrivals grace_period from_shutdown
steps_to_end_bound_example = steps_to_end_bound grace_period refl from_shutdown
