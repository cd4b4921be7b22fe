-- ===== src/Server.antt =====
-- main.go: `serveServer`, from the start of the HTTP server to its return, as steps of four parties: the
-- goroutine that serves, the goroutine that runs the cleanups, the main goroutine, and the outside,
-- which sends signals and requests. Server/Shutdown has its invariant, Server/Stopping and
-- Server/Progress its end.
pub mod Shutdown
pub mod Stopping
pub mod Progress
use one_time_note.Base.{ℕ, zero, suc, ◌+◌, ◌≡◌, Bool, true, false, Option, none, some, ltb}
use one_time_note.Base.Int.{pos, ltb_ℤ}
use one_time_note.Clock.{Duration}

-- An error of `Serve` other than `http.ErrServerClosed`.
abbrev pub ServeError : Type 0
ServeError = ℕ

-- The goroutine that serves: in `Serve`, before the send on `serveErr`, before `cancel()`, and behind it.
-- What it sends is the error, or nil where the server was closed.
pub data Serving : Type 0 where
  serving : Serving
  reporting cancelling finished : Option ServeError → Serving

-- The goroutine that runs the cleanups: in its `select`, in `Cleanup`, and behind its return.
pub data Cleaning : Type 0 where
  selecting cleaning stopped : Cleaning

-- The main goroutine: at `<-ctx.Done()`, in `Shutdown`, in `Close`, in `wg.Wait()`, at `<-serveErr`, and
-- behind its return of that error.
pub data Main : Type 0 where
  listening shutting closing joining receiving : Main
  returned : Option ServeError → Main

pub record Server : Type 0 where
  pub serve : Serving
  pub cleaner : Cleaning
  pub main : Main
  -- Whether the context is done.
  pub done : Bool
  -- The channel `serveErr`, which holds one value at most.
  pub serve_err : Option (Option ServeError)
  -- Whether `Shutdown` was called.
  pub is_shut : Bool
  -- The requests that are being handled.
  pub active : ℕ

abbrev pub started : Server
started = record {
  serve = serving;
  cleaner = selecting;
  main = listening;
  done = false;
  serve_err = none;
  is_shut = false;
  active = 0;
}

module _ (grace_period : Duration) where
  -- What can happen next, for a grace period. A request may arrive at any time, since a connection that
  -- was accepted may bring one when `Serve` has failed and when `Shutdown` was called, too. `Serve` returns
  -- `ErrServerClosed` only behind a call of `Shutdown`; `Shutdown` returns when no request is active or its
  -- context is done, and may fail to close the listener; `select` takes any of the cases that are ready.
  pub data Step : Server → Server → Type 0 where
    signal_arrives : (s : Server) → Step s (record s { done = true })
    request_arrives : (s : Server) → Step s (record s { active = suc s.active })
    request_ends : (s : Server) (n : ℕ) → s.active ≡ suc n → Step s (record s { active = n })
    serve_fails :
        (s : Server) (e : ServeError)
        → s.serve ≡ serving
        → Step s (record s { serve = reporting (some e) })
    serve_closes :
        (s : Server)
        → s.serve ≡ serving
        → s.is_shut ≡ true
        → Step s (record s { serve = reporting none })
    serve_reports :
        (s : Server) (result : Option ServeError)
        → s.serve ≡ reporting result
        → s.serve_err ≡ none
        → Step s (record s { serve = cancelling result; serve_err = some result })
    serve_cancels :
        (s : Server) (result : Option ServeError)
        → s.serve ≡ cancelling result
        → Step s (record s { serve = finished result; done = true })
    ticker_fires : (s : Server) → s.cleaner ≡ selecting → Step s (record s { cleaner = cleaning })
    cleanup_returns :
        (s : Server) → s.cleaner ≡ cleaning → Step s (record s { cleaner = selecting })
    cleaner_stops :
        (s : Server)
        → s.cleaner ≡ selecting
        → s.done ≡ true
        → Step s (record s { cleaner = stopped })
    shutdown_starts :
        (s : Server)
        → s.main ≡ listening
        → s.done ≡ true
        → Step s (record s { main = shutting; is_shut = true })
    shutdown_succeeds :
        (s : Server) → s.main ≡ shutting → s.active ≡ 0 → Step s (record s { main = joining })
    shutdown_fails :
        (s : Server) → s.main ≡ shutting → s.active ≡ 0 → Step s (record s { main = closing })
    grace_period_ends :
        (s : Server)
        → s.main ≡ shutting
        → ltb_ℤ (pos 0) grace_period ≡ true
        → Step s (record s { main = closing })
    close_returns : (s : Server) → s.main ≡ closing → Step s (record s { main = joining })
    group_joins :
        (s : Server) (result : Option ServeError)
        → s.main ≡ joining
        → s.serve ≡ finished result
        → s.cleaner ≡ stopped
        → Step s (record s { main = receiving })
    error_received :
        (s : Server) (result : Option ServeError)
        → s.main ≡ receiving
        → s.serve_err ≡ some result
        → Step s (record s { main = returned result; serve_err = none; done = true })

  -- What happened from a state on, a step at a time.
  pub data Run (s : Server) : Server → Type 0 where
    here : Run s s
    next : {t u : Server} → Run s t → Step t u → Run s u

  abbrev pub append : {s t u : Server} → Run s t → Run t u → Run s u
  append first here = first
  append first (next run step) = next (append first run) step

  -- The error that `Serve` returned last.
  unfoldable pub failure : {s t : Server} → Run s t → Option ServeError
  failure here = none
  failure (next run (serve_fails s e _)) = some e
  failure (next run _) = failure run

  -- The steps that bring the server's end nearer: all but the signals and the rounds of the cleanups.
  unfoldable pub steps_to_end : {s t : Server} → Run s t → ℕ
  steps_to_end here = 0
  steps_to_end (next run (signal_arrives s)) = steps_to_end run
  steps_to_end (next run (ticker_fires s _)) = steps_to_end run
  steps_to_end (next run (cleanup_returns s _)) = steps_to_end run
  steps_to_end (next run _) = suc (steps_to_end run)

  -- The requests that arrived.
  unfoldable pub arrivals : {s t : Server} → Run s t → ℕ
  arrivals here = 0
  arrivals (next run (request_arrives s)) = suc (arrivals run)
  arrivals (next run _) = arrivals run
