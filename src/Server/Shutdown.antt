-- ===== src/Server/Shutdown.antt =====
-- What holds in every state of the server: the goroutines end before `serveServer` returns.
use one_time_note.Base.{
  ◌≡◌, ◌⊎◌, refl, sym, ap, subst, ◌∙◌, Bool, true, false, Option, none, some, inl, inr,
}
use one_time_note.Clock.{Duration}
use one_time_note.Server.{
  ServeError, Serving, serving, reporting, cancelling, finished, Cleaning, selecting, cleaning,
  stopped, Main, listening, shutting, closing, joining, receiving, returned, Server, started, Step,
  signal_arrives, request_arrives, request_ends, serve_fails, serve_closes, serve_reports,
  serve_cancels, ticker_fires, cleanup_returns, cleaner_stops, shutdown_starts, shutdown_succeeds,
  shutdown_fails, grace_period_ends, close_returns, group_joins, error_received, Run, here, next,
  failure,
}

-- What the goroutine has sent on the channel.
abbrev pub sent : Serving → Option (Option ServeError)
sent serving = none
sent (reporting result) = none
sent (cancelling result) = some result
sent (finished result) = some result

-- The error that the goroutine has, or sends.
abbrev pub outcome : Serving → Option ServeError
outcome serving = none
outcome (reporting result) = result
outcome (cancelling result) = result
outcome (finished result) = result

abbrev pub is_finished : Serving → Bool
is_finished (finished result) = true
is_finished _ = false

abbrev pub is_stopped : Cleaning → Bool
is_stopped stopped = true
is_stopped _ = false

-- What the main goroutine knows at each of its points.
abbrev pub AtPoint : Main → Server → Type 0
AtPoint listening s = s.serve_err ≡ sent s.serve
AtPoint shutting s = (s.done ≡ true) × (s.is_shut ≡ true) × (s.serve_err ≡ sent s.serve)
AtPoint closing s = (s.done ≡ true) × (s.is_shut ≡ true) × (s.serve_err ≡ sent s.serve)
AtPoint joining s = (s.done ≡ true) × (s.is_shut ≡ true) × (s.serve_err ≡ sent s.serve)
AtPoint receiving s =
    (s.done ≡ true)
    × (s.is_shut ≡ true)
    × (s.serve_err ≡ sent s.serve)
    × (is_finished s.serve ≡ true)
    × (is_stopped s.cleaner ≡ true)
AtPoint (returned result) s =
    (s.done ≡ true)
    × (s.is_shut ≡ true)
    × (s.serve_err ≡ none)
    × (is_finished s.serve ≡ true)
    × (is_stopped s.cleaner ≡ true)
    × (result ≡ outcome s.serve)

pub record IsOrdered (s : Server) : Type 0 where
  pub point : AtPoint s.main s
  pub finished_done : (is_finished s.serve ≡ false) ⊎ (s.done ≡ true)
  pub stopped_done : (is_stopped s.cleaner ≡ false) ⊎ (s.done ≡ true)

started-IsOrdered : IsOrdered started
started-IsOrdered = record { point = refl; finished_done = inl refl; stopped_done = inl refl }

-- A step of the goroutine that serves, which has not finished, keeps what the main goroutine knows.
AtPoint-serve :
    (m : Main) (s t : Server)
    → is_finished s.serve ≡ false
    → (s.done ≡ true → t.done ≡ true)
    → t.is_shut ≡ s.is_shut
    → (s.serve_err ≡ sent s.serve → t.serve_err ≡ sent t.serve)
    → AtPoint m s
    → AtPoint m t
AtPoint-serve listening s t running later shut channel h = channel h
AtPoint-serve shutting s t running later shut channel (d, i, c) = (later d, shut ∙ i, channel c)
AtPoint-serve closing s t running later shut channel (d, i, c) = (later d, shut ∙ i, channel c)
AtPoint-serve joining s t running later shut channel (d, i, c) = (later d, shut ∙ i, channel c)
AtPoint-serve receiving s t running later shut channel (d, i, c, f, _) = cc
AtPoint-serve (returned result) s t running later shut channel (d, i, c, f, _, _) = cc

-- So does a step from outside, and one of the goroutine that runs the cleanups.
AtPoint-other :
    (m : Main) (s t : Server)
    → (s.done ≡ true → t.done ≡ true)
    → t.is_shut ≡ s.is_shut
    → t.serve ≡ s.serve
    → t.serve_err ≡ s.serve_err
    → (is_stopped s.cleaner ≡ true → is_stopped t.cleaner ≡ true)
    → AtPoint m s
    → AtPoint m t
AtPoint-other listening s t later shut serve channel stops h = cc
AtPoint-other shutting s t later shut serve channel stops (d, i, c) = (later d, cc, cc)
AtPoint-other closing s t later shut serve channel stops (d, i, c) = (later d, cc, cc)
AtPoint-other joining s t later shut serve channel stops (d, i, c) = (later d, cc, cc)
AtPoint-other receiving s t later shut serve channel stops (d, i, c, f, p) =
    (later d, cc, cc, cc, stops p)
AtPoint-other (returned result) s t later shut serve channel stops (d, i, c, f, p, r) =
    (later d, cc, cc, cc, stops p, cc)

module _ (grace_period : Duration) where
  AtPoint-Step : {s t : Server} → Step grace_period s t → AtPoint s.main s → AtPoint t.main t
  AtPoint-Step (signal_arrives s) h = AtPoint-other s.main s _ (λ _. refl) refl refl refl (λ p. p) h
  AtPoint-Step (request_arrives s) h = AtPoint-other s.main s _ (λ p. p) refl refl refl (λ p. p) h
  AtPoint-Step (request_ends s n e) h = AtPoint-other s.main s _ (λ p. p) refl refl refl (λ p. p) h
  AtPoint-Step (serve_fails s e p) h =
      AtPoint-serve s.main s _ (ap is_finished p) (λ d. d) refl (λ c. c ∙ ap sent p) h
  AtPoint-Step (serve_closes s p i) h =
      AtPoint-serve s.main s _ (ap is_finished p) (λ d. d) refl (λ c. c ∙ ap sent p) h
  AtPoint-Step (serve_reports s result p e) h =
      AtPoint-serve s.main s _ (ap is_finished p) (λ d. d) refl (λ c. refl) h
  AtPoint-Step (serve_cancels s result p) h =
      AtPoint-serve s.main s _ (ap is_finished p) (λ d. refl) refl (λ c. c ∙ ap sent p) h
  AtPoint-Step (ticker_fires s p) h =
      AtPoint-other s.main s _ (λ d. d) refl refl refl (λ q. absurd (cc (ap is_stopped p, q))) h
  AtPoint-Step (cleanup_returns s p) h =
      AtPoint-other s.main s _ (λ d. d) refl refl refl (λ q. absurd (cc (ap is_stopped p, q))) h
  AtPoint-Step (cleaner_stops s p d) h =
      AtPoint-other s.main s _ (λ d. d) refl refl refl (λ q. refl) h
  AtPoint-Step (shutdown_starts s p d) h = (d, refl, subst (λ m. AtPoint m s) p h)
  AtPoint-Step (shutdown_succeeds s p e) h = subst (λ m. AtPoint m s) p h
  AtPoint-Step (shutdown_fails s p e) h = subst (λ m. AtPoint m s) p h
  AtPoint-Step (grace_period_ends s p g) h = subst (λ m. AtPoint m s) p h
  AtPoint-Step (close_returns s p) h = subst (λ m. AtPoint m s) p h
  AtPoint-Step (group_joins s result p f c) h =
      let (d, i, e) = subst (λ m. AtPoint m s) p h in (d, i, e, ap is_finished f, ap is_stopped c)
  AtPoint-Step (error_received s result p e) h =
      let (d, i, c, f, q) = subst (λ m. AtPoint m s) p h in
      (refl, i, refl, f, q, outcome-sent s.serve result (sym c ∙ e))
    where
      outcome-sent :
          (serve : Serving) (result : Option ServeError)
          → sent serve ≡ some result
          → result ≡ outcome serve
      outcome-sent serving result h = cc
      outcome-sent (reporting r) result h = cc
      outcome-sent (cancelling r) result h = cc
      outcome-sent (finished r) result h = cc

  finished_done-Step :
      {s t : Server}
      → Step grace_period s t
      → (is_finished s.serve ≡ false) ⊎ (s.done ≡ true)
      → (is_finished t.serve ≡ false) ⊎ (t.done ≡ true)
  finished_done-Step (signal_arrives s) h = inr refl
  finished_done-Step (serve_fails s e p) h = inl refl
  finished_done-Step (serve_closes s p i) h = inl refl
  finished_done-Step (serve_reports s result p e) h = inl refl
  finished_done-Step (serve_cancels s result p) h = inr refl
  finished_done-Step (error_received s result p e) h = inr refl
  finished_done-Step _ h = h

  stopped_done-Step :
      {s t : Server}
      → Step grace_period s t
      → (is_stopped s.cleaner ≡ false) ⊎ (s.done ≡ true)
      → (is_stopped t.cleaner ≡ false) ⊎ (t.done ≡ true)
  stopped_done-Step (signal_arrives s) h = inr refl
  stopped_done-Step (serve_cancels s result p) h = inr refl
  stopped_done-Step (error_received s result p e) h = inr refl
  stopped_done-Step (ticker_fires s p) h = inl refl
  stopped_done-Step (cleanup_returns s p) h = inl refl
  stopped_done-Step (cleaner_stops s p d) h = inr d
  stopped_done-Step _ h = h

  pub IsOrdered-Run : {s t : Server} → Run grace_period s t → IsOrdered s → IsOrdered t
  IsOrdered-Run here first = first
  IsOrdered-Run (next run step) first =
      let o = IsOrdered-Run run first in
      record {
        point = AtPoint-Step step o.point;
        finished_done = finished_done-Step step o.finished_done;
        stopped_done = stopped_done-Step step o.stopped_done;
      }

  pub Run-IsOrdered : {t : Server} → Run grace_period started t → IsOrdered t
  Run-IsOrdered run = IsOrdered-Run run started-IsOrdered

  outcome-failure :
      {t : Server} (run : Run grace_period started t) → outcome t.serve ≡ failure grace_period run
  unfolding failure
  outcome-failure here = refl
  outcome-failure (next run (serve_fails s e p)) = refl
  outcome-failure (next run (serve_closes s p i)) = sym (ap outcome p) ∙ outcome-failure run
  outcome-failure (next run (serve_reports s result p e)) = sym (ap outcome p) ∙ outcome-failure run
  outcome-failure (next run (serve_cancels s result p)) = sym (ap outcome p) ∙ outcome-failure run
  outcome-failure (next run _) = outcome-failure run

  -- When `serveServer` returns, both of its goroutines have ended, `Shutdown` was called, and it
  -- returns the error with which `Serve` failed, or nil where `Serve` did not fail.
  pub Run-returned :
      {t : Server} (run : Run grace_period started t) (result : Option ServeError)
      → t.main ≡ returned result
      → (result ≡ failure grace_period run)
        × (t.serve ≡ finished result)
        × (t.cleaner ≡ stopped)
        × (t.is_shut ≡ true)
  Run-returned {t} run result e =
      let (_, i, _, f, q, same) = subst (λ m. AtPoint m t) e (Run-IsOrdered run).point in
      (
        same ∙ outcome-failure run,
        finished_of t.serve f ∙ ap finished (sym same),
        stopped_of t.cleaner q,
        i,
      )
    where
      finished_of : (serve : Serving) → is_finished serve ≡ true → serve ≡ finished (outcome serve)
      finished_of serving h = cc
      finished_of (reporting r) h = cc
      finished_of (cancelling r) h = cc
      finished_of (finished r) h = refl

      stopped_of : (cleaner : Cleaning) → is_stopped cleaner ≡ true → cleaner ≡ stopped
      stopped_of selecting h = cc
      stopped_of cleaning h = cc
      stopped_of stopped h = refl
