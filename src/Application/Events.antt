-- ===== src/Application/Events.antt =====
-- main.go: the requests that the server handles and the rounds of the background cleanup, one after the
-- other in the order in which their transactions run.
use one_time_note.Base.{◌≤◌, List, [], ◌∷◌}
use one_time_note.Clock.{Time}
use one_time_note.Platform.{Platform}
use one_time_note.Database.{Faults}
use one_time_note.Net.{Net}
use one_time_note.RateLimiter.{Rate}
use one_time_note.Http.{Http}
use one_time_note.NoteService.Cleanup.{cleanup}
use one_time_note.Web.{new_writer}
use one_time_note.Views.{Engine}
use one_time_note.Application.{Visit, NetHttp, App, Shared, Moment, serve_http}

module _ (N : Net) (E : Engine N) (R : Rate) (P : Platform) (H : Http) (S : NetHttp N) where
  -- What happens, and the time at which it is over.
  pub data Event : Type 0 where
    request : (now : Time) → Moment N E R P H S → Visit N → Event
    background_cleanup : (now : Time) → Faults → (cleaned_at : Time) → Event

  unfoldable pub handle : App N E R P H S → Event → Shared N E R P H S → Shared N E R P H S
  handle a (request now m v) s = (serve_http N E R P H S a m v new_writer s).1
  handle a (background_cleanup now faults cleaned_at) s = record s {
    db = (cleanup P a.limits faults cleaned_at s.db).1;
  }

  unfoldable pub handle_all : App N E R P H S → List Event → Shared N E R P H S → Shared N E R P H S
  handle_all a [] s = s
  handle_all a (event ∷ events) s = handle_all a events (handle a event s)

  abbrev pub time_of : Event → Time
  time_of (request now m v) = now
  time_of (background_cleanup now faults cleaned_at) = now

  -- The clock is read before an event is over.
  abbrev pub ReadsBefore : Event → Type 0
  ReadsBefore (request now m v) = (m.circumstances.cleaned_at ≤ now) × (m.opened_at ≤ now)
  ReadsBefore (background_cleanup now faults cleaned_at) = cleaned_at ≤ now

  -- The events are over one after the other, from a time on.
  abbrev pub IsTimely : Time → List Event → Type 0
  IsTimely t [] = Unit
  IsTimely t (event ∷ events) =
      (t ≤ time_of event) × ReadsBefore event × IsTimely (time_of event) events

  abbrev pub last_time : Time → List Event → Time
  last_time t [] = t
  last_time t (event ∷ events) = last_time (time_of event) events
