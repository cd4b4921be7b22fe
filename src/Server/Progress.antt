-- ===== src/Server/Progress.antt =====
-- The server comes to its end.
use one_time_note.Base.{◌<◌, ◌≡◌, ◌⊎◌, false, Option}
use one_time_note.Base.Int.{pos, ltb_ℤ}
use one_time_note.Clock.{Duration}
use one_time_note.Server.{ServeError, returned, Server, Run}
use one_time_note.Server.Stopping.{left}

module _ (grace_period : Duration) where
  abbrev pub IsReturned : Server → Type 0
  IsReturned s = (result : Option ServeError) × (s.main ≡ returned result)

  -- No request ends, where there is a grace period.
  abbrev pub Keeps : Server → Server → Type 0
  Keeps s t = (ltb_ℤ (pos 0) grace_period ≡ false) ⊎ (t.active ≡ s.active)

  abbrev Advance : Server → Type 0
  Advance s = (t : Server) × Run grace_period s t × (left t < left s) × Keeps s t

  abbrev pub Stops : Server → Type 0
  Stops s = (t : Server) × Run grace_period s t × IsReturned t × Keeps s t
