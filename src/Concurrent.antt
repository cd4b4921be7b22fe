-- ===== src/Concurrent.antt =====
-- note_service.go: calls of `CreateNote` and `OpenNote` that run at once. Each call is a goroutine of
-- the HTTP server; between two of its transactions the others and the background cleanup may run, and
-- bbolt lets one write transaction run at a time. Concurrent/Alone says what a call does that is not
-- interrupted, Concurrent/Life follows a note through the turns of all calls.
pub mod Alone
pub mod Keeping
pub mod Moves
pub mod Advancing
pub mod Numbering
pub mod Life
pub mod Phases
pub mod Once
pub mod Ending
use one_time_note.Base.{ℕ, ◌≤◌, List, [], ◌∷◌, if◌then◌else◌, ◌==◌}
use one_time_note.Base.Text.{Bytes}
use one_time_note.Clock.{Time, Duration}
use one_time_note.Errors.{Error, Result, ok, err}
use one_time_note.Records.{Note}
use one_time_note.Platform.{Platform}
use one_time_note.Database.{Db, Faults}
use one_time_note.NoteService.{Limits, is_storage_full}
use one_time_note.NoteService.Cleanup.{cleanup}
use one_time_note.NoteService.Open.{open_note}
use one_time_note.NoteService.Create.{Circumstances, Draft, prepare, create_once, report}

pub record CreateArgs : Type 0 where
  pub path_id : Bytes
  pub ticket : Bytes
  pub burn_token : Bytes
  pub payload : Bytes
  pub lifetime : Duration

-- Where a call stands: before `verifyTicket`, before the first `create()`, before `Cleanup`, before the
-- second `create()`, or behind its return, with the ID of the draft that is stored or an error; and
-- before the transaction of `OpenNote`, or behind its return, with the ID of the note or an error.
pub data Call : Type 0 where
  entered : CreateArgs → Call
  prepared full swept stored : CreateArgs → Draft → Call
  opening : (id burn_token : Bytes) → Call
  opened : (id : Bytes) → Note → Call
  failed : Error → Call

-- What the clock shows and which calls of bbolt fail during one turn.
pub record Chances : Type 0 where
  pub circumstances : Circumstances
  pub open_faults : Faults
  pub opened_at : Time

-- Who has a turn: a call, by its number, or the background cleanup.
pub data Turn : Type 0 where
  call : (number : ℕ) → Chances → Turn
  background_cleanup : (faults : Faults) (cleaned_at : Time) → Turn

-- No cleanup reads a later time than `until`.
abbrev pub CleansBy : Time → Turn → Type 0
CleansBy until (call i ch) = ch.circumstances.cleaned_at ≤ until
CleansBy until (background_cleanup faults cleaned_at) = cleaned_at ≤ until

abbrev pub AllCleanBy : Time → List Turn → Type 0
AllCleanBy until [] = Unit
AllCleanBy until (turn ∷ turns) = CleansBy until turn × AllCleanBy until turns

abbrev pub assign : (ℕ → Call) → ℕ → Call → ℕ → Call
assign calls i c j = if i == j then c else calls j

module _ (P : Platform) (s : Limits) where
  abbrev pub after_prepare : CreateArgs → Result Draft → Call
  after_prepare a (err e) = failed e
  after_prepare a (ok d) = prepared a d

  -- What a call returns when it has reported its last attempt.
  abbrev pub reported : CreateArgs → Draft → Result Bytes → Call
  reported a d (err e) = failed e
  reported a d (ok id) = stored a d

  abbrev pub after_last : CreateArgs → Draft → Result (Unit {0}) × Db P.Bucket → Call × Db P.Bucket
  after_last a d attempt = let (r, db) = report P d.id attempt in (reported a d r, db)

  -- After the first `create()`.
  abbrev pub after_first : CreateArgs → Draft → Result (Unit {0}) × Db P.Bucket → Call × Db P.Bucket
  after_first a d (ok u, db) = after_last a d (ok u, db)
  after_first a d (err e, db) =
      if is_storage_full e then (full a d, db) else after_last a d (err e, db)

  abbrev pub after_cleanup :
      CreateArgs → Draft → Result (Unit {0}) × Db P.Bucket → Call × Db P.Bucket
  after_cleanup a d (err e, db) = (failed e, db)
  after_cleanup a d (ok u, db) = (swept a d, db)

  abbrev pub after_open : Bytes → Result Note × Db P.Bucket → Call × Db P.Bucket
  after_open id (err e, db) = (failed e, db)
  after_open id (ok note, db) = (opened id note, db)

  -- A call's next transaction, and what follows it up to the one after.
  unfoldable pub advance : Chances → Call → Db P.Bucket → Call × Db P.Bucket
  advance ch (entered a) db = (
    after_prepare a
        (prepare P s ch.circumstances a.path_id a.ticket a.burn_token a.payload a.lifetime db),
    db,
  )
  advance ch (prepared a d) db = after_first a d (create_once P ch.circumstances.first_faults d db)
  advance ch (full a d) db =
      let c = ch.circumstances in after_cleanup a d (cleanup P s c.cleanup_faults c.cleaned_at db)
  advance ch (swept a d) db = after_last a d (create_once P ch.circumstances.second_faults d db)
  advance ch (stored a d) db = (stored a d, db)
  advance ch (opening id burn_token) db =
      after_open id (open_note P s ch.open_faults ch.opened_at id burn_token db)
  advance ch (opened id note) db = (opened id note, db)
  advance ch (failed e) db = (failed e, db)

  -- The calls are numbered; a call that has not arrived yet has had no turn.
  pub record System : Type 0 where
    pub db : Db P.Bucket
    pub calls : ℕ → Call

  unfoldable pub take_turn : Turn → System → System
  take_turn (call i ch) x =
      let (c, db) = advance ch (x.calls i) x.db in record { db = db; calls = assign x.calls i c }
  take_turn (background_cleanup faults cleaned_at) x = record x {
    db = (cleanup P s faults cleaned_at x.db).1;
  }

  unfoldable pub take_turns : List Turn → System → System
  take_turns [] x = x
  take_turns (turn ∷ turns) x = take_turns turns (take_turn turn x)
