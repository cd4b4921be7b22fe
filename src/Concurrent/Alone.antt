-- ===== src/Concurrent/Alone.antt =====
-- A call that has all its turns at once does what `create_note` or `open_note` does.
use one_time_note.Base.{◌≡◌, Option, none, some, refl, arith, Bool-cases, inl, inr}
use one_time_note.Base.Text.{Bytes}
use one_time_note.Errors.{Result, Result-cases, ok, err}
use one_time_note.Platform.{Platform}
use one_time_note.Database.{Db}
use one_time_note.NoteService.{Limits, is_storage_full}
use one_time_note.NoteService.Create.{Draft, prepare, report, second_attempt, retry, create_note}
use one_time_note.Concurrent.{
  CreateArgs, Call, entered, prepared, full, swept, stored, opening, opened, failed, Chances,
  after_last, after_first, after_cleanup, advance,
}

-- What a call of `CreateNote` has returned.
abbrev pub create_result : Call → Option (Result Bytes)
create_result (stored a d) = some (ok d.id)
create_result (failed e) = some (err e)
create_result _ = none

module _ (P : Platform) (s : Limits) (ch : Chances) where
  -- The call's turns, one after the other.
  abbrev pub next : Call × Db P.Bucket → Call × Db P.Bucket
  next (c, db) = advance P s ch c db

  -- The call has returned what a call of `create_note` returns, with the same database.
  abbrev pub Returns : Call × Db P.Bucket → Result Bytes × Db P.Bucket → Type 0
  Returns x outcome = (create_result x.0 ≡ some outcome.0) × (x.1 ≡ outcome.1)

  next-Returns :
      (c : Call) (db : Db P.Bucket) (outcome : Result Bytes × Db P.Bucket)
      → Returns (c, db) outcome
      → Returns (next (c, db)) outcome
  unfolding advance
  next-Returns (entered a) db outcome h = cc
  next-Returns (prepared a d) db outcome h = cc
  next-Returns (full a d) db outcome h = cc
  next-Returns (swept a d) db outcome h = cc
  next-Returns (stored a d) db outcome h = h
  next-Returns (opening id t) db outcome h = cc
  next-Returns (opened id note) db outcome h = cc
  next-Returns (failed e) db outcome h = h

  after_last-Returns :
      (a : CreateArgs) (d : Draft) (attempt : Result (Unit {0}) × Db P.Bucket)
      → Returns (after_last P s a d attempt) (report P d.id attempt)
  unfolding report
  after_last-Returns a d (ok u, db) = (refl, refl)
  after_last-Returns a d (err e, db) = ground arith

  after_cleanup-Returns :
      (a : CreateArgs) (d : Draft) (r : Result (Unit {0}) × Db P.Bucket)
      → Returns (next (after_cleanup P s a d r)) (second_attempt P ch.circumstances d r)
  unfolding advance second_attempt
  after_cleanup-Returns a d (err e, db) = (refl, refl)
  after_cleanup-Returns a d (ok u, db) = after_last-Returns a d _

  after_first-Returns :
      (a : CreateArgs) (d : Draft) (attempt : Result (Unit {0}) × Db P.Bucket)
      → Returns (next (next (after_first P s a d attempt))) (retry P s ch.circumstances d attempt)
  unfolding retry advance
  after_first-Returns a d (ok u, db) =
      next-Returns _ _ _ (next-Returns _ _ _ (after_last-Returns a d (ok u, db)))
  after_first-Returns a d (err e, db) = elim (Bool-cases (is_storage_full e)) [
    | inl no_room ↦ rw no_room (after_cleanup-Returns a d _)
    | inr other ↦
        rw other (next-Returns _ _ _ (next-Returns _ _ _ (after_last-Returns a d (err e, db))))
  ]

  -- A call of `CreateNote` that has its turns one after the other, with no other call in between, returns
  -- what `create_note` returns, by its fourth turn at the latest, and leaves the same database.
  pub create_note-advance :
      (a : CreateArgs) (db : Db P.Bucket)
      → Returns
          (next (next (next (next (entered a, db)))))
          (create_note P s ch.circumstances a.path_id a.ticket a.burn_token a.payload a.lifetime db)
  unfolding create_note advance
  create_note-advance a db =
      elim (Result-cases
        (prepare P s ch.circumstances a.path_id a.ticket a.burn_token a.payload a.lifetime db)) [
          | inl (d, ready) ↦ rw (ready, create_note) (after_first-Returns a d _)
          | inr (e, refused) ↦ rw (refused, create_note) (refl, refl)
        ]
