-- ===== src/Handlers/Opening.antt =====
-- The endpoint that opens a note.
pub mod Whole
use one_time_note.Base.{◌≡◌, ◌≢◌, ◌≤◌, refl, ap, ◌∙◌, sym, none, some, arith}
use one_time_note.Base.Text.{Bytes, bytes_eq, eq_of_bytes_eq}
use one_time_note.BurnToken.{burn_token_verifier}
use one_time_note.Clock.{Time}
use one_time_note.Errors.{note_open_failed, Result, ok, err}
use one_time_note.Records.{Note}
use one_time_note.Platform.{Platform}
use one_time_note.Database.{Db, Faults, IsQuiet}
use one_time_note.Http.{Http, Response, write_json, open_note_response}
use one_time_note.NoteService.{Limits, delete_note_records}
use one_time_note.NoteService.Validity.{IsValid-valid_metadata}
use one_time_note.NoteService.Open.{burn, open_valid, open_in_tx, open_note}
use one_time_note.NoteService.Open.Returning.{Holds}
use one_time_note.Handlers.{
  ready, read_open_request, open_note_error, record_failed_open, answer_open, handle_open_note,
}

module _ (P : Platform) (s : Limits) (faults : Faults) (now : Time) (id burn_token : Bytes) where
  open_note_missing :
      (db : Db P.Bucket)
      → IsQuiet faults
      → P.get db.metadata id ≡ none
      → open_note P s faults now id burn_token db ≡ (err note_open_failed, db)
  unfolding open_note open_in_tx
  open_note_missing db q h = ground (arith, h, q.begins, q.commits)

  open_note_wrong_token :
      (db : Db P.Bucket) (note : Note) (verifier : Bytes)
      → IsQuiet faults
      → Holds P s db id burn_token note verifier
      → verifier ≢ note.metadata.burn_verifier
      → open_note P s faults now id burn_token db ≡ (err note_open_failed, db)
  unfolding open_note open_in_tx open_valid
  open_note_wrong_token db note verifier q h n = ground (
    arith,
    h.metadata,
    h.payload,
    h.read,
    h.key,
    h.derived,
    IsValid-valid_metadata s note.metadata h.valid,
    eq_of_bytes_eq verifier note.metadata.burn_verifier,
    q.begins,
    q.commits,
  )

module _ (P : Platform) (H : Http) (s : Limits) (faults : Faults) (now : Time)
    (content_type path body : Bytes) (id burn_token : Bytes)
    (read : read_open_request H content_type path body ≡ ready (id, burn_token)) where
  pub handle_open_note-ok :
      (db db' : Db P.Bucket) (note : Note)
      → open_note P s faults now id burn_token db ≡ (ok note, db')
      → handle_open_note P H s faults now content_type path body db
        ≡ (write_json 200 (open_note_response note.payload), db')
  unfolding handle_open_note
  handle_open_note-ok db db' note h = rw (read, handle_open_note) (ap (answer_open P) h)

  handle_open_note-failed :
      (db : Db P.Bucket)
      → open_note P s faults now id burn_token db ≡ (err note_open_failed, db)
      → handle_open_note P H s faults now content_type path body db ≡ (record_failed_open, db)
  unfolding handle_open_note open_note_error
  handle_open_note-failed db h = rw (read, handle_open_note) (ap (answer_open P) h)

  -- A request that can be read, and in whose transaction no call of bbolt fails, gets the same response for
  -- a note that is there, under a burn token of another verifier, as in a database that has no note of the
  -- ID, and neither database changes.
  pub handle_open_note_alike :
      (db other : Db P.Bucket) (note : Note) (verifier : Bytes)
      → IsQuiet faults
      → Holds P s db id burn_token note verifier
      → verifier ≢ note.metadata.burn_verifier
      → P.get other.metadata id ≡ none
      → let (response, db') = handle_open_note P H s faults now content_type path body db in
        let (response', other') = handle_open_note P H s faults now content_type path body other in
        (response ≡ response') × (db' ≡ db) × (other' ≡ other)
  handle_open_note_alike db other note verifier q h n missing =
      let there =
        handle_open_note-failed db
          (open_note_wrong_token P s faults now id burn_token db note verifier q h n) in
      let absent =
        handle_open_note-failed other
          (open_note_missing P s faults now id burn_token other q missing) in
      rw (there, absent) (refl, refl, refl)
