-- ===== src/NoteService/Create.antt =====
-- `CreateNote` of note_service.go.
pub mod Storing
pub mod Preparing
pub mod Opening
use one_time_note.Base.{◌||◌, ltb, ◌==◌, length, if◌then◌else◌}
use one_time_note.Base.Text.{Bytes, is_some}
use one_time_note.Clock.{Time, Duration, add}
use one_time_note.Errors.{
  max_size_reached, payload_empty, payload_too_large, storage_full, ticket_invalid, ticket_unusable,
  marshal_failed, bolt, Result, ok, err, ◌>>=◌, ◌>>◌, fail_if, from_option, check_fault,
}
use one_time_note.Records.{Metadata}
use one_time_note.Platform.{Platform}
use one_time_note.Database.{
  payload_bucket, metadata_bucket, used_tickets_bucket, Db, Faults, update,
}
use one_time_note.Ticket.{max_ticket_len, verify_ticket}
use one_time_note.NoteService.{Limits, normalize_lifetime, is_storage_full}
use one_time_note.NoteService.Cleanup.{cleanup}

-- What the clock shows and which of bbolt's calls fail, at each place of one call of `CreateNote`:
-- in `verifyTicket`, at the note's creation, in `Cleanup`, and in the two attempts to store the note.
pub record Circumstances : Type 0 where
  pub verified_at : Time
  pub created_at : Time
  pub cleaned_at : Time
  pub verify_faults : Faults
  pub first_faults : Faults
  pub cleanup_faults : Faults
  pub second_faults : Faults

-- What one call of `CreateNote` stores under the ticket's ID.
pub record Draft : Type 0 where
  pub id : Bytes
  pub metadata_bytes : Bytes
  pub payload : Bytes
  pub marker_bytes : Bytes

module _ (P : Platform) where
  unfoldable pub create_in_tx : Faults → Draft → Db P.Bucket → Result (Unit {0} × Db P.Bucket)
  create_in_tx faults d db = do
    fail_if (is_some (P.get db.used_tickets d.id)) ticket_unusable
    fail_if (is_some (P.get db.metadata d.id) || is_some (P.get db.payloads d.id)) ticket_unusable
    check_fault (faults.at_put metadata_bucket d.id)
    check_fault (faults.at_put payload_bucket d.id)
    check_fault (faults.at_put used_tickets_bucket d.id)
    ok (
      tt,
      record db {
        metadata = P.put db.metadata d.id d.metadata_bytes;
        payloads = P.put db.payloads d.id d.payload;
        used_tickets = P.put db.used_tickets d.id d.marker_bytes;
      },
    )

  unfoldable pub create_once : Faults → Draft → Db P.Bucket → Result (Unit {0}) × Db P.Bucket
  create_once faults d db = update faults (create_in_tx faults d) db

  -- The checks that come before the database is written, and what is to be written.
  unfoldable pub prepare :
      Limits → Circumstances → Bytes → Bytes → Bytes → Bytes → Duration → Db P.Bucket → Result Draft
  prepare s c path_id ticket burn_token payload lifetime db = do
    fail_if (ltb max_ticket_len (length ticket)) ticket_invalid
    fail_if (length payload == 0) payload_empty
    fail_if (ltb s.max_size (length payload)) payload_too_large
    lifetime' ← normalize_lifetime s lifetime
    (t, burn_verifier) ← verify_ticket P c.verify_faults c.verified_at ticket path_id burn_token db
    let metadata : Metadata = record {
      burn_verifier = burn_verifier;
      created_at = c.created_at;
      expires_at = add c.created_at lifetime';
    }
    metadata_bytes ← from_option (P.marshal_metadata metadata) marshal_failed
    marker_bytes ← from_option (P.marshal_marker (record { expires_at = t.exp })) marshal_failed
    ok (record {
      id = t.id;
      metadata_bytes = metadata_bytes;
      payload = payload;
      marker_bytes = marker_bytes;
    })

  -- bbolt's `ErrMaxSizeReached` is reported as `ErrStorageFull`.
  unfoldable pub report : Bytes → Result (Unit {0}) × Db P.Bucket → Result Bytes × Db P.Bucket
  report id (ok _, db) = (ok id, db)
  report id (err (bolt max_size_reached), db) = (err storage_full, db)
  report id (err e, db) = (err e, db)

  -- After the cleanup, whose error is returned as it is, one more attempt.
  unfoldable pub second_attempt :
      Circumstances → Draft → Result (Unit {0}) × Db P.Bucket → Result Bytes × Db P.Bucket
  second_attempt c d (err e, db) = (err e, db)
  second_attempt c d (ok _, db) = report d.id (create_once c.second_faults d db)

  -- After the first attempt.
  unfoldable pub retry :
      Limits → Circumstances → Draft → Result (Unit {0}) × Db P.Bucket → Result Bytes × Db P.Bucket
  retry s c d (ok _, db) = report d.id (ok tt, db)
  retry s c d (err e, db) =
      if is_storage_full e
      then second_attempt c d (cleanup P s c.cleanup_faults c.cleaned_at db)
      else report d.id (err e, db)

  unfoldable pub create_note :
      Limits
      → Circumstances
      → Bytes
      → Bytes
      → Bytes
      → Bytes
      → Duration
      → Db P.Bucket
      → Result Bytes × Db P.Bucket
  create_note s c path_id ticket burn_token payload lifetime db =
      elim (prepare s c path_id ticket burn_token payload lifetime db) [
        | err e ↦ (err e, db)
        | ok d ↦ retry s c d (create_once c.first_faults d db)
      ]
