-- ===== src/NoteService/Open.antt =====
-- `OpenNote` of note_service.go.
pub mod Burning
pub mod Returning
use one_time_note.Base.{not, Option, none, some, if◌then◌else◌}
use one_time_note.Base.Text.{Bytes, bytes_eq}
use one_time_note.BurnToken.{burn_token_verifier}
use one_time_note.Clock.{Time, before}
use one_time_note.Errors.{note_open_failed, Result, ok, err, ◌>>=◌}
use one_time_note.Records.{Metadata, Note}
use one_time_note.Platform.{Platform}
use one_time_note.Database.{Db, Faults, update}
use one_time_note.RootKey.{get_root_key}
use one_time_note.NoteService.{Limits, valid_metadata, delete_note_records}

module _ (P : Platform) where
  -- The records are deleted, and `note` is what the caller gets.
  unfoldable pub burn :
      Faults → Db P.Bucket → Bytes → Option Note → Result (Option Note × Db P.Bucket)
  burn faults db id note = do db' ← delete_note_records P faults db id; ok (note, db')

  unfoldable pub open_valid :
      Faults
      → Time
      → Bytes
      → Bytes
      → Bytes
      → Metadata
      → Db P.Bucket
      → Result (Option Note × Db P.Bucket)
  open_valid faults now id burn_token payload metadata db = do
    root_key ← get_root_key P db.root_keys
    verifier ← burn_token_verifier P root_key.secret burn_token
    if not (bytes_eq verifier metadata.burn_verifier)
        then ok (none, db)
        else if before metadata.expires_at now
        then burn faults db id none
        else burn faults db id (some (record { payload = payload; metadata = metadata }))

  unfoldable pub open_in_tx :
      Limits → Faults → Time → Bytes → Bytes → Db P.Bucket → Result (Option Note × Db P.Bucket)
  open_in_tx s faults now id burn_token db = elim (P.get db.metadata id) [
    | none ↦ ok (none, db)
    | some metadata_bytes ↦ elim (P.get db.payloads id) [
      | none ↦ ok (none, db)
      | some payload ↦ elim (P.unmarshal_metadata metadata_bytes) [
        | none ↦ burn faults db id none
        | some metadata ↦
            if not (valid_metadata s metadata)
            then burn faults db id none
            else open_valid faults now id burn_token payload metadata db
      ]
    ]
  ]

  abbrev pub note_or_failed : Result (Option Note) → Result Note
  note_or_failed (err e) = err e
  note_or_failed (ok none) = err note_open_failed
  note_or_failed (ok (some note)) = ok note

  unfoldable pub open_note :
      Limits → Faults → Time → Bytes → Bytes → Db P.Bucket → Result Note × Db P.Bucket
  open_note s faults now id burn_token db =
      let (r, db') = update faults (open_in_tx s faults now id burn_token) db in
      (note_or_failed r, db')
