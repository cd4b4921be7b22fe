-- ===== src/NoteService/Open/Returning.antt =====
-- When `OpenNote` returns a note, and when it leaves the store alone.
use one_time_note.Base.{◌≡◌, ◌≢◌, ◌<◌, ◌≤◌, none, some, arith}
use one_time_note.Base.Text.{Bytes, bytes_eq_refl, eq_of_bytes_eq}
use one_time_note.BurnToken.{burn_token_verifier}
use one_time_note.Clock.{Time}
use one_time_note.Errors.{note_open_failed, ok, err}
use one_time_note.Records.{Note, RootKeyRecord}
use one_time_note.Platform.{Platform}
use one_time_note.Database.{Db, Faults, IsQuiet, payload_bucket, metadata_bucket}
use one_time_note.RootKey.{get_root_key}
use one_time_note.NoteService.{Limits, delete_note_records}
use one_time_note.NoteService.Validity.{IsValid, IsValid-valid_metadata}
use one_time_note.NoteService.Open.{burn, open_valid, open_in_tx, open_note}

module _ (P : Platform) (s : Limits) where
  -- A note that the database holds with valid metadata, and the verifier of a burn token.
  pub record Holds (db : Db P.Bucket) (id burn_token : Bytes) (note : Note) (verifier : Bytes)
      : Type 0 where
    pub metadata_bytes : Bytes
    pub root_key : RootKeyRecord
    pub metadata : P.get db.metadata id ≡ some metadata_bytes
    pub payload : P.get db.payloads id ≡ some note.payload
    pub read : P.unmarshal_metadata metadata_bytes ≡ some note.metadata
    pub valid : IsValid s note.metadata
    pub key : get_root_key P db.root_keys ≡ ok root_key
    pub derived : burn_token_verifier P root_key.secret burn_token ≡ ok verifier

  module _ (faults : Faults) (now : Time) (id burn_token : Bytes) (db : Db P.Bucket) (note : Note)
      (verifier : Bytes) (h : Holds db id burn_token note verifier) where
    -- With the right burn token, not after the note's expiry, and with a database that works, the
    -- note is returned.
    pub open_note-returns :
        IsQuiet faults
        → verifier ≡ note.metadata.burn_verifier
        → now ≤ note.metadata.expires_at
        → (open_note P s faults now id burn_token db).0 ≡ ok note
    unfolding open_note open_in_tx open_valid burn delete_note_records
    open_note-returns q e t = ground (
      arith,
      h.metadata,
      h.payload,
      h.read,
      h.key,
      h.derived,
      IsValid-valid_metadata s note.metadata h.valid,
      bytes_eq_refl note.metadata.burn_verifier,
      q.begins,
      q.commits,
      q.deletes payload_bucket id,
      q.deletes metadata_bucket id,
    )

    -- Where the database holds a note with valid metadata and a root key that can be read: with a burn
    -- token of another verifier no note is returned and nothing changes, whatever the clock shows and
    -- whatever fails.
    pub open_note_refused :
        verifier ≢ note.metadata.burn_verifier
        → ((n : Note) → (open_note P s faults now id burn_token db).0 ≢ ok n)
          × ((open_note P s faults now id burn_token db).1 ≡ db)
    unfolding open_note open_in_tx open_valid burn delete_note_records
    open_note_refused e = (
      (λ n o. ground (
        arith,
        h.metadata,
        h.payload,
        h.read,
        h.key,
        h.derived,
        IsValid-valid_metadata s note.metadata h.valid,
        eq_of_bytes_eq verifier note.metadata.burn_verifier,
      )),
      ground (
        arith,
        h.metadata,
        h.payload,
        h.read,
        h.key,
        h.derived,
        IsValid-valid_metadata s note.metadata h.valid,
        eq_of_bytes_eq verifier note.metadata.burn_verifier,
      ),
    )

    -- Where the database holds a note with valid metadata and a root key that can be read, and no call
    -- of bbolt fails: after the note's expiry the right burn token gets `ErrNoteOpenFailed`, and the
    -- note's records are deleted.
    pub open_note_expired :
        IsQuiet faults
        → verifier ≡ note.metadata.burn_verifier
        → note.metadata.expires_at < now
        → ((open_note P s faults now id burn_token db).0 ≡ err note_open_failed)
          × (P.get (open_note P s faults now id burn_token db).1.metadata id ≡ none)
          × (P.get (open_note P s faults now id burn_token db).1.payloads id ≡ none)
    unfolding open_note open_in_tx open_valid burn delete_note_records
    open_note_expired q e t = ground (
      arith,
      h.metadata,
      h.payload,
      h.read,
      h.key,
      h.derived,
      IsValid-valid_metadata s note.metadata h.valid,
      bytes_eq_refl note.metadata.burn_verifier,
      bytes_eq_refl id,
      q.begins,
      q.commits,
      q.deletes payload_bucket id,
      q.deletes metadata_bucket id,
      P.get-delete db.metadata id id,
      P.get-delete db.payloads id id,
    )
