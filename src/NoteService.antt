-- ===== src/NoteService.antt =====
-- note_service.go: notes that can be opened once. Here stand the limits and the tests that the
-- operations share; the operations are in the modules below. The service's state is the database, and
-- each reading of the clock is an argument.
pub mod Validity
pub mod Cleanup
pub mod Open
pub mod Create
use one_time_note.Base.{
  ℕ, ◌*◌, Bool, true, false, not, ◌||◌, ◌++◌, ◌==◌, length, take, replicate, if◌then◌else◌,
}
use one_time_note.Base.Text.{Bytes}
use one_time_note.Base.Int.{pos, ltb_ℤ}
use one_time_note.BurnToken.{burn_verifier_len}
use one_time_note.Clock.{Duration, hour, is_zero, after, sub}
use one_time_note.Errors.{
  max_size_reached, Error, storage_full, lifetime_invalid, bolt, Result, ok, err, ◌>>=◌, ◌>>◌,
  check_fault,
}
use one_time_note.NoteId.{note_id_len}
use one_time_note.Records.{Metadata}
use one_time_note.Platform.{Platform}
use one_time_note.Database.{payload_bucket, metadata_bucket, Db, Faults}

abbrev pub min_note_lifetime : ℕ
min_note_lifetime = hour

abbrev pub max_note_lifetime : ℕ
max_note_lifetime = 14 * 24 * hour

-- The fields of `NoteService` that do not change.
pub record Limits : Type 0 where
  pub max_lifetime : ℕ
  pub max_size : ℕ

unfoldable pub new_limits : ℕ → Limits
new_limits max_size = record { max_lifetime = max_note_lifetime; max_size = max_size }

unfoldable pub normalize_lifetime : Limits → Duration → Result Duration
normalize_lifetime s lifetime =
    if ltb_ℤ lifetime (pos min_note_lifetime) || ltb_ℤ (pos s.max_lifetime) lifetime
    then err lifetime_invalid
    else ok lifetime

unfoldable pub valid_metadata : Limits → Metadata → Bool
valid_metadata s m =
    if is_zero m.created_at || is_zero m.expires_at
    then false
    else if after m.created_at m.expires_at
        || ltb_ℤ (pos s.max_lifetime) (sub m.expires_at m.created_at)
    then false
    else if not (length m.burn_verifier == burn_verifier_len)
    then false
    else true

unfoldable pub is_storage_full : Error → Bool
is_storage_full storage_full = true
is_storage_full (bolt max_size_reached) = true
is_storage_full _ = false

-- `var id NoteID; copy(id[:], key)`: the first 32 bytes of the key, with zeros behind a shorter one.
unfoldable pub copy_id : Bytes → Bytes
copy_id key = take note_id_len (key ++ replicate note_id_len 0)

module _ (P : Platform) where
  unfoldable pub delete_note_records : Faults → Db P.Bucket → Bytes → Result (Db P.Bucket)
  delete_note_records faults db id = do
    check_fault (faults.at_delete payload_bucket id)
    check_fault (faults.at_delete metadata_bucket id)
    ok (record db { payloads = P.delete db.payloads id; metadata = P.delete db.metadata id })
