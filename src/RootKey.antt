-- ===== src/RootKey.antt =====
-- root_key.go: the secret from which the server derives its keys, created at the first start.
use one_time_note.Base.{Bool, not, ◌||◌, none, some, ◌==◌, length}
use one_time_note.Base.Text.{Bytes, codes}
use one_time_note.Clock.{Time, is_zero}
use one_time_note.Errors.{
  Result, ok, root_key_not_found, root_key_unreadable, root_key_invalid, root_key_record_invalid,
  marshal_failed, ◌>>=◌, ◌>>◌, fail_if, from_option, check_fault,
}
use one_time_note.Records.{RootKeyRecord}
use one_time_note.Platform.{Platform}
use one_time_note.Database.{Db, Faults, root_keys_bucket, update}

abbrev pub root_key_storage_key : Bytes
root_key_storage_key = codes "root_key"

abbrev pub is_invalid : RootKeyRecord → Bool
is_invalid r = not (length r.secret == 32) || is_zero r.created_at

module _ (P : Platform) where
  unfoldable pub get_root_key : P.Bucket → Result RootKeyRecord
  get_root_key bucket = do
    content ← from_option (P.get bucket root_key_storage_key) root_key_not_found
    r ← from_option (P.unmarshal_root_key content) root_key_unreadable
    fail_if (is_invalid r) root_key_invalid
    ok r

  unfoldable pub put_root_key : Faults → P.Bucket → RootKeyRecord → Result P.Bucket
  put_root_key faults bucket r = do
    fail_if (is_invalid r) root_key_record_invalid
    content ← from_option (P.marshal_root_key r) marshal_failed
    check_fault (faults.at_put root_keys_bucket root_key_storage_key)
    ok (P.put bucket root_key_storage_key content)

  -- The body of the transaction; `secret` is what `fillRandom` leaves.
  unfoldable pub ensure_in_tx :
      Faults → Time → Bytes → Db P.Bucket → Result (Unit {0} × Db P.Bucket)
  ensure_in_tx faults now secret db = elim (P.get db.root_keys root_key_storage_key) [
    | some _ ↦ (do r ← get_root_key db.root_keys; ok (tt, db))
    | none ↦ (do
      keys ← put_root_key faults db.root_keys (record { created_at = now; secret = secret })
      ok (tt, record db { root_keys = keys }))
  ]

  unfoldable pub ensure_root_keys :
      Faults → Time → Bytes → Db P.Bucket → Result (Unit {0}) × Db P.Bucket
  ensure_root_keys faults now secret db = update faults (ensure_in_tx faults now secret) db
