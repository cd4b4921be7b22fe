-- ===== src/NoteService/Cleanup.antt =====
-- `Cleanup` and `StartupMaintenance` of note_service.go.
pub mod Keys
pub mod Deleting
pub mod Sweeping
pub mod Survivors
use one_time_note.Base.{Bool, true, not, ◌||◌, List, [], ◌∷◌, none, some, if◌then◌else◌}
use one_time_note.Base.Text.{Bytes}
use one_time_note.Clock.{Time, before}
use one_time_note.Errors.{Result, ok, err, ◌>>=◌}
use one_time_note.Platform.{Platform}
use one_time_note.Database.{used_tickets_bucket, Db, Faults, update}
use one_time_note.RootKey.{ensure_root_keys}
use one_time_note.NoteService.{Limits, valid_metadata, copy_id, delete_note_records}

-- The keys of the pairs that a test picks, in the order in which `ForEach` visits them.
unfoldable pub keys_where : (Bytes → Bool) → List (Bytes × Bytes) → List Bytes
keys_where test [] = []
keys_where test ((k, v) ∷ rest) =
    let keys = keys_where test rest in if test v then k ∷ keys else keys

module _ (P : Platform) where
  unfoldable pub is_stale_metadata : Limits → Time → Bytes → Bool
  is_stale_metadata s now v = elim (P.unmarshal_metadata v) [
    | none ↦ true
    | some item ↦ not (valid_metadata s item) || before item.expires_at now
  ]

  unfoldable pub is_expired_marker : Time → Bytes → Bool
  is_expired_marker now v = elim (P.unmarshal_marker v) [
    | none ↦ true
    | some marker ↦ before marker.expires_at now
  ]

  unfoldable pub delete_notes : Faults → List Bytes → Db P.Bucket → Result (Db P.Bucket)
  delete_notes faults [] db = ok db
  delete_notes faults (key ∷ keys) db = do
    db' ← delete_note_records P faults db (copy_id key)
    delete_notes faults keys db'

  -- `_ = usedTickets.Delete(key)`: a deletion that fails is passed over.
  unfoldable pub delete_tickets : Faults → List Bytes → P.Bucket → P.Bucket
  delete_tickets faults [] bucket = bucket
  delete_tickets faults (key ∷ keys) bucket = elim (faults.at_delete used_tickets_bucket key) [
    | none ↦ delete_tickets faults keys (P.delete bucket key)
    | some _ ↦ delete_tickets faults keys bucket
  ]

  unfoldable pub cleanup_in_tx :
      Limits → Faults → Time → Db P.Bucket → Result (Unit {0} × Db P.Bucket)
  cleanup_in_tx s faults now db = do
    db' ← delete_notes faults (keys_where (is_stale_metadata s now) (P.entries db.metadata)) db
    let expired = keys_where (is_expired_marker now) (P.entries db'.used_tickets)
    ok (tt, record db' { used_tickets = delete_tickets faults expired db'.used_tickets })

  unfoldable pub cleanup : Limits → Faults → Time → Db P.Bucket → Result (Unit {0}) × Db P.Bucket
  cleanup s faults now db = update faults (cleanup_in_tx s faults now) db

  -- The readings of the clock and the faults of its two transactions.
  unfoldable pub startup_maintenance :
      Limits
      → (Faults × Faults)
      → (Time × Time)
      → Bytes
      → Db P.Bucket
      → Result (Unit {0}) × Db P.Bucket
  startup_maintenance s (f, g) (t, u) secret db =
      let (r, db') = ensure_root_keys P f t secret db in
      elim r [ err e ↦ (err e, db') | ok _ ↦ cleanup s g u db' ]
