-- ===== src/Example/Upkeep.antt =====
-- The properties of the cleanup, of the invariants and of the schema version at inputs.
use one_time_note.Base.{
  inr, sym, ap, inl, Bool-cases, ◌*◌, ◌≡◌, ◌↔◌, refl, [], ◌∷◌, none, some, length, arith,
}
use one_time_note.Base.Text.{codes, bytes_eq, eq_of_bytes_eq}
use one_time_note.Clock.{hour}
use one_time_note.Errors.{ok}
use one_time_note.Database.{Db, no_faults}
use one_time_note.Platform.Buckets.{lookup}
use one_time_note.NoteService.Cleanup.{
  cleanup, cleanup_in_tx, delete_notes, delete_tickets, keys_where, is_stale_metadata,
  is_expired_marker,
}
use one_time_note.NoteService.Cleanup.Sweeping.{HasIdKeys, IsAlive}
use one_time_note.NoteService.Cleanup.Survivors.{cleanup_survivors}
use one_time_note.NoteService.{delete_note_records, copy_id, valid_metadata}
use one_time_note.History.{cleaned, next, State, Reach, here}
use one_time_note.History.WellFormed.{WellFormed, Reach-WellFormed}
use one_time_note.History.RootKeys.{HasKey, Reach-HasKey}
use one_time_note.Schema.{encode_uint64, decode_uint64, schema_version, ensure_schema_version}
use one_time_note.Example.Concrete.{concrete, pad, read_times}
use one_time_note.Example.Pairs.{Pairs, visible, without}
use one_time_note.Example.Scenario.{
  limits, empty_db, started_db, created_db, note_id, metadata_bytes, secret, key_stored,
}

-- Five hours after the service started, the note and its ticket have expired.
abbrev swept_db : Db Pairs
swept_db = started_db

swept : cleanup concrete limits no_faults (6 * hour) created_db ≡ (ok tt, swept_db)
unfolding cleanup cleanup_in_tx delete_notes delete_tickets keys_where is_stale_metadata
    is_expired_marker delete_note_records copy_id lookup visible without read_times decode_uint64
    encode_uint64 pad bytes_eq valid_metadata
swept = refl

id_keys : HasIdKeys concrete created_db
unfolding lookup
id_keys k v h = elim (Bool-cases (bytes_eq note_id k)) [
  | inl same ↦ ap length (sym (eq_of_bytes_eq note_id k same))
  | inr other ↦ cc (rw other at h)
]

cleanup_survivors_example :
    ((lookup note_id swept_db.metadata ≡ some metadata_bytes) ↔ (
      (lookup note_id created_db.metadata ≡ some metadata_bytes)
      × IsAlive concrete limits (6 * hour) metadata_bytes))
    × (lookup note_id created_db.metadata ≡ some metadata_bytes
        → IsAlive concrete limits (6 * hour) metadata_bytes
        → lookup note_id swept_db.payloads ≡ lookup note_id created_db.payloads)
    × (lookup note_id created_db.metadata ≡ some metadata_bytes
        → ¬ (IsAlive concrete limits (6 * hour) metadata_bytes)
        → lookup note_id swept_db.payloads ≡ none)
cleanup_survivors_example =
    cleanup_survivors concrete limits no_faults (6 * hour) created_db swept_db swept id_keys note_id
      (omega arith) metadata_bytes

abbrev versioned_db : Db Pairs
versioned_db = record empty_db { config = (codes "schema_version", encode_uint64 1) ∷ [] }

accepted : ensure_schema_version concrete no_faults empty_db ≡ ok (tt, versioned_db)
unfolding ensure_schema_version schema_version encode_uint64 decode_uint64 lookup
accepted = refl

abbrev now_created : State concrete
now_created = record { clock = 3 * hour; db = created_db }

abbrev now_swept : State concrete
now_swept = record {
  clock = 6 * hour;
  db = (cleanup concrete limits no_faults (6 * hour) created_db).1;
}

sweep : Reach concrete limits now_created now_swept
sweep = next here (cleaned no_faults (6 * hour) (omega arith) (omega arith) refl)

created-WellFormed : WellFormed concrete limits created_db
unfolding lookup
created-WellFormed = record { id_keys = id_keys; paired = λ k. ground arith }

Reach-WellFormed_example : WellFormed concrete limits now_swept.db
Reach-WellFormed_example =
    Reach-WellFormed concrete limits {x = now_created} {y = now_swept} sweep created-WellFormed

Reach-HasKey_example :
    HasKey concrete limits (record { created_at = hour; secret = secret }) now_swept.db
Reach-HasKey_example =
    Reach-HasKey concrete limits (record { created_at = hour; secret = secret }) {x = now_created}
      {y = now_swept} sweep key_stored
