-- ===== src/NoteService/Open/Burning.antt =====
-- What `OpenNote` does with the note's records: a note that is returned is burned.
use one_time_note.Base.{◌≡◌, ◌≢◌, none, some, arith}
use one_time_note.Base.Text.{Bytes, bytes_eq_refl, eq_of_bytes_eq}
use one_time_note.Clock.{Time}
use one_time_note.Errors.{ok}
use one_time_note.Records.{Note}
use one_time_note.Platform.{Platform}
use one_time_note.Database.{Db, Faults}
use one_time_note.NoteService.{Limits, delete_note_records}
use one_time_note.NoteService.Open.{burn, open_valid, open_in_tx, open_note}

module _ (P : Platform) (s : Limits) (faults : Faults) (now : Time) (id burn_token : Bytes) where
  -- A note that is returned was stored, and its records are gone.
  pub open_note-deletes :
      (db db' : Db P.Bucket) (note : Note)
      → open_note P s faults now id burn_token db ≡ (ok note, db')
      → (P.get db.payloads id ≡ some note.payload)
        × (P.get db'.metadata id ≡ none)
        × (P.get db'.payloads id ≡ none)
  unfolding open_note open_in_tx open_valid burn delete_note_records
  open_note-deletes db db' note h =
      ground
        (arith, P.get-delete db.metadata id id, P.get-delete db.payloads id id, bytes_eq_refl id)

  -- Whatever the outcome, the records of the other notes and the other buckets stay as they are.
  pub open_note-frame :
      (db : Db P.Bucket) (j : Bytes)
      → j ≢ id
      → let db' = (open_note P s faults now id burn_token db).1 in
        (P.get db'.metadata j ≡ P.get db.metadata j)
        × (P.get db'.payloads j ≡ P.get db.payloads j)
        × (db'.used_tickets ≡ db.used_tickets)
        × (db'.root_keys ≡ db.root_keys)
        × (db'.config ≡ db.config)
  unfolding open_note open_in_tx open_valid burn delete_note_records
  open_note-frame db j h =
      ground
        (arith, P.get-delete db.metadata id j, P.get-delete db.payloads id j, eq_of_bytes_eq id j)
