-- ===== src/Concurrent/Keeping.antt =====
-- What a transaction that is about another note leaves as it is for the note of an ID.
use one_time_note.Base.{◌≤◌, ◌≡◌, ◌≢◌, ap, some, arith}
use one_time_note.Base.Text.{Bytes, eq_of_bytes_eq}
use one_time_note.Clock.{Time}
use one_time_note.Platform.{Platform}
use one_time_note.Database.{Db, Faults}
use one_time_note.NoteService.{Limits, delete_note_records}
use one_time_note.NoteService.Cleanup.{cleanup}
use one_time_note.NoteService.Cleanup.Sweeping.{Sweeps, cleanup_cases}
use one_time_note.NoteService.Open.{open_note, open_in_tx, open_valid, burn}
use one_time_note.NoteService.Create.{Draft, create_once, create_in_tx}
use one_time_note.History.Markers.{IsUsed, create_once-used, open_note-used, cleanup-used}
use one_time_note.History.Burned.{IsGone, open_note-IsGone, Sweeps-IsGone}

module _ (P : Platform) (s : Limits) (id : Bytes) (until : Time) where
  -- Nothing is stored under the ID, and its marker stays.
  pub record Keeps (db db' : Db P.Bucket) : Type 0 where
    pub gone : IsGone P s id db → IsGone P s id db'
    pub payload : (p : Bytes) → P.get db'.payloads id ≡ some p → P.get db.payloads id ≡ some p
    pub used : (b : Bytes) → IsUsed P s id b until db → IsUsed P s id b until db'

  pub Keeps-refl : (db : Db P.Bucket) → Keeps db db
  Keeps-refl db = record { gone = λ h. h; payload = λ p h. h; used = λ b u. u }

  module _ (db : Db P.Bucket) where
    -- The marker is there as before.
    still-IsUsed :
        (db' : Db P.Bucket) (b : Bytes)
        → IsUsed P s id b until db
        → P.get db'.used_tickets id ≡ some b
        → IsUsed P s id b until db'
    still-IsUsed db' b u stored = record {
      marker = u.marker;
      stored = stored;
      read = u.read;
      kept = u.kept;
    }

    module _ (faults : Faults) (d : Draft) (other : d.id ≢ id) where
      create_once-IsGone_other : IsGone P s id db → IsGone P s id (create_once P faults d db).1
      unfolding create_once create_in_tx
      create_once-IsGone_other h =
          ground (arith, P.get-put db.metadata d.id d.metadata_bytes id, eq_of_bytes_eq d.id id)

      create_once-payload_other :
          (p : Bytes)
          → P.get (create_once P faults d db).1.payloads id ≡ some p
          → P.get db.payloads id ≡ some p
      unfolding create_once create_in_tx
      create_once-payload_other p h =
          ground (arith, P.get-put db.payloads d.id d.payload id, eq_of_bytes_eq d.id id)

      pub create_once-Keeps : Keeps db (create_once P faults d db).1
      create_once-Keeps = record {
        gone = create_once-IsGone_other;
        payload = create_once-payload_other;
        used = λ b u.
            still-IsUsed _ b u (create_once-used P s id b u.marker u.read db u.stored faults d);
      }

    module _ (faults : Faults) (now : Time) where
      open_note-payload :
          (i token p : Bytes)
          → P.get (open_note P s faults now i token db).1.payloads id ≡ some p
          → P.get db.payloads id ≡ some p
      unfolding open_note open_in_tx open_valid burn delete_note_records
      open_note-payload i token p h = ground (arith, P.get-delete db.payloads i id)

      pub open_note-Keeps : (i token : Bytes) → Keeps db (open_note P s faults now i token db).1
      open_note-Keeps i token = record {
        gone = λ h. open_note-IsGone P s id db h faults now i token;
        payload = open_note-payload i token;
        used = λ b u.
            still-IsUsed _ b u
              (open_note-used P s id b u.marker u.read db u.stored faults now i token);
      }

      Sweeps-payload :
          (db' : Db P.Bucket)
          → Sweeps P s faults now db db'
          → (p : Bytes) → P.get db'.payloads id ≡ some p
          → P.get db.payloads id ≡ some p
      Sweeps-payload db' w p h =
          let e = ap (λ (d : Db P.Bucket). P.get d.payloads id) w.swept in
          ground (arith, e, w.deleted.payloads id)

      pub cleanup-Keeps : now ≤ until → Keeps db (cleanup P s faults now db).1
      cleanup-Keeps before = record {
        gone = λ h.
            cleanup_cases P s faults now db (IsGone P s id) h
              (Sweeps-IsGone P s id db h faults now);
        payload =
            cleanup_cases P s faults now db
              (λ db'. (p : Bytes) → P.get db'.payloads id ≡ some p → P.get db.payloads id ≡ some p)
              (λ p h. h) Sweeps-payload;
        used = λ b u.
            still-IsUsed _ b u (
              cleanup-used P s id b u.marker u.read db u.stored faults now (omega (arith, u.kept)));
      }
