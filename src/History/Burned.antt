-- ===== src/History/Burned.antt =====
-- A note that has been opened stays gone.
use one_time_note.Base.{◌≤◌, ◌≡◌, ◌≢◌, sym, ap, subst, some, none, arith}
use one_time_note.Base.Text.{Bytes, eq_of_bytes_eq}
use one_time_note.Clock.{Time}
use one_time_note.Errors.{ok}
use one_time_note.Records.{Note}
use one_time_note.Platform.{Platform}
use one_time_note.Database.{Db, Faults}
use one_time_note.RootKey.{ensure_in_tx, ensure_root_keys}
use one_time_note.NoteService.{Limits, delete_note_records}
use one_time_note.NoteService.Cleanup.Sweeping.{Sweeps, cleanup_cases}
use one_time_note.NoteService.Open.{open_note, open_in_tx, open_valid, burn}
use one_time_note.NoteService.Open.Burning.{open_note-deletes}
use one_time_note.NoteService.Create.{Draft, create_in_tx, create_once}
use one_time_note.History.{State, Step, attempted, opened, cleaned, keyed, Reach, here, next}
use one_time_note.History.Markers.{IsUsed, Step-clock, Reach-IsUsed}

module _ (P : Platform) (s : Limits) (id : Bytes) where
  abbrev pub IsGone : Db P.Bucket → Type 0
  IsGone db = P.get db.metadata id ≡ none

  module _ (db : Db P.Bucket) (h : IsGone db) where
    create_once-IsGone :
        (faults : Faults) (d : Draft) (marker_bytes : Bytes)
        → P.get db.used_tickets id ≡ some marker_bytes
        → IsGone (create_once P faults d db).1
    unfolding create_once create_in_tx
    create_once-IsGone faults d b used =
        ground (arith, P.get-put db.metadata d.id d.metadata_bytes id, eq_of_bytes_eq d.id id)

    pub open_note-IsGone :
        (faults : Faults) (now : Time) (i token : Bytes)
        → IsGone (open_note P s faults now i token db).1
    unfolding open_note open_in_tx open_valid burn delete_note_records
    open_note-IsGone faults now i token = ground (arith, P.get-delete db.metadata i id)

    pub Sweeps-IsGone :
        (faults : Faults) (now : Time) (db' : Db P.Bucket)
        → Sweeps P s faults now db db'
        → IsGone db'
    Sweeps-IsGone faults now db' w =
        let e = ap (λ (d : Db P.Bucket). P.get d.metadata id) w.swept in
        ground (arith, e, w.deleted.metadata id)

    ensure_root_keys-IsGone :
        (faults : Faults) (now : Time) (secret : Bytes)
        → IsGone (ensure_root_keys P faults now secret db).1
    unfolding ensure_root_keys ensure_in_tx
    ensure_root_keys-IsGone faults now secret = ground arith

    pub open_note-gone :
        (faults : Faults) (now : Time) (token : Bytes) (note : Note)
        → (open_note P s faults now id token db).0 ≢ ok note
    unfolding open_note open_in_tx
    open_note-gone faults now token note = ground arith

  Step-IsGone :
      {x y : State P} (marker_bytes : Bytes) (until : Time)
      → Step P s x y
      → IsUsed P s id marker_bytes until x.db
      → IsGone x.db
      → IsGone y.db
  Step-IsGone {x} b until (attempted faults d _ _ e) u h =
      subst IsGone (sym e) (create_once-IsGone x.db h faults d b u.stored)
  Step-IsGone {x} b until (opened faults now i token _ _ _ e) u h =
      subst IsGone (sym e) (open_note-IsGone x.db h faults now i token)
  Step-IsGone {x} b until (cleaned faults now _ _ e) u h =
      subst IsGone (sym e)
        (cleanup_cases P s faults now x.db IsGone h (Sweeps-IsGone x.db h faults now))
  Step-IsGone {x} b until (keyed faults now secret _ e) u h =
      subst IsGone (sym e) (ensure_root_keys-IsGone x.db h faults now secret)

  Reach-IsGone :
      {x y : State P} (marker_bytes : Bytes) (until : Time)
      → Reach P s x y
      → y.clock ≤ until
      → IsUsed P s id marker_bytes until x.db
      → IsGone x.db
      → IsGone y.db
  Reach-IsGone b until here t u h = h
  Reach-IsGone b until (next {y = m} reach step) t u h =
      let before : m.clock ≤ until = omega (arith, Step-clock P s step) in
      Step-IsGone b until step (Reach-IsUsed P s id b until reach before u)
        (Reach-IsGone b until reach before u h)

  -- A note is returned once at most: after a call that returned it, and whatever transactions have run
  -- since, no call returns a note of that ID, whatever its burn token, as long as the ticket's marker
  -- has not expired.
  pub open_note_once :
      (f g : Faults) (t u : Time) (burn_token burn_token' : Bytes) (db : Db P.Bucket)
      (y z : State P) (note note' : Note) (marker_bytes : Bytes) (until : Time)
      → open_note P s f t id burn_token db ≡ (ok note, y.db)
      → IsUsed P s id marker_bytes until y.db
      → Reach P s y z
      → z.clock ≤ until
      → (open_note P s g u id burn_token' z.db).0 ≢ ok note'
  open_note_once f g t u burn_token burn_token' db y z note note' b until first used reach late =
      open_note-gone z.db
        (Reach-IsGone b until reach late used
          (open_note-deletes P s f t id burn_token db y.db note first).1)
        g u burn_token' note'
