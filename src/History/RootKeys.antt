-- ===== src/History/RootKeys.antt =====
-- The root key, once it is there, stays.
use one_time_note.Base.{◌≡◌, sym, ap, ◌∙◌, subst, arith}
use one_time_note.Base.Text.{Bytes}
use one_time_note.Clock.{Time}
use one_time_note.Errors.{ok}
use one_time_note.Records.{RootKeyRecord}
use one_time_note.Platform.{Platform}
use one_time_note.Database.{Db, Faults}
use one_time_note.RootKey.{get_root_key, ensure_in_tx, ensure_root_keys}
use one_time_note.NoteService.{Limits, delete_note_records}
use one_time_note.NoteService.Cleanup.Sweeping.{Sweeps, cleanup_cases}
use one_time_note.NoteService.Open.{open_note, open_in_tx, open_valid, burn}
use one_time_note.NoteService.Create.{Draft, create_in_tx, create_once}
use one_time_note.History.{State, Step, attempted, opened, cleaned, keyed, Reach, here, next}

module _ (P : Platform) (s : Limits) (r : RootKeyRecord) where
  abbrev pub HasKey : Db P.Bucket → Type 0
  HasKey db = get_root_key P db.root_keys ≡ ok r

  module _ (db : Db P.Bucket) (h : HasKey db) where
    create_once-HasKey : (faults : Faults) (d : Draft) → HasKey (create_once P faults d db).1
    unfolding create_once create_in_tx
    create_once-HasKey faults d = ground (arith, h)

    open_note-HasKey :
        (faults : Faults) (now : Time) (id token : Bytes)
        → HasKey (open_note P s faults now id token db).1
    unfolding open_note open_in_tx open_valid burn delete_note_records
    open_note-HasKey faults now id token = ground (arith, h)

    Sweeps-HasKey :
        (faults : Faults) (now : Time) (db' : Db P.Bucket)
        → Sweeps P s faults now db db'
        → HasKey db'
    Sweeps-HasKey faults now db' w =
        ap (λ (d : Db P.Bucket). get_root_key P d.root_keys) w.swept
        ∙ ap (get_root_key P) w.deleted.root_keys
        ∙ h

    ensure_root_keys-HasKey :
        (faults : Faults) (now : Time) (secret : Bytes)
        → HasKey (ensure_root_keys P faults now secret db).1
    unfolding ensure_root_keys ensure_in_tx get_root_key
    ensure_root_keys-HasKey faults now secret = ground (arith, h)

  Step-HasKey : {x y : State P} → Step P s x y → HasKey x.db → HasKey y.db
  Step-HasKey {x} {y} (attempted faults d _ _ e) h =
      subst HasKey (sym e) (create_once-HasKey x.db h faults d)
  Step-HasKey {x} {y} (opened faults now id token _ _ _ e) h =
      subst HasKey (sym e) (open_note-HasKey x.db h faults now id token)
  Step-HasKey {x} {y} (cleaned faults now _ _ e) h =
      subst HasKey (sym e)
        (cleanup_cases P s faults now x.db HasKey h (Sweeps-HasKey x.db h faults now))
  Step-HasKey {x} {y} (keyed faults now secret _ e) h =
      subst HasKey (sym e) (ensure_root_keys-HasKey x.db h faults now secret)

  -- Whatever transactions run, those of later starts included, a root key that is there and can be
  -- read stays the same.
  pub Reach-HasKey : {x y : State P} → Reach P s x y → HasKey x.db → HasKey y.db
  Reach-HasKey here h = h
  Reach-HasKey (next reach step) h = Step-HasKey step (Reach-HasKey reach h)
