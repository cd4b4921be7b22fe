-- ===== src/History/WellFormed.antt =====
-- What holds of the database after any transactions: the two records of a note come and go together,
-- under keys of 32 bytes, and the root key, once it is there, stays.
use one_time_note.Base.{subst, ◌≡◌, sym, ap, length, arith}
use one_time_note.Base.Text.{Bytes, eq_of_bytes_eq, is_some}
use one_time_note.Clock.{Time}
use one_time_note.Platform.{Platform}
use one_time_note.Database.{Db, Faults}
use one_time_note.RootKey.{ensure_in_tx, ensure_root_keys}
use one_time_note.NoteService.{Limits, delete_note_records}
use one_time_note.NoteService.Cleanup.Sweeping.{HasIdKeys, Sweeps, cleanup_cases}
use one_time_note.NoteService.Open.{open_note, open_in_tx, open_valid, burn}
use one_time_note.NoteService.Create.{Draft, create_in_tx, create_once}
use one_time_note.History.{State, Step, attempted, opened, cleaned, keyed, Reach, here, next}

module _ (P : Platform) (s : Limits) where
  pub record WellFormed (db : Db P.Bucket) : Type 0 where
    pub id_keys : HasIdKeys P db
    pub paired : (k : Bytes) → is_some (P.get db.metadata k) ≡ is_some (P.get db.payloads k)

  module _ (db : Db P.Bucket) (w : WellFormed db) where
    create_once-id_keys :
        (faults : Faults) (d : Draft) → length d.id ≡ 32 → HasIdKeys P (create_once P faults d db).1
    unfolding create_once create_in_tx
    create_once-id_keys faults d l k v h =
        ground (
          arith,
          P.get-put db.metadata d.id d.metadata_bytes k,
          eq_of_bytes_eq d.id k,
          w.id_keys k v,
        )

    create_once-paired :
        (faults : Faults) (d : Draft) (k : Bytes)
        → is_some (P.get (create_once P faults d db).1.metadata k)
          ≡ is_some (P.get (create_once P faults d db).1.payloads k)
    unfolding create_once create_in_tx
    create_once-paired faults d k = ground (
      arith,
      P.get-put db.metadata d.id d.metadata_bytes k,
      P.get-put db.payloads d.id d.payload k,
      w.paired k,
    )

    open_note-WellFormed :
        (faults : Faults) (now : Time) (id token : Bytes)
        → WellFormed (open_note P s faults now id token db).1
    unfolding open_note open_in_tx open_valid burn delete_note_records
    open_note-WellFormed faults now id token = record {
      id_keys = λ k v h. ground (arith, P.get-delete db.metadata id k, w.id_keys k v);
      paired = λ k.
          ground (arith, P.get-delete db.metadata id k, P.get-delete db.payloads id k, w.paired k);
    }

    Sweeps-WellFormed :
        (faults : Faults) (now : Time) (db' : Db P.Bucket)
        → Sweeps P s faults now db db'
        → WellFormed db'
    Sweeps-WellFormed faults now db' sw = record {
      id_keys = λ k v h.
          let e = ap (λ (d : Db P.Bucket). P.get d.metadata k) sw.swept in
          ground (arith, e, sw.deleted.metadata k, w.id_keys k v);
      paired = λ k.
          let e = ap (λ (d : Db P.Bucket). P.get d.metadata k) sw.swept in
          let f = ap (λ (d : Db P.Bucket). P.get d.payloads k) sw.swept in
          ground (arith, e, f, sw.deleted.metadata k, sw.deleted.payloads k, w.paired k);
    }

    ensure_root_keys-WellFormed :
        (faults : Faults) (now : Time) (secret : Bytes)
        → WellFormed (ensure_root_keys P faults now secret db).1
    unfolding ensure_root_keys ensure_in_tx
    ensure_root_keys-WellFormed faults now secret = record {
      id_keys = λ k v h. ground (arith, w.id_keys k v);
      paired = λ k. ground (arith, w.paired k);
    }

  Step-WellFormed : {x y : State P} → Step P s x y → WellFormed x.db → WellFormed y.db
  Step-WellFormed {x} {y} (attempted faults d l _ e) w = subst WellFormed (sym e) (record {
    id_keys = create_once-id_keys x.db w faults d l;
    paired = create_once-paired x.db w faults d;
  })
  Step-WellFormed {x} {y} (opened faults now id token _ _ _ e) w =
      subst WellFormed (sym e) (open_note-WellFormed x.db w faults now id token)
  Step-WellFormed {x} {y} (cleaned faults now _ _ e) w =
      subst WellFormed (sym e)
        (cleanup_cases P s faults now x.db WellFormed w (Sweeps-WellFormed x.db w faults now))
  Step-WellFormed {x} {y} (keyed faults now secret _ e) w =
      subst WellFormed (sym e) (ensure_root_keys-WellFormed x.db w faults now secret)

  -- Whatever transactions run, if at first each metadata record stands under a key of 32 bytes, and an
  -- ID has a metadata record exactly if it has a payload, then this holds at the end.
  pub Reach-WellFormed : {x y : State P} → Reach P s x y → WellFormed x.db → WellFormed y.db
  Reach-WellFormed here w = w
  Reach-WellFormed (next r step) w = Step-WellFormed step (Reach-WellFormed r w)
