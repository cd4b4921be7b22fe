-- ===== src/History/Markers.antt =====
-- A ticket makes one note at most: the marker of its use stays until the ticket has expired.
use one_time_note.Base.{◌≤◌, ◌≡◌, ap, ◌∙◌, false, some, arith}
use one_time_note.Base.Text.{Bytes, eq_of_bytes_eq}
use one_time_note.Clock.{Time}
use one_time_note.Records.{UsedTicketMarker}
use one_time_note.Platform.{Platform}
use one_time_note.Database.{Db, Faults}
use one_time_note.RootKey.{ensure_in_tx, ensure_root_keys}
use one_time_note.NoteService.{Limits}
use one_time_note.NoteService.Cleanup.{is_expired_marker, cleanup}
use one_time_note.NoteService.Cleanup.Keys.{holds, contains-keys_where}
use one_time_note.NoteService.Cleanup.Deleting.{get-delete_tickets_kept}
use one_time_note.NoteService.Cleanup.Sweeping.{Sweeps, cleanup_cases}
use one_time_note.NoteService.Open.{open_note, open_in_tx, open_valid, burn}
use one_time_note.NoteService.{delete_note_records}
use one_time_note.NoteService.Create.{Draft, create_in_tx, create_once}
use one_time_note.History.{State, Step, attempted, opened, cleaned, keyed, Reach, here, next}

module _ (P : Platform) (s : Limits) where
  -- The marker of a used ticket, and until when it is kept.
  pub record IsUsed (id marker_bytes : Bytes) (until : Time) (db : Db P.Bucket) : Type 0 where
    pub marker : UsedTicketMarker
    pub stored : P.get db.used_tickets id ≡ some marker_bytes
    pub read : P.unmarshal_marker marker_bytes ≡ some marker
    pub kept : until ≤ marker.expires_at

  module _ (id marker_bytes : Bytes) (marker : UsedTicketMarker)
      (read : P.unmarshal_marker marker_bytes ≡ some marker) (db : Db P.Bucket)
      (stored : P.get db.used_tickets id ≡ some marker_bytes) where
    is_expired_marker-false :
        (now : Time) → now ≤ marker.expires_at → is_expired_marker P now marker_bytes ≡ false
    unfolding is_expired_marker
    is_expired_marker-false now t = ground (arith, read)

    pub create_once-used :
        (faults : Faults) (d : Draft)
        → P.get (create_once P faults d db).1.used_tickets id ≡ some marker_bytes
    unfolding create_once create_in_tx
    create_once-used faults d =
        ground (arith, P.get-put db.used_tickets d.id d.marker_bytes id, eq_of_bytes_eq d.id id)

    pub open_note-used :
        (faults : Faults) (now : Time) (i burn_token : Bytes)
        → P.get (open_note P s faults now i burn_token db).1.used_tickets id ≡ some marker_bytes
    unfolding open_note open_in_tx open_valid burn delete_note_records
    open_note-used faults now i burn_token = ground arith

    ensure-used :
        (faults : Faults) (now : Time) (secret : Bytes)
        → P.get (ensure_root_keys P faults now secret db).1.used_tickets id ≡ some marker_bytes
    unfolding ensure_root_keys ensure_in_tx
    ensure-used faults now secret = ground arith

    Sweeps-used :
        (faults : Faults) (now : Time)
        → now ≤ marker.expires_at
        → (db' : Db P.Bucket) → Sweeps P s faults now db db'
        → P.get db'.used_tickets id ≡ some marker_bytes
    Sweeps-used faults now fresh db' w =
        let middle = w.middle.used_tickets in
        let there : P.get middle id ≡ some marker_bytes =
          ap (λ (b : P.Bucket). P.get b id) w.deleted.used_tickets ∙ stored in
        let spared =
          contains-keys_where P middle (is_expired_marker P now) id
          ∙ ap (holds (is_expired_marker P now)) there
          ∙ is_expired_marker-false now fresh in
        ap (λ (d : Db P.Bucket). P.get d.used_tickets id) w.swept
        ∙ get-delete_tickets_kept P faults _ middle id spared
        ∙ there

    pub cleanup-used :
        (faults : Faults) (now : Time)
        → now ≤ marker.expires_at
        → P.get (cleanup P s faults now db).1.used_tickets id ≡ some marker_bytes
    cleanup-used faults now fresh =
        cleanup_cases P s faults now db (λ d. P.get d.used_tickets id ≡ some marker_bytes) stored
          (Sweeps-used faults now fresh)

  -- Until the time up to which it is kept, the marker outlives every transaction.
  Step-IsUsed :
      {x y : State P} (id marker_bytes : Bytes) (until : Time)
      → Step P s x y
      → y.clock ≤ until
      → IsUsed id marker_bytes until x.db
      → IsUsed id marker_bytes until y.db
  Step-IsUsed {x} {y} id b until (attempted faults d _ _ e) t u = record {
    marker = u.marker;
    stored = rw e (create_once-used id b u.marker u.read x.db u.stored faults d);
    read = u.read;
    kept = u.kept;
  }
  Step-IsUsed {x} {y} id b until (opened faults now i token _ _ _ e) t u = record {
    marker = u.marker;
    stored = rw e (open_note-used id b u.marker u.read x.db u.stored faults now i token);
    read = u.read;
    kept = u.kept;
  }
  Step-IsUsed {x} {y} id b until (cleaned faults now before _ e) t u = record {
    marker = u.marker;
    stored =
        rw e (cleanup-used id b u.marker u.read x.db u.stored faults now (omega (arith, u.kept)));
    read = u.read;
    kept = u.kept;
  }
  Step-IsUsed {x} {y} id b until (keyed faults now secret _ e) t u = record {
    marker = u.marker;
    stored = rw e (ensure-used id b u.marker u.read x.db u.stored faults now secret);
    read = u.read;
    kept = u.kept;
  }

  pub Step-clock : {x y : State P} → Step P s x y → x.clock ≤ y.clock
  Step-clock (attempted _ _ _ t _) = t
  Step-clock (opened _ _ _ _ _ _ t _) = t
  Step-clock (cleaned _ _ _ t _) = t
  Step-clock (keyed _ _ _ t _) = t

  -- Whatever transactions run, the marker of a used ticket is in the database as long as the clock has
  -- not passed the time that the marker holds.
  pub Reach-IsUsed :
      {x y : State P} (id marker_bytes : Bytes) (until : Time)
      → Reach P s x y
      → y.clock ≤ until
      → IsUsed id marker_bytes until x.db
      → IsUsed id marker_bytes until y.db
  Reach-IsUsed id b until here t u = u
  Reach-IsUsed id b until (next r step) t u =
      Step-IsUsed id b until step t (Reach-IsUsed id b until r (omega (arith, Step-clock step)) u)
