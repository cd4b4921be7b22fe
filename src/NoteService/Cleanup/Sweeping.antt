-- ===== src/NoteService/Cleanup/Sweeping.antt =====
-- A cleanup removes exactly the notes that are not alive and the markers of expired tickets.
use one_time_note.Base.{
  subst, ap, ◌^◌, ◌-◌, ◌<◌, ◌≤◌, ◌≡◌, refl, sym, ◌∙◌, false, some, length, arith, Option-cases,
  List, map, inl, inr,
}
use one_time_note.Base.Text.{Bytes}
use one_time_note.Clock.{Time}
use one_time_note.Errors.{Error, Result, ok, err, >>=-eq-ok}
use one_time_note.Records.{Metadata}
use one_time_note.Platform.{Platform}
use one_time_note.Database.{Db, Faults, update-eq-ok}
use one_time_note.NoteService.{Limits, copy_id}
use one_time_note.NoteService.Validity.{IsValid, valid_metadata-IsValid, IsValid-valid_metadata}
use one_time_note.NoteService.Cleanup.{
  keys_where, is_stale_metadata, is_expired_marker, delete_notes, delete_tickets, cleanup_in_tx,
  cleanup,
}
use one_time_note.NoteService.Cleanup.Deleting.{Deletes, delete_notes-Deletes}

module _ (P : Platform) where
  -- Every metadata record stands under a key of 32 bytes.
  abbrev pub HasIdKeys : Db P.Bucket → Type 0
  HasIdKeys db = (k v : Bytes) → P.get db.metadata k ≡ some v → length k ≡ 32

  -- The bytes of a metadata record that can be read, is valid and has not expired.
  pub record IsAlive (s : Limits) (now : Time) (v : Bytes) : Type 0 where
    pub metadata : Metadata
    pub read : P.unmarshal_metadata v ≡ some metadata
    pub valid : IsValid s metadata
    pub unexpired : now ≤ metadata.expires_at

  module _ (s : Limits) (now : Time) (v : Bytes) where
    pub IsAlive-not_stale : IsAlive s now v → is_stale_metadata P s now v ≡ false
    unfolding is_stale_metadata
    IsAlive-not_stale a =
        ground (arith, a.read, IsValid-valid_metadata s a.metadata a.valid, a.unexpired)

    pub not_stale-IsAlive :
        s.max_lifetime < 2 ^ 63 - 1 → is_stale_metadata P s now v ≡ false → IsAlive s now v
    unfolding is_stale_metadata
    not_stale-IsAlive fits h = elim (Option-cases (P.unmarshal_metadata v)) [
      | inl e ↦ absurd (ground (arith, e))
      | inr (m, e) ↦ record {
        metadata = m;
        read = e;
        valid = valid_metadata-IsValid s m fits (ground (arith, e));
        unexpired = ground (arith, e);
      }
    ]

  module _ (s : Limits) (faults : Faults) (now : Time) (db : Db P.Bucket) where
    -- A cleanup that fails, for a fault of the database, changes nothing.
    pub cleanup_error :
        (e : Error) → (cleanup P s faults now db).0 ≡ err e → (cleanup P s faults now db).1 ≡ db
    unfolding cleanup
    cleanup_error e h = ground arith

    abbrev pub stale_keys : List Bytes
    stale_keys = keys_where (is_stale_metadata P s now) (P.entries db.metadata)

    -- What a cleanup that succeeds has made of the database.
    pub record Sweeps (db' : Db P.Bucket) : Type 0 where
      pub middle : Db P.Bucket
      pub deleted :
          Deletes P faults
            (map copy_id (keys_where (is_stale_metadata P s now) (P.entries db.metadata)))
            db
            middle
      pub swept : db' ≡ record middle {
        used_tickets =
            delete_tickets P faults
              (keys_where (is_expired_marker P now) (P.entries middle.used_tickets))
              middle.used_tickets;
      }

    pub cleanup-Sweeps : (db' : Db P.Bucket) → cleanup P s faults now db ≡ (ok tt, db') → Sweeps db'
    unfolding cleanup cleanup_in_tx
    cleanup-Sweeps db' h =
        let body = update-eq-ok faults (cleanup_in_tx P s faults now) db db' tt h in
        let (middle, first, rest) = >>=-eq-ok (delete_notes P faults stale_keys db) _ body in
        record {
          middle = middle;
          deleted = delete_notes-Deletes P faults stale_keys db middle first;
          swept = ground (arith, rest);
        }

    -- What holds of the database as it was and of every database that a cleanup may make of it holds
    -- after the cleanup, whatever its result.
    pub cleanup_cases :
        (Q : Db P.Bucket → Type 0)
        → Q db
        → ((db' : Db P.Bucket) → Sweeps db' → Q db')
        → Q (cleanup P s faults now db).1
    cleanup_cases Q same swept = go (cleanup P s faults now db).0 (cleanup P s faults now db).1 refl
      where
        go :
            (r : Result (Unit {0})) (db' : Db P.Bucket)
            → cleanup P s faults now db ≡ (r, db')
            → Q db'
        go (err e) db' h =
            let unchanged : db' ≡ db =
              ap (λ (x : Result (Unit {0}) × Db P.Bucket). x.1) (sym h)
              ∙ cleanup_error e (ap (λ (x : Result (Unit {0}) × Db P.Bucket). x.0) h) in
            subst Q (sym unchanged) same
        go (ok u) db' h = swept db' (cleanup-Sweeps db' h)
