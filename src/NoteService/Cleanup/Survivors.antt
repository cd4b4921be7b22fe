-- ===== src/NoteService/Cleanup/Survivors.antt =====
-- A cleanup removes exactly the notes that are not alive and the markers of expired tickets.
use one_time_note.Base.{
  ◌^◌, ◌-◌, ◌<◌, ◌≤◌, ◌≡◌, ◌↔◌, refl, sym, ◌∙◌, ap, Bool, false, Option, none, some, arith,
  Bool-cases, Option-cases, inl, inr, if◌then◌else◌,
}
use one_time_note.Base.Text.{Bytes}
use one_time_note.Clock.{Time}
use one_time_note.Errors.{ok}
use one_time_note.Records.{UsedTicketMarker}
use one_time_note.Platform.{Platform}
use one_time_note.Database.{Db, Faults, used_tickets_bucket}
use one_time_note.NoteService.{Limits}
use one_time_note.NoteService.Cleanup.{keys_where, is_stale_metadata, is_expired_marker, cleanup}
use one_time_note.NoteService.Cleanup.Keys.{holds, contains-keys_where, copy_id-keys_where}
use one_time_note.NoteService.Cleanup.Deleting.{get-delete_tickets}
use one_time_note.NoteService.Cleanup.Sweeping.{
  HasIdKeys, IsAlive, IsAlive-not_stale, not_stale-IsAlive, Sweeps, cleanup-Sweeps,
}

kept-eq-some :
    (test : Bytes → Bool) (o : Option Bytes) (v : Bytes)
    → (if holds test o then none else o) ≡ some v
    → (o ≡ some v) × (test v ≡ false)
kept-eq-some test none v h = cc
kept-eq-some test (some w) v h = ground arith

module _ (P : Platform) (s : Limits) (faults : Faults) (now : Time) (db db' : Db P.Bucket)
    (done : cleanup P s faults now db ≡ (ok tt, db')) where
  sweeps : Sweeps P s faults now db db'
  sweeps = cleanup-Sweeps P s faults now db db' done

  module _ (ids : HasIdKeys P db) (j : Bytes) where
    get-metadata : P.get db'.metadata j ≡ (
        if holds (is_stale_metadata P s now) (P.get db.metadata j)
        then none
        else P.get db.metadata j)
    get-metadata = cc (
      ap (λ (d : Db P.Bucket). P.get d.metadata j) sweeps.swept,
      sweeps.deleted.metadata j,
      copy_id-keys_where P db.metadata (is_stale_metadata P s now) ids,
      contains-keys_where P db.metadata (is_stale_metadata P s now) j,
    )

    get-payloads : P.get db'.payloads j ≡ (
        if holds (is_stale_metadata P s now) (P.get db.metadata j)
        then none
        else P.get db.payloads j)
    get-payloads = cc (
      ap (λ (d : Db P.Bucket). P.get d.payloads j) sweeps.swept,
      sweeps.deleted.payloads j,
      copy_id-keys_where P db.metadata (is_stale_metadata P s now) ids,
      contains-keys_where P db.metadata (is_stale_metadata P s now) j,
    )

    -- After a cleanup that returned no error, over metadata whose keys all have 32 bytes and with a
    -- limit on lifetimes that a duration can hold: a metadata record is there exactly if it was
    -- there and can be read, is valid and has not expired. The payload of such a note is unchanged,
    -- and that of another note that had metadata is gone.
    pub cleanup_survivors :
        s.max_lifetime < 2 ^ 63 - 1
        → (v : Bytes)
        → ((P.get db'.metadata j ≡ some v) ↔ ((P.get db.metadata j ≡ some v) × IsAlive P s now v))
          × (P.get db.metadata j ≡ some v
              → IsAlive P s now v
              → P.get db'.payloads j ≡ P.get db.payloads j)
          × (P.get db.metadata j ≡ some v → ¬ (IsAlive P s now v) → P.get db'.payloads j ≡ none)
    cleanup_survivors fits v = (
      (
        (λ h.
            let (found, fresh) =
              kept-eq-some (is_stale_metadata P s now) _ v (sym get-metadata ∙ h) in
            (found, not_stale-IsAlive P s now v fits fresh)),
        (λ h. rw (get-metadata, h.0, IsAlive-not_stale P s now v h.1) refl),
      ),
      (λ h a. rw (get-payloads, h, IsAlive-not_stale P s now v a) refl),
      (λ h a. elim (Bool-cases (is_stale_metadata P s now v)) [
        | inl stale ↦ rw (get-payloads, h, stale) refl
        | inr fresh ↦ absurd (a (not_stale-IsAlive P s now v fits fresh))
      ]),
    )

  get-markers :
      ((k : Bytes) → faults.at_delete used_tickets_bucket k ≡ none)
      → (j : Bytes)
      → P.get db'.used_tickets j ≡ (
          if holds (is_expired_marker P now) (P.get db.used_tickets j)
          then none
          else P.get db.used_tickets j)
  get-markers works j =
      let middle = sweeps.middle.used_tickets in
      let expired = keys_where (is_expired_marker P now) (P.entries middle) in
      cc (
        ap (λ (d : Db P.Bucket). P.get d.used_tickets j) sweeps.swept,
        get-delete_tickets P faults expired middle j works,
        contains-keys_where P middle (is_expired_marker P now) j,
        sweeps.deleted.used_tickets,
      )

  not_expired :
      (v : Bytes)
      → is_expired_marker P now v ≡ false
      → (m : UsedTicketMarker) × (P.unmarshal_marker v ≡ some m) × (now ≤ m.expires_at)
  unfolding is_expired_marker
  not_expired v h = elim (Option-cases (P.unmarshal_marker v)) [
    | inl e ↦ absurd (ground (arith, e))
    | inr (m, e) ↦ (m, e, ground (arith, e))
  ]

  expired_false :
      (v : Bytes) (m : UsedTicketMarker)
      → P.unmarshal_marker v ≡ some m
      → now ≤ m.expires_at
      → is_expired_marker P now v ≡ false
  unfolding is_expired_marker
  expired_false v m e h = ground arith

  -- After a cleanup that returned no error, if no deletion of a marker fails, a used-ticket marker is
  -- there exactly if it was there, can be read and has not expired.
  pub cleanup_markers :
      ((k : Bytes) → faults.at_delete used_tickets_bucket k ≡ none)
      → (j v : Bytes)
      → (P.get db'.used_tickets j ≡ some v) ↔ (
          (m : UsedTicketMarker) × (P.get db.used_tickets j ≡ some v)
          × (P.unmarshal_marker v ≡ some m)
          × (now ≤ m.expires_at))
  cleanup_markers works j v = (
    (λ h.
        let (found, fresh) =
          kept-eq-some (is_expired_marker P now) _ v (sym (get-markers works j) ∙ h) in
        let (m, read, unexpired) = not_expired v fresh in (m, found, read, unexpired)),
    (λ (m, found, read, unexpired).
        rw (get-markers works j, found, expired_false v m read unexpired) refl),
  )
