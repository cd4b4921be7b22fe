-- ===== src/NoteService/Create/Storing.antt =====
-- What a call of `CreateNote` that succeeds has written, and that one that fails has written nothing
-- but what its cleanup removed.
use one_time_note.Base.{◌≡◌, refl, ◌∙◌, ◌⊎◌, inl, inr, none, arith, Bool-cases}
use one_time_note.Base.Text.{Bytes}
use one_time_note.Clock.{Duration}
use one_time_note.Errors.{Error, bolt, max_size_reached, Result, ok, err}
use one_time_note.Platform.{Platform}
use one_time_note.Database.{Db, Faults}
use one_time_note.NoteService.{Limits, is_storage_full}
use one_time_note.NoteService.Cleanup.{cleanup}
use one_time_note.NoteService.Create.{
  Circumstances, Draft, create_in_tx, create_once, prepare, report, second_attempt, retry,
  create_note,
}

module _ (P : Platform) where
  -- The three records of a draft, put where nothing was stored under its ID.
  pub record Stores (d : Draft) (db db' : Db P.Bucket) : Type 0 where
    pub unused : P.get db.used_tickets d.id ≡ none
    pub no_metadata : P.get db.metadata d.id ≡ none
    pub no_payload : P.get db.payloads d.id ≡ none
    pub stored : db' ≡ record db {
      metadata = P.put db.metadata d.id d.metadata_bytes;
      payloads = P.put db.payloads d.id d.payload;
      used_tickets = P.put db.used_tickets d.id d.marker_bytes;
    }

  pub create_once-Stores :
      (faults : Faults) (d : Draft) (db db' : Db P.Bucket)
      → create_once P faults d db ≡ (ok tt, db')
      → Stores d db db'
  unfolding create_once create_in_tx
  create_once-Stores faults d db db' h = ground arith

  pub create_once_error :
      (faults : Faults) (d : Draft) (db db' : Db P.Bucket) (e : Error)
      → create_once P faults d db ≡ (err e, db')
      → db' ≡ db
  unfolding create_once
  create_once_error faults d db db' e h = ground arith

  module _ (s : Limits) (c : Circumstances) where
    -- The database on which the attempt that stored the note began: the one that the call found, or
    -- that one after the cleanup.
    abbrev pub IsBase : Db P.Bucket → Db P.Bucket → Type 0
    IsBase db base = (base ≡ db) ⊎ (cleanup P s c.cleanup_faults c.cleaned_at db ≡ (ok tt, base))

    -- What is known once an attempt that began on `base` has been reported as a success.
    report-Stores :
        (faults : Faults) (d : Draft) (base db' : Db P.Bucket) (id : Bytes)
        (attempt : Result (Unit {0}) × Db P.Bucket)
        → create_once P faults d base ≡ attempt
        → report P d.id attempt ≡ (ok id, db')
        → (id ≡ d.id) × Stores d base db'
    unfolding report
    report-Stores faults d base db' id (ok u, m) e h =
        (ground arith, create_once-Stores faults d base db' (e ∙ ground arith))
    report-Stores faults d base db' id (err (bolt max_size_reached), m) e h = cc
    report-Stores faults d base db' id (err x, m) e h = cc

    second-Stores :
        (d : Draft) (db db' : Db P.Bucket) (id : Bytes) (swept : Result (Unit {0}) × Db P.Bucket)
        → cleanup P s c.cleanup_faults c.cleaned_at db ≡ swept
        → second_attempt P c d swept ≡ (ok id, db')
        → (base : Db P.Bucket) × (id ≡ d.id) × IsBase db base × Stores d base db'
    unfolding second_attempt
    second-Stores d db db' id (err e, base) swept h = cc
    second-Stores d db db' id (ok u, base) swept h =
        let (same, stored) = report-Stores c.second_faults d base db' id _ refl h in
        (base, same, inr swept, stored)

    first-Stores :
        (d : Draft) (db db' : Db P.Bucket) (id : Bytes) (attempt : Result (Unit {0}) × Db P.Bucket)
        → create_once P c.first_faults d db ≡ attempt
        → retry P s c d attempt ≡ (ok id, db')
        → (base : Db P.Bucket) × (id ≡ d.id) × IsBase db base × Stores d base db'
    unfolding retry
    first-Stores d db db' id (ok u, m) e h =
        let (same, stored) = report-Stores c.first_faults d db db' id (ok u, m) e h in
        (db, same, inl refl, stored)
    first-Stores d db db' id (err x, m) e h = elim (Bool-cases (is_storage_full x)) [
      | inl full ↦
          let (base, same, from, stored) = second-Stores d m db' id _ refl (rw full at h) in
          (base, same, rw (← create_once_error c.first_faults d db m x e) from, stored)
      | inr other ↦
          let (same, stored) =
            report-Stores c.first_faults d db db' id (err x, m) e (rw other at h) in
          (db, same, inl refl, stored)
    ]

    -- A call that succeeds returns the ID of its draft, and has stored the draft's records.
    pub create_note-Stores :
        (path_id ticket burn_token payload : Bytes) (lifetime : Duration) (db db' : Db P.Bucket)
        (id : Bytes)
        → create_note P s c path_id ticket burn_token payload lifetime db ≡ (ok id, db')
        → (d : Draft) × (prepare P s c path_id ticket burn_token payload lifetime db ≡ ok d)
          × ((base : Db P.Bucket) × (id ≡ d.id) × IsBase db base × Stores d base db')
    unfolding create_note
    create_note-Stores path_id ticket burn_token payload lifetime db db' id h =
        prepared (prepare P s c path_id ticket burn_token payload lifetime db) refl h
      where
        prepared :
            (r : Result Draft)
            → prepare P s c path_id ticket burn_token payload lifetime db ≡ r
            → elim r [
              | err e ↦ (err e, db)
              | ok d ↦ retry P s c d (create_once P c.first_faults d db)
            ]
              ≡ (ok id, db')
            → (d : Draft) × (prepare P s c path_id ticket burn_token payload lifetime db ≡ ok d)
              × ((base : Db P.Bucket) × (id ≡ d.id) × IsBase db base × Stores d base db')
        prepared (err e) eq k = cc
        prepared (ok d) eq k = (d, eq, first-Stores d db db' id _ refl k)
