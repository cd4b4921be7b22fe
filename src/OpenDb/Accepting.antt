-- ===== src/OpenDb/Accepting.antt =====
-- What `openDB` makes of a database.
use one_time_note.Base.{
  ◌≡◌, ◌⊎◌, refl, ap, subst, ◌∙◌, ◌-◌, ◌^◌, Option, none, some, arith, Option-cases, Bool-cases,
  inl, inr,
}
use one_time_note.Base.Int.{ℤ, pos, ltb_ℤ}
use one_time_note.Errors.{BoltError, Result, ok, err, >>=-eq-ok}
use one_time_note.Platform.{Platform}
use one_time_note.Database.{BucketName, Db, Faults, update, update-eq-ok, update_error}
use one_time_note.Schema.{
  schema_version, current_schema_version, ensure_schema_version, ensure_schema_version_accepts,
  IsVersioned, ensure_schema_version-IsVersioned,
}
use one_time_note.OpenDb.{
  Stored, OpenError, stored_of, Disk, opened, not_opened, not_initialized, too_large,
  file_not_opened, validate_db_parent, validate_db_file, or_fresh, ensure_buckets, initialize_in_tx,
  open_stored, open_db,
}

module _ (P : Platform) (fresh : P.Bucket) where
  -- The database has the current version, and the buckets that the file held, or fresh ones, but for a
  -- version that was written.
  pub record Initializes (s : Stored P.Bucket) (db : Db P.Bucket) : Type 0 where
    pub version : schema_version P db ≡ current_schema_version
    pub config : IsVersioned P (or_fresh P fresh s.config) db.config
    pub payloads : db.payloads ≡ or_fresh P fresh s.payloads
    pub metadata : db.metadata ≡ or_fresh P fresh s.metadata
    pub root_keys : db.root_keys ≡ or_fresh P fresh s.root_keys
    pub used_tickets : db.used_tickets ≡ or_fresh P fresh s.used_tickets

  created_buckets :
      (at_create : BucketName → Option BoltError) (s : Stored P.Bucket) (db : Db P.Bucket)
      → ensure_buckets P fresh at_create s ≡ ok db
      → (db.config ≡ or_fresh P fresh s.config)
        × (db.payloads ≡ or_fresh P fresh s.payloads)
        × (db.metadata ≡ or_fresh P fresh s.metadata)
        × (db.root_keys ≡ or_fresh P fresh s.root_keys)
        × (db.used_tickets ≡ or_fresh P fresh s.used_tickets)
  unfolding ensure_buckets
  created_buckets at_create s db h = ground (arith, h)

  initialize_in_tx-Initializes :
      (at_create : BucketName → Option BoltError) (faults : Faults) (s s' : Stored P.Bucket)
      (db : Db P.Bucket)
      → initialize_in_tx P fresh at_create faults s ≡ ok (db, s')
      → Initializes s db × (s' ≡ stored_of db)
  unfolding initialize_in_tx
  initialize_in_tx-Initializes at_create faults s s' db h =
      let (created, buckets, h₁) = >>=-eq-ok (ensure_buckets P fresh at_create s) _ h in
      let ((_, db'), accepted, h₂) = >>=-eq-ok (ensure_schema_version P faults created) _ h₁ in
      let (v, p, m, r, u) = ensure_schema_version_accepts P faults created db' accepted in
      let (c, p', m', r', u') = created_buckets at_create s created buckets in
      let same : db' ≡ db = cc h₂ in
      (
        subst (Initializes s) same (record {
          version = v;
          config =
              subst (λ b. IsVersioned P b db'.config) c
                (ensure_schema_version-IsVersioned P faults created db' accepted);
          payloads = p ∙ p';
          metadata = m ∙ m';
          root_keys = r ∙ r';
          used_tickets = u ∙ u';
        }),
        cc h₂,
      )

  open_stored_cases :
      (disk : Disk P.Bucket) (s : Stored P.Bucket)
      → ((e : OpenError) × (open_stored P fresh disk s ≡ (not_opened e, s)))
        ⊎ ((db : Db P.Bucket) × (open_stored P fresh disk s ≡ (opened db, stored_of db))
            × Initializes s db)
  unfolding open_stored
  open_stored_cases disk s = elim (Option-cases (validate_db_file disk.file_is_there)) [
    | inr (e, there) ↦ inl (e, rw (there, open_stored) refl)
    | inl there ↦ by_result (update disk.faults body s).0 (update disk.faults body s).1 refl there
  ]
    where
      body : Stored P.Bucket → Result (Db P.Bucket × Stored P.Bucket)
      body = initialize_in_tx P fresh disk.at_create disk.faults

      by_result :
          (r : Result (Db P.Bucket)) (s' : Stored P.Bucket)
          → update disk.faults body s ≡ (r, s')
          → validate_db_file disk.file_is_there ≡ none
          → ((e : OpenError) × (open_stored P fresh disk s ≡ (not_opened e, s)))
            ⊎ ((db : Db P.Bucket) × (open_stored P fresh disk s ≡ (opened db, stored_of db))
                × Initializes s db)
      by_result (err e) s' h there = inl (
        not_initialized e,
        rw (there, h, open_stored)
            (ap (λ x. (not_opened (not_initialized e), x))
              (update_error disk.faults body s s' e h)),
      )
      by_result (ok db) s' h there =
          let (made, same) =
            initialize_in_tx-Initializes disk.at_create disk.faults s s' db
              (update-eq-ok disk.faults body s s' db h) in
          inr (db, rw (there, h, open_stored) (ap (λ x. (opened db, x)) same), made)

  -- If the database is not opened, the file holds what it held. If it is, the program sees the buckets that
  -- the file held, and a fresh one for each that was missing, with one difference at most: where the bucket
  -- `config` had no version, or one that is read as 0, the current version is written to it, and
  -- otherwise it had the current version. The file then holds what the program sees.
  pub open_db_cases :
      (max_db_size : ℤ) (disk : Disk P.Bucket)
      → ((e : OpenError) × (open_db P fresh max_db_size disk ≡ (not_opened e, disk.stored)))
        ⊎ ((s : Stored P.Bucket) × (db : Db P.Bucket) × (disk.stored ≡ some s)
            × (open_db P fresh max_db_size disk ≡ (opened db, some (stored_of db)))
            × Initializes s db)
  unfolding open_db
  open_db_cases max_db_size disk = elim (Option-cases (validate_db_parent disk.parent_is_dir)) [
    | inr (e, checked) ↦ inl (e, rw (checked, open_db) refl)
    | inl checked ↦ elim (Bool-cases (ltb_ℤ (pos (2 ^ 63 - 1)) max_db_size)) [
      | inl large ↦ inl (too_large, rw (checked, large, open_db) refl)
      | inr fits ↦ elim (Option-cases disk.stored) [
        | inl missing ↦ inl (file_not_opened, rw (checked, fits, missing, open_db) refl)
        | inr (s, held) ↦ elim (open_stored_cases disk s) [
          | inl (e, refused) ↦ inl (e, rw (checked, fits, held, refused, open_db) refl)
          | inr (db, accepted, made) ↦
              inr (s, db, held, rw (checked, fits, held, accepted, open_db) refl, made)
        ]
      ]
    ]
  ]
