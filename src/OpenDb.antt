-- ===== src/OpenDb.antt =====
-- database.go: `openDB`, from the checks of the directory to the buckets and the schema version. What
-- the file system and bbolt answer is an argument; the warnings about permissions are only logged.
pub mod Accepting
use one_time_note.Base.{
  ◌-◌, ◌^◌, Bool, true, false, not, Option, none, some, List, [], ◌∷◌, if◌then◌else◌,
}
use one_time_note.Base.Int.{ℤ, pos, ltb_ℤ}
use one_time_note.Errors.{BoltError, Error, Result, ok, err, ◌>>=◌, ◌>>◌, check_fault}
use one_time_note.Platform.{Platform}
use one_time_note.Database.{
  BucketName, payload_bucket, config_bucket, metadata_bucket, root_keys_bucket, used_tickets_bucket,
  Db, Faults, update,
}
use one_time_note.Schema.{ensure_schema_version}

-- What a database file holds: a bucket that was not created is missing.
pub record Stored (Bucket : Type 0) : Type 0 where
  pub payloads : Option Bucket
  pub config : Option Bucket
  pub metadata : Option Bucket
  pub root_keys : Option Bucket
  pub used_tickets : Option Bucket

pub data OpenError : Type 0 where
  directory_unreadable not_a_directory too_large file_not_opened file_unreadable : OpenError
  not_initialized : Error → OpenError

abbrev pub stored_of : {Bucket : Type 0} → Db Bucket → Stored Bucket
stored_of db = record {
  payloads = some db.payloads;
  config = some db.config;
  metadata = some db.metadata;
  root_keys = some db.root_keys;
  used_tickets = some db.used_tickets;
}

-- What the calls of `openDB` find: whether the parent is a directory (`none` where `os.Stat` fails), what
-- the file holds (`none` where `bolt.Open` fails), whether `os.Stat` of the file succeeds, and the
-- faults of the transaction.
pub record Disk (Bucket : Type 0) : Type 0 where
  pub parent_is_dir : Option Bool
  pub stored : Option (Stored Bucket)
  pub file_is_there : Bool
  pub at_create : BucketName → Option BoltError
  pub faults : Faults

pub data Opened (Bucket : Type 0) : Type 0 where
  opened : Db Bucket → Opened Bucket
  not_opened : OpenError → Opened Bucket

unfoldable pub validate_db_parent : Option Bool → Option OpenError
validate_db_parent none = some directory_unreadable
validate_db_parent (some false) = some not_a_directory
validate_db_parent (some true) = none

unfoldable pub validate_db_file : Bool → Option OpenError
validate_db_file false = some file_unreadable
validate_db_file true = none

-- `fresh` is the bucket that bbolt creates.
module _ (P : Platform) (fresh : P.Bucket) where
  abbrev pub or_fresh : Option P.Bucket → P.Bucket
  or_fresh none = fresh
  or_fresh (some bucket) = bucket

  -- `tx.CreateBucketIfNotExists(name)`
  abbrev pub create_bucket_if_not_exists :
      (BucketName → Option BoltError) → BucketName → Option P.Bucket → Result P.Bucket
  create_bucket_if_not_exists at_create name bucket = do
    check_fault (at_create name)
    ok (or_fresh bucket)

  unfoldable pub ensure_buckets :
      (BucketName → Option BoltError) → Stored P.Bucket → Result (Db P.Bucket)
  ensure_buckets at_create s = do
    payloads ← create_bucket_if_not_exists at_create payload_bucket s.payloads
    config ← create_bucket_if_not_exists at_create config_bucket s.config
    metadata ← create_bucket_if_not_exists at_create metadata_bucket s.metadata
    root_keys ← create_bucket_if_not_exists at_create root_keys_bucket s.root_keys
    used_tickets ← create_bucket_if_not_exists at_create used_tickets_bucket s.used_tickets
    ok (record {
      payloads = payloads;
      config = config;
      metadata = metadata;
      root_keys = root_keys;
      used_tickets = used_tickets;
    })

  -- The body of the transaction, with the database as the rest of the program sees it.
  unfoldable pub initialize_in_tx :
      (BucketName → Option BoltError)
      → Faults
      → Stored P.Bucket
      → Result (Db P.Bucket × Stored P.Bucket)
  initialize_in_tx at_create faults s = do
    db ← ensure_buckets at_create s
    (_, db') ← ensure_schema_version P faults db
    ok (db', stored_of db')

  abbrev pub opened_or_not : Result (Db P.Bucket) → Opened P.Bucket
  opened_or_not (err e) = not_opened (not_initialized e)
  opened_or_not (ok db) = opened db

  unfoldable pub open_stored : Disk P.Bucket → Stored P.Bucket → Opened P.Bucket × Stored P.Bucket
  open_stored disk s = elim (validate_db_file disk.file_is_there) [
    | some e ↦ (not_opened e, s)
    | none ↦
        let (r, s') = update disk.faults (initialize_in_tx disk.at_create disk.faults) s in
        (opened_or_not r, s')
  ]

  -- The database, or why it is not opened, and what the file holds then.
  unfoldable pub open_db :
      (max_db_size : ℤ) → Disk P.Bucket → Opened P.Bucket × Option (Stored P.Bucket)
  open_db max_db_size disk = elim (validate_db_parent disk.parent_is_dir) [
    | some e ↦ (not_opened e, disk.stored)
    | none ↦
        if ltb_ℤ (pos (2 ^ 63 - 1)) max_db_size
        then (not_opened too_large, disk.stored)
        else elim disk.stored [
          | none ↦ (not_opened file_not_opened, none)
          | some s ↦ let (r, s') = open_stored disk s in (r, some s')
        ]
  ]
