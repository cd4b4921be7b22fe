-- ===== src/Database.antt =====
-- The database: its five buckets, and bbolt's transactions (`db.Update`, `db.View`) as note_service.go
-- and database.go use them.
use one_time_note.Base.{◌≡◌, refl, arith, Option, none, some}
use one_time_note.Base.Text.{Bytes}
use one_time_note.Errors.{BoltError, Error, bolt, Result, ok, err}

pub data BucketName : Type 0 where
  payload_bucket config_bucket metadata_bucket root_keys_bucket used_tickets_bucket : BucketName

pub record Db (Bucket : Type 0) : Type 0 where
  pub payloads : Bucket
  pub config : Bucket
  pub metadata : Bucket
  pub root_keys : Bucket
  pub used_tickets : Bucket

-- Which of bbolt's calls fail in one transaction, for reasons that the program does not see: the
-- start, a write, a deletion, or the commit.
pub record Faults : Type 0 where
  pub at_begin : Option BoltError
  pub at_put : BucketName → Bytes → Option BoltError
  pub at_delete : BucketName → Bytes → Option BoltError
  pub at_commit : Option BoltError

abbrev pub no_faults : Faults
no_faults = record {
  at_begin = none;
  at_put = λ _ _. none;
  at_delete = λ _ _. none;
  at_commit = none;
}

-- A transaction in which no call of bbolt fails.
pub record IsQuiet (faults : Faults) : Type 0 where
  pub begins : faults.at_begin ≡ none
  pub puts : (b : BucketName) (k : Bytes) → faults.at_put b k ≡ none
  pub deletes : (b : BucketName) (k : Bytes) → faults.at_delete b k ≡ none
  pub commits : faults.at_commit ≡ none

pub no_faults-IsQuiet : IsQuiet no_faults
no_faults-IsQuiet = record {
  begins = refl;
  puts = λ _ _. refl;
  deletes = λ _ _. refl;
  commits = refl;
}

module _ {D A : Type 0} where
  abbrev commit : Option BoltError → A → D → D → Result A × D
  commit none a before after = (ok a, after)
  commit (some e) a before after = (err (bolt e), before)

  -- The writes of a body are kept if it returns nil and the commit succeeds, and else none is.
  abbrev finish : Option BoltError → D → Result (A × D) → Result A × D
  finish fault before (err e) = (err e, before)
  finish fault before (ok (a, after)) = commit fault a before after

  abbrev pub update : Faults → (D → Result (A × D)) → D → Result A × D
  update faults body db = elim faults.at_begin [
    | some e ↦ (err (bolt e), db)
    | none ↦ finish faults.at_commit db (body db)
  ]

  abbrev pub view : Faults → (D → Result A) → D → Result A
  view faults body db = elim faults.at_begin [ some e ↦ err (bolt e) | none ↦ body db ]

  -- A transaction that succeeds has the result and the writes of its body.
  pub update-eq-ok :
      (faults : Faults) (body : D → Result (A × D)) (db db' : D) (a : A)
      → update faults body db ≡ (ok a, db')
      → body db ≡ ok (a, db')
  update-eq-ok faults body db db' a h = ground arith

  -- A transaction that fails leaves the database as it was.
  pub update_error :
      (faults : Faults) (body : D → Result (A × D)) (db db' : D) (e : Error)
      → update faults body db ≡ (err e, db')
      → db' ≡ db
  update_error faults body db db' e h = ground arith

  pub view-eq-ok :
      (faults : Faults) (body : D → Result A) (db : D) (a : A)
      → view faults body db ≡ ok a
      → body db ≡ ok a
  view-eq-ok faults body db a h = ground arith
