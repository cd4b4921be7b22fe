-- ===== src/History.antt =====
-- The transactions of the service in any order: each request and the background cleanup is a sequence
-- of transactions, and bbolt runs one write transaction at a time. A reading of the clock is made
-- before its transaction, so it may be older than the clock when the transaction ends.
pub mod Markers
pub mod WellFormed
pub mod Once
pub mod Attempts
pub mod RootKeys
pub mod Burned
pub mod Calls
use one_time_note.Base.{ℕ, ◌≤◌, ◌≡◌, length}
use one_time_note.Base.Text.{Bytes}
use one_time_note.Clock.{Time}
use one_time_note.Platform.{Platform}
use one_time_note.Database.{Db, Faults}
use one_time_note.RootKey.{ensure_root_keys}
use one_time_note.NoteService.{Limits}
use one_time_note.NoteService.Cleanup.{cleanup}
use one_time_note.NoteService.Open.{open_note}
use one_time_note.NoteService.Create.{Draft, create_once}

pub record State (P : Platform) : Type 0 where
  pub clock : Time
  pub db : Db P.Bucket

module _ (P : Platform) (s : Limits) where
  -- One write transaction. A draft is any that a request may have prepared: its ID has 32 bytes.
  pub data Step (x y : State P) : Type 0 where
    attempted :
        (faults : Faults) (d : Draft)
        → length d.id ≡ 32
        → x.clock ≤ y.clock
        → y.db ≡ (create_once P faults d x.db).1
        → Step x y
    opened :
        (faults : Faults) (now : Time) (id burn_token : Bytes)
        → length id ≡ 32
        → now ≤ y.clock
        → x.clock ≤ y.clock
        → y.db ≡ (open_note P s faults now id burn_token x.db).1
        → Step x y
    cleaned :
        (faults : Faults) (now : Time)
        → now ≤ y.clock
        → x.clock ≤ y.clock
        → y.db ≡ (cleanup P s faults now x.db).1
        → Step x y
    keyed :
        (faults : Faults) (now : Time) (secret : Bytes)
        → x.clock ≤ y.clock
        → y.db ≡ (ensure_root_keys P faults now secret x.db).1
        → Step x y

  pub data Reach (x : State P) : State P → Type 0 where
    here : Reach x x
    next : {y z : State P} → Reach x y → Step y z → Reach x z
