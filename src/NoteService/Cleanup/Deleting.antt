-- ===== src/NoteService/Cleanup/Deleting.antt =====
-- What is left of a bucket after the collected keys are deleted.
use one_time_note.Base.{◌≡◌, refl, ◌∙◌, false, List, [], ◌∷◌, none, arith, map, if◌then◌else◌}
use one_time_note.Base.Text.{Bytes}
use one_time_note.Errors.{ok, >>=-eq-ok}
use one_time_note.Platform.{Platform}
use one_time_note.Database.{Db, Faults, used_tickets_bucket}
use one_time_note.NoteService.{copy_id, delete_note_records}
use one_time_note.NoteService.Cleanup.{delete_notes, delete_tickets}
use one_time_note.NoteService.Cleanup.Keys.{contains}

module _ (P : Platform) (faults : Faults) where
  -- The notes whose IDs are listed are gone, and the others stay.
  pub record Deletes (ids : List Bytes) (db db' : Db P.Bucket) : Type 0 where
    pub metadata :
        (j : Bytes) → P.get db'.metadata j ≡ (if contains j ids then none else P.get db.metadata j)
    pub payloads :
        (j : Bytes) → P.get db'.payloads j ≡ (if contains j ids then none else P.get db.payloads j)
    pub used_tickets : db'.used_tickets ≡ db.used_tickets
    pub root_keys : db'.root_keys ≡ db.root_keys
    pub config : db'.config ≡ db.config

  delete_note_records-Deletes :
      (id : Bytes) (db db' : Db P.Bucket)
      → delete_note_records P faults db id ≡ ok db'
      → Deletes (id ∷ []) db db'
  unfolding delete_note_records contains
  delete_note_records-Deletes id db db' h = record {
    metadata = λ j. ground (arith, P.get-delete db.metadata id j);
    payloads = λ j. ground (arith, P.get-delete db.payloads id j);
    used_tickets = ground arith;
    root_keys = ground arith;
    config = ground arith;
  }

  Deletes-cons :
      (id : Bytes) (ids : List Bytes) (a b c : Db P.Bucket)
      → Deletes (id ∷ []) a b
      → Deletes ids b c
      → Deletes (id ∷ ids) a c
  unfolding contains
  Deletes-cons id ids a b c h k = record {
    metadata = λ j. ground (arith, h.metadata j, k.metadata j);
    payloads = λ j. ground (arith, h.payloads j, k.payloads j);
    used_tickets = k.used_tickets ∙ h.used_tickets;
    root_keys = k.root_keys ∙ h.root_keys;
    config = k.config ∙ h.config;
  }

  Deletes-nil : (db db' : Db P.Bucket) → db ≡ db' → Deletes [] db db'
  unfolding contains
  Deletes-nil db db' e = record {
    metadata = λ j. rw e refl;
    payloads = λ j. rw e refl;
    used_tickets = rw e refl;
    root_keys = rw e refl;
    config = rw e refl;
  }

  pub delete_notes-Deletes :
      (keys : List Bytes) (db db' : Db P.Bucket)
      → delete_notes P faults keys db ≡ ok db'
      → Deletes (map copy_id keys) db db'
  unfolding delete_notes
  delete_notes-Deletes [] db db' h = Deletes-nil db db' (cc)
  delete_notes-Deletes (key ∷ keys) db db' h =
      let (middle, first, rest) =
        >>=-eq-ok (delete_note_records P faults db (copy_id key)) (delete_notes P faults keys) h in
      Deletes-cons (copy_id key) (map copy_id keys) db middle db'
        (delete_note_records-Deletes (copy_id key) db middle first)
        (delete_notes-Deletes keys middle db' rest)

  pub get-delete_tickets_kept :
      (keys : List Bytes) (b : P.Bucket) (j : Bytes)
      → contains j keys ≡ false
      → P.get (delete_tickets P faults keys b) j ≡ P.get b j
  unfolding delete_tickets contains
  get-delete_tickets_kept [] b j h = refl
  get-delete_tickets_kept (k ∷ ks) b j h = ground (
    arith,
    P.get-delete b k j,
    get-delete_tickets_kept ks (P.delete b k) j,
    get-delete_tickets_kept ks b j,
  )

  pub get-delete_tickets :
      (keys : List Bytes) (b : P.Bucket) (j : Bytes)
      → ((k : Bytes) → faults.at_delete used_tickets_bucket k ≡ none)
      → P.get (delete_tickets P faults keys b) j ≡ (if contains j keys then none else P.get b j)
  unfolding delete_tickets contains
  get-delete_tickets [] b j h = refl
  get-delete_tickets (k ∷ ks) b j h =
      ground (arith, h k, P.get-delete b k j, get-delete_tickets ks (P.delete b k) j h)
