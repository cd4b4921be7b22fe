-- ===== src/Concurrent/Advancing.antt =====
-- Every turn of a call is one of the moves.
use one_time_note.Base.{◌≤◌, ◌≡◌, refl, sym, ap, subst, false, Bool-cases, inl, inr}
use one_time_note.Base.Text.{Bytes, bytes_eq, eq_of_bytes_eq}
use one_time_note.Clock.{Time}
use one_time_note.Errors.{Result, ok, err, bolt, max_size_reached}
use one_time_note.Records.{Note}
use one_time_note.Platform.{Platform}
use one_time_note.Database.{Db, Faults}
use one_time_note.NoteService.{Limits, is_storage_full}
use one_time_note.NoteService.Open.{open_note}
use one_time_note.NoteService.Open.Burning.{open_note-deletes}
use one_time_note.NoteService.Create.{Draft, create_once, report}
use one_time_note.NoteService.Create.Storing.{create_once_error}
use one_time_note.History.Burned.{open_note-gone}
use one_time_note.Concurrent.{
  CreateArgs, Call, entered, prepared, full, swept, stored, opening, opened, failed, Chances,
  after_prepare, after_last, after_first, after_cleanup, after_open, advance,
}
use one_time_note.Concurrent.Keeping.{Keeps, Keeps-refl, open_note-Keeps, cleanup-Keeps}
use one_time_note.Concurrent.Moves.{
  is_stored, is_opened, Fits, IsFit, Move, still, works, returns, prepare-Fits, stored-Move,
}

module _ (P : Platform) (s : Limits) (id : Bytes) (until : Time) where
  -- A call that goes on or fails, over a database that is left as it was.
  module _ (c c' : Call) (not_stored : is_stored id c ≡ false) (not_opened : is_opened id c ≡ false)
      (not_stored' : is_stored id c' ≡ false) (not_opened' : is_opened id c' ≡ false) where
    idle-Move : (db db' : Db P.Bucket) → db' ≡ db → Move P s id until c db c' db'
    idle-Move db db' same =
        works not_stored not_opened not_stored' not_opened'
          (subst (Keeps P s id until db) (sym same) (Keeps-refl P s id until db))

  module _ (a : CreateArgs) (d : Draft) (c : Call) (db : Db P.Bucket)
      (not_stored : is_stored id c ≡ false) (not_opened : is_opened id c ≡ false) where
    after_last-Move :
        (faults : Faults) (attempt : Result (Unit {0}) × Db P.Bucket)
        → create_once P faults d db ≡ attempt
        → let x = after_last P s a d attempt in Move P s id until c db x.0 x.1
    unfolding report
    after_last-Move faults (ok u, db') h =
        stored-Move P s id until a d c db not_stored not_opened faults db' h
    after_last-Move faults (err (bolt max_size_reached), db') h =
        idle-Move c _ not_stored not_opened refl refl db db'
          (create_once_error P faults d db db' _ h)
    after_last-Move faults (err e, db') h =
        idle-Move c _ not_stored not_opened refl refl db db'
          (create_once_error P faults d db db' _ h)

    after_first-Move :
        (faults : Faults) (attempt : Result (Unit {0}) × Db P.Bucket)
        → create_once P faults d db ≡ attempt
        → let x = after_first P s a d attempt in Move P s id until c db x.0 x.1
    after_first-Move faults (ok u, db') h = after_last-Move faults (ok u, db') h
    after_first-Move faults (err e, db') h = elim (Bool-cases (is_storage_full e)) [
      | inl no_room ↦ rw no_room (
          idle-Move c (full a d) not_stored not_opened refl refl db db'
            (create_once_error P faults d db db' e h))
      | inr other ↦ rw other (after_last-Move faults (err e, db') h)
    ]

  after_cleanup-Move :
      (a : CreateArgs) (d : Draft) (c : Call) (db : Db P.Bucket)
      → is_stored id c ≡ false
      → is_opened id c ≡ false
      → (r : Result (Unit {0}) × Db P.Bucket) → Keeps P s id until db r.1
      → let x = after_cleanup P s a d r in Move P s id until c db x.0 x.1
  after_cleanup-Move a d c db not_stored not_opened (err e, db') k =
      works not_stored not_opened refl refl k
  after_cleanup-Move a d c db not_stored not_opened (ok u, db') k =
      works not_stored not_opened refl refl k

  module _ (faults : Faults) (now : Time) (i token : Bytes) (db : Db P.Bucket) where
    opened_other :
        (r : Result Note × Db P.Bucket)
        → bytes_eq i id ≡ false
        → Keeps P s id until db r.1
        → let x = after_open P s i r in Move P s id until (opening i token) db x.0 x.1
    opened_other (err e, db') other k = works refl refl refl refl k
    opened_other (ok note, db') other k = works refl refl refl other k

    opened_it :
        (r : Result Note × Db P.Bucket)
        → i ≡ id
        → open_note P s faults now i token db ≡ r
        → Keeps P s id until db r.1
        → let x = after_open P s i r in Move P s id until (opening i token) db x.0 x.1
    opened_it (err e, db') same h k = works refl refl refl refl k
    opened_it (ok note, db') same h k =
        let opens : open_note P s faults now id token db ≡ (ok note, db') =
          subst (λ j. open_note P s faults now j token db ≡ (ok note, db')) same h in
        let (there, gone, _) = open_note-deletes P s faults now id token db db' note opens in
        returns note (ap (λ j. opened j note) same) refl there
          (λ empty. open_note-gone P s id db empty faults now token note (ap (λ x. x.0) opens)) gone
          k

    opening-Move :
        let x = after_open P s i (open_note P s faults now i token db) in
        Move P s id until (opening i token) db x.0 x.1
    opening-Move =
        let k = open_note-Keeps P s id until db faults now i token in
        elim (Bool-cases (bytes_eq i id)) [
          | inl same ↦ opened_it _ (eq_of_bytes_eq i id same) refl k
          | inr other ↦ opened_other _ other k
        ]

  after_prepare-Move :
      (a : CreateArgs) (db : Db P.Bucket) (r : Result Draft)
      → Move P s id until (entered a) db (after_prepare P s a r) db
  after_prepare-Move a db (err e) = idle-Move _ _ refl refl refl refl db db refl
  after_prepare-Move a db (ok d) = idle-Move _ _ refl refl refl refl db db refl

  pub advance-Move :
      (ch : Chances) (c : Call) (db : Db P.Bucket)
      → ch.circumstances.cleaned_at ≤ until
      → let x = advance P s ch c db in Move P s id until c db x.0 x.1
  unfolding advance
  advance-Move ch (entered a) db clean = after_prepare-Move a db _
  advance-Move ch (prepared a d) db clean =
      after_first-Move a d _ db refl refl ch.circumstances.first_faults _ refl
  advance-Move ch (full a d) db clean =
      after_cleanup-Move a d _ db refl refl _ (cleanup-Keeps P s id until db _ _ clean)
  advance-Move ch (swept a d) db clean =
      after_last-Move a d _ db refl refl ch.circumstances.second_faults _ refl
  advance-Move ch (stored a d) db clean = still refl refl
  advance-Move ch (opening i token) db clean = opening-Move ch.open_faults ch.opened_at i token db
  advance-Move ch (opened i note) db clean = still refl refl
  advance-Move ch (failed e) db clean = still refl refl

  after_last-IsFit :
      (a : CreateArgs) (d : Draft) (attempt : Result (Unit {0}) × Db P.Bucket)
      → Fits P s id until a d
      → IsFit P s id until (after_last P s a d attempt).0
  unfolding report
  after_last-IsFit a d (ok u, db) h = h
  after_last-IsFit a d (err (bolt max_size_reached), db) h = tt
  after_last-IsFit a d (err e, db) h = tt

  after_first-IsFit :
      (a : CreateArgs) (d : Draft) (attempt : Result (Unit {0}) × Db P.Bucket)
      → Fits P s id until a d
      → IsFit P s id until (after_first P s a d attempt).0
  after_first-IsFit a d (ok u, db) h = after_last-IsFit a d (ok u, db) h
  after_first-IsFit a d (err e, db) h = elim (Bool-cases (is_storage_full e)) [
    | inl no_room ↦ rw no_room h
    | inr other ↦ rw other (after_last-IsFit a d (err e, db) h)
  ]

  after_cleanup-IsFit :
      (a : CreateArgs) (d : Draft) (r : Result (Unit {0}) × Db P.Bucket)
      → Fits P s id until a d
      → IsFit P s id until (after_cleanup P s a d r).0
  after_cleanup-IsFit a d (err e, db) h = tt
  after_cleanup-IsFit a d (ok u, db) h = h

  after_open-IsFit :
      (i : Bytes) (r : Result Note × Db P.Bucket) → IsFit P s id until (after_open P s i r).0
  after_open-IsFit i (err e, db) = tt
  after_open-IsFit i (ok note, db) = tt

  pub advance-IsFit :
      (ch : Chances) (c : Call) (db : Db P.Bucket)
      → IsFit P s id until c
      → IsFit P s id until (advance P s ch c db).0
  unfolding advance
  advance-IsFit ch (entered a) db h = prepare-Fits P s id until ch a db _ refl h
  advance-IsFit ch (prepared a d) db h = after_first-IsFit a d _ h
  advance-IsFit ch (full a d) db h = after_cleanup-IsFit a d _ h
  advance-IsFit ch (swept a d) db h = after_last-IsFit a d _ h
  advance-IsFit ch (stored a d) db h = h
  advance-IsFit ch (opening i token) db h = after_open-IsFit i _
  advance-IsFit ch (opened i note) db h = tt
  advance-IsFit ch (failed e) db h = tt
