-- ===== src/History/Calls.antt =====
-- A call of `CreateNote` is a sequence of the history's transactions.
use one_time_note.Base.{◌≤◌, ◌≡◌, refl, sym, ap, ◌∙◌, subst, arith, length, Bool-cases, inl, inr}
use one_time_note.Base.Text.{Bytes}
use one_time_note.Clock.{Time, Duration}
use one_time_note.Errors.{Result, Result-cases, ok, err}
use one_time_note.Platform.{Platform}
use one_time_note.Database.{Db}
use one_time_note.Ticket.Verifying.{verify_ticket-IsVerified}
use one_time_note.NoteService.{Limits, is_storage_full}
use one_time_note.NoteService.Create.{
  Circumstances, Draft, prepare, report, second_attempt, retry, create_note,
}
use one_time_note.NoteService.Create.Preparing.{prepare-IsPrepared}
use one_time_note.History.{State, attempted, cleaned, Reach, here, next}

module _ (P : Platform) (s : Limits) (c : Circumstances) where
  report-db : (id : Bytes) (r : Result (Unit {0})) (db : Db P.Bucket) → (report P id (r, db)).1 ≡ db
  unfolding report
  report-db id r db = ground arith

  length-prepare :
      (path_id ticket burn_token payload : Bytes) (lifetime : Duration) (db : Db P.Bucket)
      (d : Draft)
      → prepare P s c path_id ticket burn_token payload lifetime db ≡ ok d
      → length path_id ≡ 32
      → length d.id ≡ 32
  length-prepare path_id ticket burn_token payload lifetime db d h long =
      let p = prepare-IsPrepared P s c path_id ticket burn_token payload lifetime db d h in
      let v =
        verify_ticket-IsVerified P c.verify_faults c.verified_at ticket path_id burn_token db p.t
          p.burn_verifier p.verified in
      ap length (p.same_id ∙ v.current.same_id) ∙ long

  module _ (now : Time) (cleaned_by : c.cleaned_at ≤ now) where
    -- The state at `now` with a database.
    abbrev at_now : Db P.Bucket → State P
    at_now db = record { clock = now; db = db }

    module _ (x : State P) (d : Draft) (long : length d.id ≡ 32) where
      second_attempt-Reach :
          (r : Result (Unit {0})) (db : Db P.Bucket)
          → Reach P s x (at_now db)
          → Reach P s x (at_now (second_attempt P c d (r, db)).1)
      unfolding second_attempt
      second_attempt-Reach (err e) db h = h
      second_attempt-Reach (ok u) db h =
          next h (attempted c.second_faults d long (omega arith) (report-db d.id _ _))

      retry-Reach :
          (r : Result (Unit {0})) (db : Db P.Bucket)
          → Reach P s x (at_now db)
          → Reach P s x (at_now (retry P s c d (r, db)).1)
      unfolding retry
      retry-Reach (ok u) db h =
          subst (λ (y : Db P.Bucket). Reach P s x (at_now y)) (sym (report-db d.id _ db)) h
      retry-Reach (err e) db h = elim (Bool-cases (is_storage_full e)) [
        | inl full ↦ rw full (
            second_attempt-Reach _ _
              (next h (cleaned c.cleanup_faults c.cleaned_at cleaned_by (omega arith) refl)))
        | inr other ↦
            rw other
              (subst (λ (y : Db P.Bucket). Reach P s x (at_now y)) (sym (report-db d.id _ db)) h)
      ]

    -- A call of `CreateNote` for a path's ID of 32 bytes changes the database by transactions of the
    -- history only, at a time that its cleanup does not run ahead of, whatever it returns.
    pub create_note-Reach :
        (path_id ticket burn_token payload : Bytes) (lifetime : Duration) (db : Db P.Bucket)
        → length path_id ≡ 32
        → Reach P s
            (at_now db)
            (at_now (create_note P s c path_id ticket burn_token payload lifetime db).1)
    unfolding create_note
    create_note-Reach path_id ticket burn_token payload lifetime db long =
        elim (Result-cases (prepare P s c path_id ticket burn_token payload lifetime db)) [
          | inl (d, prepared) ↦
              rw (prepared, create_note)
                (retry-Reach (at_now db) d
                  (length-prepare path_id ticket burn_token payload lifetime db d prepared long) _ _
                  (next here (
                    attempted c.first_faults d
                      (length-prepare path_id ticket burn_token payload lifetime db d prepared long)
                      (omega arith) refl)))
          | inr (e, refused) ↦ rw (refused, create_note) here
        ]
