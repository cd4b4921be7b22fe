-- ===== src/Concurrent/Ending.antt =====
-- A call ends, whatever turns the other calls and the background cleanup take in between.
use one_time_note.Base.{
  ℕ, ◌+◌, ◌-◌, ◌≤◌, ◌≡◌, refl, ap, Bool, true, false, ◌==◌, ==_iff, Bool-cases, List, [], ◌∷◌,
  arith, inl, inr, if◌then◌else◌,
}
use one_time_note.Base.Text.{Bytes}
use one_time_note.Errors.{Result, ok, err, bolt, max_size_reached}
use one_time_note.Records.{Note}
use one_time_note.Platform.{Platform}
use one_time_note.Database.{Db}
use one_time_note.NoteService.{Limits, is_storage_full}
use one_time_note.NoteService.Create.{Draft, report}
use one_time_note.Concurrent.{
  CreateArgs, Call, entered, prepared, full, swept, stored, opening, opened, failed, Chances, Turn,
  call, background_cleanup, System, assign, after_prepare, after_last, after_first, after_cleanup,
  after_open, advance, take_turn, take_turns,
}

unfoldable pub has_returned : Call → Bool
has_returned (stored a d) = true
has_returned (opened id note) = true
has_returned (failed e) = true
has_returned _ = false

-- How many turns a call has before it at most.
turns_left : Call → ℕ
turns_left (entered a) = 4
turns_left (prepared a d) = 3
turns_left (full a d) = 2
turns_left (swept a d) = 1
turns_left (opening id token) = 1
turns_left _ = 0

turns_left-le : (c : Call) → turns_left c ≤ 4
unfolding turns_left
turns_left-le c = ground arith

has_returned-eq_true : (c : Call) → turns_left c ≡ 0 → has_returned c ≡ true
unfolding has_returned turns_left
has_returned-eq_true (entered a) h = absurd (omega (arith, h))
has_returned-eq_true (prepared a d) h = absurd (omega (arith, h))
has_returned-eq_true (full a d) h = absurd (omega (arith, h))
has_returned-eq_true (swept a d) h = absurd (omega (arith, h))
has_returned-eq_true (opening id token) h = absurd (omega (arith, h))
has_returned-eq_true (stored a d) h = refl
has_returned-eq_true (opened id note) h = refl
has_returned-eq_true (failed e) h = refl

-- The turns of a call in a sequence of turns.
unfoldable pub turns_of : ℕ → List Turn → ℕ
turns_of i [] = 0
turns_of i (call j ch ∷ turns) = (if j == i then 1 else 0) + turns_of i turns
turns_of i (background_cleanup faults at ∷ turns) = turns_of i turns

module _ (P : Platform) (s : Limits) where
  after_prepare-turns_left :
      (a : CreateArgs) (r : Result Draft) → turns_left (after_prepare P s a r) ≤ 3
  unfolding turns_left
  after_prepare-turns_left a (err e) = omega arith
  after_prepare-turns_left a (ok d) = omega arith

  after_last-turns_left :
      (a : CreateArgs) (d : Draft) (attempt : Result (Unit {0}) × Db P.Bucket)
      → turns_left (after_last P s a d attempt).0 ≡ 0
  unfolding turns_left report
  after_last-turns_left a d (ok u, db) = refl
  after_last-turns_left a d (err (bolt max_size_reached), db) = refl
  after_last-turns_left a d (err e, db) = refl

  after_first-turns_left :
      (a : CreateArgs) (d : Draft) (attempt : Result (Unit {0}) × Db P.Bucket)
      → turns_left (after_first P s a d attempt).0 ≤ 2
  unfolding turns_left
  after_first-turns_left a d (ok u, db) = omega (arith, after_last-turns_left a d (ok u, db))
  after_first-turns_left a d (err e, db) = elim (Bool-cases (is_storage_full e)) [
    | inl no_room ↦ rw no_room (omega arith)
    | inr other ↦ rw other (omega (arith, after_last-turns_left a d (err e, db)))
  ]

  after_cleanup-turns_left :
      (a : CreateArgs) (d : Draft) (r : Result (Unit {0}) × Db P.Bucket)
      → turns_left (after_cleanup P s a d r).0 ≤ 1
  unfolding turns_left
  after_cleanup-turns_left a d (err e, db) = omega arith
  after_cleanup-turns_left a d (ok u, db) = omega arith

  after_open-turns_left :
      (id : Bytes) (r : Result Note × Db P.Bucket) → turns_left (after_open P s id r).0 ≡ 0
  unfolding turns_left
  after_open-turns_left id (err e, db) = refl
  after_open-turns_left id (ok note, db) = refl

  advance-turns_left :
      (ch : Chances) (c : Call) (db : Db P.Bucket)
      → turns_left (advance P s ch c db).0 ≤ turns_left c - 1
  unfolding advance turns_left
  advance-turns_left ch (entered a) db = omega (arith, after_prepare-turns_left a _)
  advance-turns_left ch (prepared a d) db = omega (arith, after_first-turns_left a d _)
  advance-turns_left ch (full a d) db = omega (arith, after_cleanup-turns_left a d _)
  advance-turns_left ch (swept a d) db = omega (arith, after_last-turns_left a d _)
  advance-turns_left ch (stored a d) db = omega arith
  advance-turns_left ch (opening id token) db = omega (arith, after_open-turns_left id _)
  advance-turns_left ch (opened id note) db = omega arith
  advance-turns_left ch (failed e) db = omega arith

  take_turns-turns_left :
      (turns : List Turn) (x : System P s) (i : ℕ)
      → turns_left ((take_turns P s turns x).calls i) ≤ turns_left (x.calls i) - turns_of i turns
  unfolding take_turns take_turn turns_of
  take_turns-turns_left [] x i = omega arith
  take_turns-turns_left (background_cleanup faults at ∷ turns) x i = take_turns-turns_left turns _ i
  take_turns-turns_left (call j ch ∷ turns) x i =
      let (c, db) = advance P s ch (x.calls j) x.db in
      let later = take_turns-turns_left turns (record { db = db; calls = assign x.calls j c }) i in
      elim (Bool-cases (j == i)) [
        | inr other ↦
            let same : assign x.calls j c i ≡ x.calls i = rw other in
            rw other (omega (arith, later, ap turns_left same))
        | inl own ↦
            let new : assign x.calls j c i ≡ c = rw own in
            let before : x.calls j ≡ x.calls i = ap x.calls ((==_iff j i).0 own) in
            rw own (
              omega (
                arith,
                later,
                ap turns_left new,
                ap turns_left before,
                advance-turns_left ch (x.calls j) x.db,
              ))
      ]

  -- Every call returns by its fourth turn at the latest, whatever turns the other calls and the background
  -- cleanup take in between.
  pub take_turns-has_returned :
      (turns : List Turn) (x : System P s) (i : ℕ)
      → 4 ≤ turns_of i turns
      → has_returned ((take_turns P s turns x).calls i) ≡ true
  take_turns-has_returned turns x i enough =
      has_returned-eq_true _
        (omega (arith, take_turns-turns_left turns x i, turns_left-le (x.calls i)))
