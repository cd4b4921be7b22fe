-- ===== src/Concurrent/Life.antt =====
-- The life of a note under the turns of all calls: it is not there, or stored by one call; and then not
-- read, or returned by one call.
use one_time_note.Base.{ℕ, ◌≡◌, ◌⊎◌, ap, ◌∙◌, some, true, false}
use one_time_note.Base.Text.{Bytes, bytes_eq_refl}
use one_time_note.Clock.{Time}
use one_time_note.Records.{Note}
use one_time_note.Platform.{Platform}
use one_time_note.NoteService.{Limits}
use one_time_note.NoteService.Create.{Draft}
use one_time_note.History.Markers.{IsUsed}
use one_time_note.History.Burned.{IsGone}
use one_time_note.Concurrent.{CreateArgs, Call, stored, opened, System, assign}
use one_time_note.Concurrent.Numbering.{assign_other}
use one_time_note.Concurrent.Moves.{is_stored, is_opened}

module _ (P : Platform) (s : Limits) (id : Bytes) (until : Time) where
  pub record IsFresh (x : System P s) : Type 0 where
    pub gone : IsGone P s id x.db
    pub not_stored : (i : ℕ) → is_stored id (x.calls i) ≡ false
    pub not_opened : (i : ℕ) → is_opened id (x.calls i) ≡ false

  -- One call has returned the note, with the payload, and its records are gone.
  pub record IsRead (payload : Bytes) (x : System P s) : Type 0 where
    pub reader : ℕ
    pub gone : IsGone P s id x.db
    pub alone : (i : ℕ) → is_opened id (x.calls i) ≡ true → i ≡ reader
    pub content : (i : ℕ) (note : Note) → x.calls i ≡ opened id note → note.payload ≡ payload

  -- One call has stored the note.
  pub record IsMade (x : System P s) : Type 0 where
    pub maker : ℕ
    pub args : CreateArgs
    pub draft : Draft
    pub made : x.calls maker ≡ stored args draft
    pub same : draft.id ≡ id
    pub alone : (i : ℕ) → is_stored id (x.calls i) ≡ true → i ≡ maker
    pub marker_bytes : Bytes
    pub used : IsUsed P s id marker_bytes until x.db
    pub payload : (p : Bytes) → P.get x.db.payloads id ≡ some p → p ≡ args.payload
    pub read : ((i : ℕ) → is_opened id (x.calls i) ≡ false) ⊎ IsRead args.payload x

  pub is_opened-false : (c : Call) (note : Note) → is_opened id c ≡ false → c ≡ opened id note → ⊥
  is_opened-false c note h e = let flag = ap (is_opened id) e in cc (bytes_eq_refl id, flag, h)

  pub is_stored-false :
      (c : Call) (a : CreateArgs) (d : Draft)
      → is_stored id c ≡ false
      → c ≡ stored a d
      → d.id ≡ id
      → ⊥
  is_stored-false c a d h e same =
      let flag = ap (is_stored id) e in cc (bytes_eq_refl id, flag, h, same)

  -- The call that has stored the note is not the one that has a turn.
  pub still_made :
      (x : System P s) (i : ℕ) (c : Call) (m : IsMade x)
      → is_stored id (x.calls i) ≡ false
      → assign x.calls i c m.maker ≡ stored m.args m.draft
  still_made x i c m not_stored =
      assign_other x.calls i c m.maker
        (λ e. is_stored-false (x.calls i) m.args m.draft not_stored (ap x.calls e ∙ m.made) m.same)
      ∙ m.made

  abbrev pub IsAlive : System P s → Type 0
  IsAlive x = IsFresh x ⊎ IsMade x
