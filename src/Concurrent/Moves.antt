-- ===== src/Concurrent/Moves.antt =====
-- What one turn of a call does to the note of an ID: it stores it, or returns it, or leaves it alone.
use one_time_note.Base.{
  ◌≤◌, ◌≡◌, refl, sym, ap, ◌∙◌, subst, some, Bool, false, Bool-cases, inl, inr,
}
use one_time_note.Base.Text.{Bytes, bytes_eq, eq_of_bytes_eq, bytes_eq_refl}
use one_time_note.Clock.{Time}
use one_time_note.Errors.{Result, ok, err}
use one_time_note.Records.{Note, TicketData, UsedTicketMarker}
use one_time_note.Platform.{Platform}
use one_time_note.Database.{Db, Faults}
use one_time_note.Ticket.{read_ticket}
use one_time_note.NoteService.{Limits}
use one_time_note.NoteService.Create.{Draft, create_once, prepare}
use one_time_note.NoteService.Create.Preparing.{prepare-IsPrepared}
use one_time_note.NoteService.Create.Storing.{Stores, create_once-Stores}
use one_time_note.History.Once.{read_ticket_of_verify_ticket}
use one_time_note.History.Burned.{IsGone}
use one_time_note.Concurrent.{
  CreateArgs, Call, entered, prepared, full, swept, stored, opened, Chances, after_prepare,
}
use one_time_note.Concurrent.Keeping.{Keeps, create_once-Keeps}

module _ (id : Bytes) where
  -- Whether the call has stored a note under the ID, and whether it has returned one.
  abbrev pub is_stored : Call → Bool
  is_stored (stored a d) = bytes_eq d.id id
  is_stored _ = false

  abbrev pub is_opened : Call → Bool
  is_opened (opened i note) = bytes_eq i id
  is_opened _ = false

module _ (P : Platform) (s : Limits) (id : Bytes) (until : Time) where
  -- The draft has the payload of its call, and under the ID a marker that is kept until then.
  pub record Fits (a : CreateArgs) (d : Draft) : Type 0 where
    pub payload : d.payload ≡ a.payload
    pub marked :
        d.id ≡ id
        → (m : UsedTicketMarker) × (P.unmarshal_marker d.marker_bytes ≡ some m)
          × (until ≤ m.expires_at)

  -- The ticket of the call, if it is one for the ID, does not expire before then.
  abbrev pub Outlasts : CreateArgs → Type 0
  Outlasts a =
      (r : Bytes × Bytes × TicketData)
      → read_ticket P a.ticket ≡ ok r
      → r.2.id ≡ id
      → until ≤ r.2.exp

  abbrev pub IsFit : Call → Type 0
  IsFit (entered a) = Outlasts a
  IsFit (prepared a d) = Fits a d
  IsFit (full a d) = Fits a d
  IsFit (swept a d) = Fits a d
  IsFit (stored a d) = Fits a d
  IsFit _ = Unit {0}

  -- A turn: the call has returned before, or is not at its end, or stores the note, or returns it.
  pub data Move (c : Call) (db : Db P.Bucket) (c' : Call) (db' : Db P.Bucket) : Type 0 where
    still : c' ≡ c → db' ≡ db → Move c db c' db'
    works :
        is_stored id c ≡ false
        → is_opened id c ≡ false
        → is_stored id c' ≡ false
        → is_opened id c' ≡ false
        → Keeps P s id until db db'
        → Move c db c' db'
    stores :
        (a : CreateArgs) (d : Draft)
        → c' ≡ stored a d
        → d.id ≡ id
        → Stores P d db db'
        → Move c db c' db'
    returns :
        (note : Note)
        → c' ≡ opened id note
        → is_stored id c ≡ false
        → P.get db.payloads id ≡ some note.payload
        → (IsGone P s id db → ⊥)
        → IsGone P s id db'
        → Keeps P s id until db db'
        → Move c db c' db'

  pub prepare-Fits :
      (ch : Chances) (a : CreateArgs) (db : Db P.Bucket) (r : Result Draft)
      → prepare P s ch.circumstances a.path_id a.ticket a.burn_token a.payload a.lifetime db ≡ r
      → Outlasts a
      → IsFit (after_prepare P s a r)
  prepare-Fits ch a db (err e) h outlasts = tt
  prepare-Fits ch a db (ok d) h outlasts =
      let c = ch.circumstances in
      let p =
        prepare-IsPrepared P s c a.path_id a.ticket a.burn_token a.payload a.lifetime db d h in
      let (r, read, same) =
        read_ticket_of_verify_ticket P c.verify_faults c.verified_at a.ticket a.path_id a.burn_token
          db p.t p.burn_verifier p.verified in
      record {
        payload = p.same_payload;
        marked = λ is_id. (
          record { expires_at = p.t.exp },
          P.marker_read (record { expires_at = p.t.exp }) d.marker_bytes p.marker,
          subst (λ (t : TicketData). until ≤ t.exp) same
              (outlasts r read (ap (λ (t : TicketData). t.id) same ∙ sym p.same_id ∙ is_id)),
        );
      }

  module _ (a : CreateArgs) (d : Draft) (c : Call) (db : Db P.Bucket)
      (not_stored : is_stored id c ≡ false) (not_opened : is_opened id c ≡ false) where
    pub stored-Move :
        (faults : Faults) (db' : Db P.Bucket)
        → create_once P faults d db ≡ (ok tt, db')
        → Move c db (stored a d) db'
    stored-Move faults db' h = elim (Bool-cases (bytes_eq d.id id)) [
      | inl same ↦
          stores a d refl (eq_of_bytes_eq d.id id same) (create_once-Stores P faults d db db' h)
      | inr other ↦ works not_stored not_opened other refl (
          subst (Keeps P s id until db) (ap (λ (x : Result (Unit {0}) × Db P.Bucket). x.1) h)
            (create_once-Keeps P s id until db faults d (λ p. cc (bytes_eq_refl id))))
    ]
