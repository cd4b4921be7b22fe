-- ===== src/History/Once.antt =====
-- A ticket makes one note at most, and a note is returned once at most.
use one_time_note.Base.{Option-cases, ◌≤◌, ◌≡◌, ◌≢◌, refl, ap, ◌∙◌, false, some, arith, inl, inr}
use one_time_note.Base.Text.{Bytes, bytes_eq_refl}
use one_time_note.Clock.{Time, Duration}
use one_time_note.Errors.{
  max_size_reached, ticket_unusable, bolt, Error, Result, ok, err, >>=-eq-ok,
}
use one_time_note.Records.{TicketData}
use one_time_note.Platform.{Platform}
use one_time_note.Database.{view, Db, Faults}
use one_time_note.Ticket.{check_signature, validate_ticket_payload, read_ticket, verify_ticket}
use one_time_note.Ticket.Verifying.{verify_ticket-IsVerified}
use one_time_note.RootKey.{get_root_key}
use one_time_note.NoteService.{is_storage_full, Limits}
use one_time_note.NoteService.Create.{
  Circumstances, Draft, prepare, create_in_tx, create_once, report, retry, create_note,
}
use one_time_note.NoteService.Create.Storing.{create_note-Stores}
use one_time_note.NoteService.Create.Preparing.{prepare-IsPrepared}
use one_time_note.History.{State, Reach}
use one_time_note.History.Markers.{IsUsed, Reach-IsUsed}

module _ (P : Platform) where
  -- What a ticket says depends on its text alone.
  pub read_ticket_of_verify_ticket :
      (faults : Faults) (now : Time) (ticket path_id burn_token : Bytes) (db : Db P.Bucket)
      (t : TicketData) (v : Bytes)
      → verify_ticket P faults now ticket path_id burn_token db ≡ ok (t, v)
      → (r : Bytes × Bytes × TicketData) × (read_ticket P ticket ≡ ok r) × (r.2 ≡ t)
  unfolding verify_ticket
  read_ticket_of_verify_ticket faults now ticket path_id burn_token db t v h =
      let (r, read, h₁) = >>=-eq-ok (read_ticket P ticket) _ h in
      let (w, valid, h₂) = >>=-eq-ok (validate_ticket_payload r.2 path_id now) _ h₁ in
      let (root_key, viewed, h₃) =
        >>=-eq-ok (view faults (λ (d : Db P.Bucket). get_root_key P d.root_keys) db) _ h₂ in
      let (_, checked, h₄) =
        >>=-eq-ok (check_signature P root_key.secret r.0 r.1 w burn_token) _ h₃ in
      (r, read, cc)

  -- With the marker there, an attempt to store the note fails, and not for want of room.
  create_once-used :
      (faults : Faults) (d : Draft) (db : Db P.Bucket) (marker_bytes : Bytes)
      → P.get db.used_tickets d.id ≡ some marker_bytes
      → faults.at_begin ≢ some max_size_reached
      → (e : Error) × ((create_once P faults d db).0 ≡ err e)
        × (is_storage_full e ≡ false)
        × (e ≢ bolt max_size_reached)
  unfolding create_once create_in_tx is_storage_full
  create_once-used faults d db marker_bytes h room = elim (Option-cases faults.at_begin) [
    | inl e ↦ (ticket_unusable, ground (arith, e), refl, λ p. cc)
    | inr (x, e) ↦ (bolt x, ground (arith, e), ground (arith, e), ground (arith, e))
  ]

  retry_refused :
      (s : Limits) (c : Circumstances) (d : Draft) (attempt : Result (Unit {0}) × Db P.Bucket)
      (e : Error) (id : Bytes)
      → attempt.0 ≡ err e
      → is_storage_full e ≡ false
      → e ≢ bolt max_size_reached
      → (retry P s c d attempt).0 ≢ ok id
  unfolding retry report
  retry_refused s c d (ok u, db) e id h full n = cc
  retry_refused s c d (err (bolt max_size_reached), db) e id h full n = absurd (n (cc))
  retry_refused s c d (err x, db) e id h full n = ground arith

  create_note_used :
      (s : Limits) (c : Circumstances) (path_id ticket burn_token payload : Bytes)
      (lifetime : Duration) (db : Db P.Bucket) (d : Draft) (marker_bytes id : Bytes)
      → prepare P s c path_id ticket burn_token payload lifetime db ≡ ok d
      → P.get db.used_tickets d.id ≡ some marker_bytes
      → c.first_faults.at_begin ≢ some max_size_reached
      → (create_note P s c path_id ticket burn_token payload lifetime db).0 ≢ ok id
  unfolding create_note
  create_note_used s c path_id ticket burn_token payload lifetime db d marker_bytes id prepared h
        room =
      let (e, failed, full, n) = create_once-used c.first_faults d db marker_bytes h room in
      rw (prepared, create_note)
        (retry_refused s c d (create_once P c.first_faults d db) e id failed full n)

  module _ (s : Limits) (c : Circumstances) (path_id ticket burn_token payload : Bytes)
      (lifetime : Duration) (db : Db P.Bucket) (y : State P) (id : Bytes)
      (created : create_note P s c path_id ticket burn_token payload lifetime db
        ≡ (ok id, y.db)) where
    -- The ticket's marker is in the database that the call leaves, until the ticket expires.
    create_note-IsUsed :
        (t : TicketData) × (r : Bytes × Bytes × TicketData) × (read_ticket P ticket ≡ ok r)
        × (r.2 ≡ t)
        × (marker_bytes : Bytes) × IsUsed P s t.id marker_bytes t.exp y.db
    create_note-IsUsed =
        let (d, prepared, (base, same, from, st)) =
          create_note-Stores P s c path_id ticket burn_token payload lifetime db y.db id created in
        let p = prepare-IsPrepared P s c path_id ticket burn_token payload lifetime db d prepared in
        let (r, read, content) =
          read_ticket_of_verify_ticket c.verify_faults c.verified_at ticket path_id burn_token db
            p.t p.burn_verifier p.verified in
        (
          p.t,
          r,
          read,
          content,
          d.marker_bytes,
          record {
            marker = record { expires_at = p.t.exp };
            stored = ground (
              arith,
              st.stored,
              p.same_id,
              P.get-put base.used_tickets d.id d.marker_bytes d.id,
              bytes_eq_refl d.id,
            );
            read = P.marker_read (record { expires_at = p.t.exp }) d.marker_bytes p.marker;
            kept = omega arith;
          },
        )

    -- A ticket makes one note at most, where calls do not overlap. After a call of `CreateNote` that
    -- returned an ID, and whatever transactions have run since, no call with the same ticket that verifies
    -- it at that time or later returns an ID, whatever its path, burn token, payload and lifetime, given
    -- that the transactions of each of the two calls run with no other in between, and that bbolt does not
    -- answer `ErrMaxSizeReached` at the begin of the later call's first transaction.
    pub create_note_once :
        (z : State P) (c' : Circumstances) (path_id' burn_token' payload' : Bytes)
        (lifetime' : Duration) (id' : Bytes)
        → Reach P s y z
        → z.clock ≤ c'.verified_at
        → c'.first_faults.at_begin ≢ some max_size_reached
        → (create_note P s c' path_id' ticket burn_token' payload' lifetime' z.db).0 ≢ ok id'
    create_note_once z c' path_id' burn_token' payload' lifetime' id' reach later room h =
        let (t, r, read, content, b, used) = create_note-IsUsed in
        let after = (create_note P s c' path_id' ticket burn_token' payload' lifetime' z.db).1 in
        let (d, prepared, _) =
          create_note-Stores P s c' path_id' ticket burn_token' payload' lifetime' z.db after id'
            (whole h) in
        let p =
          prepare-IsPrepared P s c' path_id' ticket burn_token' payload' lifetime' z.db d
            prepared in
        let v =
          verify_ticket-IsVerified P c'.verify_faults c'.verified_at ticket path_id' burn_token'
            z.db p.t p.burn_verifier p.verified in
        let (r', read', content') =
          read_ticket_of_verify_ticket c'.verify_faults c'.verified_at ticket path_id' burn_token'
            z.db p.t p.burn_verifier p.verified in
        let same : p.t ≡ t = cc in
        let fresh : z.clock ≤ t.exp =
          omega (arith, v.current.unexpired, ap (λ (x : TicketData). x.exp) same) in
        let still = Reach-IsUsed P s t.id b t.exp reach fresh used in
        let stored : P.get z.db.used_tickets d.id ≡ some b =
          ap (P.get z.db.used_tickets) (p.same_id ∙ ap (λ (x : TicketData). x.id) same)
          ∙ still.stored in
        create_note_used s c' path_id' ticket burn_token' payload' lifetime' z.db d b id' prepared
          stored room h
      where
        whole :
            (create_note P s c' path_id' ticket burn_token' payload' lifetime' z.db).0 ≡ ok id'
            → create_note P s c' path_id' ticket burn_token' payload' lifetime' z.db
              ≡ (ok id', (create_note P s c' path_id' ticket burn_token' payload' lifetime' z.db).1)
        whole e =
            λ i. (e i, (create_note P s c' path_id' ticket burn_token' payload' lifetime' z.db).1)
