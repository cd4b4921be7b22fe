-- ===== src/History/Attempts.antt =====
-- The attempts to store a note with a ticket, where calls overlap: each attempt is a transaction, and the
-- ticket was verified before it.
use one_time_note.Base.{◌≤◌, ◌≡◌, ◌≢◌, ap, ◌∙◌, some, arith}
use one_time_note.Base.Text.{Bytes, bytes_eq_refl}
use one_time_note.Clock.{Duration}
use one_time_note.Errors.{ok}
use one_time_note.Records.{TicketData}
use one_time_note.Platform.{Platform}
use one_time_note.Database.{Db, Faults}
use one_time_note.Ticket.{read_ticket}
use one_time_note.NoteService.{Limits}
use one_time_note.NoteService.Create.{Circumstances, Draft, prepare, create_in_tx, create_once}
use one_time_note.NoteService.Create.Storing.{create_once-Stores}
use one_time_note.NoteService.Create.Preparing.{prepare-IsPrepared}
use one_time_note.History.{State, Reach}
use one_time_note.History.Markers.{IsUsed, Reach-IsUsed}
use one_time_note.History.Once.{read_ticket_of_verify_ticket}

module _ (P : Platform) where
  -- With the marker there, an attempt to store the note fails.
  create_once_with_marker :
      (faults : Faults) (d : Draft) (db : Db P.Bucket) (marker_bytes : Bytes)
      → P.get db.used_tickets d.id ≡ some marker_bytes
      → (create_once P faults d db).0 ≢ ok tt
  unfolding create_once create_in_tx
  create_once_with_marker faults d db marker_bytes h e = ground (arith, h, e)

  module _ (s : Limits) (ticket : Bytes) where
    -- What a call with the ticket stores, which has verified it on some database.
    pub record IsDraftOf (d : Draft) : Type 0 where
      pub circumstances : Circumstances
      pub path_id : Bytes
      pub burn_token : Bytes
      pub payload : Bytes
      pub lifetime : Duration
      pub verified_on : Db P.Bucket
      pub prepared :
          prepare P s circumstances path_id ticket burn_token payload lifetime verified_on ≡ ok d

    module _ (r : Bytes × Bytes × TicketData) (read : read_ticket P ticket ≡ ok r) where
      IsDraftOf-id : (d : Draft) → IsDraftOf d → d.id ≡ r.2.id
      IsDraftOf-id d f =
          let p =
            prepare-IsPrepared P s f.circumstances f.path_id ticket f.burn_token f.payload
              f.lifetime f.verified_on d f.prepared in
          let (r', read', content) =
            read_ticket_of_verify_ticket P f.circumstances.verify_faults f.circumstances.verified_at
              ticket f.path_id f.burn_token f.verified_on p.t p.burn_verifier p.verified in
          let same : p.t ≡ r.2 = cc in p.same_id ∙ ap (λ (x : TicketData). x.id) same

      -- The draft of an attempt that succeeded has left the ticket's marker.
      create_once-IsUsed :
          (d : Draft) (faults : Faults) (db db' : Db P.Bucket)
          → IsDraftOf d
          → create_once P faults d db ≡ (ok tt, db')
          → IsUsed P s r.2.id d.marker_bytes r.2.exp db'
      create_once-IsUsed d faults db db' f stored =
          let p =
            prepare-IsPrepared P s f.circumstances f.path_id ticket f.burn_token f.payload
              f.lifetime f.verified_on d f.prepared in
          let (r', read', content) =
            read_ticket_of_verify_ticket P f.circumstances.verify_faults f.circumstances.verified_at
              ticket f.path_id f.burn_token f.verified_on p.t p.burn_verifier p.verified in
          let same : p.t ≡ r.2 = cc in
          let st = create_once-Stores P faults d db db' stored in
          record {
            marker = record { expires_at = p.t.exp };
            stored = ground (
              arith,
              st.stored,
              IsDraftOf-id d f,
              P.get-put db.used_tickets d.id d.marker_bytes d.id,
              bytes_eq_refl d.id,
            );
            read = P.marker_read (record { expires_at = p.t.exp }) d.marker_bytes p.marker;
            kept = omega (arith, ap (λ (x : TicketData). x.exp) same);
          }

      -- Until a ticket expires, one attempt at most to store a note with it succeeds, however calls
      -- overlap: after an attempt succeeded, and whatever transactions have run since, no attempt succeeds,
      -- whatever the path, burn token, payload and lifetime of its call, and whenever and on whatever
      -- database the two calls have verified the ticket.
      pub attempted_once :
          (db : Db P.Bucket) (y z : State P) (d d' : Draft) (faults faults' : Faults)
          → IsDraftOf d
          → IsDraftOf d'
          → create_once P faults d db ≡ (ok tt, y.db)
          → Reach P s y z
          → z.clock ≤ r.2.exp
          → (create_once P faults' d' z.db).0 ≢ ok tt
      attempted_once db y z d d' faults faults' f f' stored reach unexpired =
          let used = create_once-IsUsed d faults db y.db f stored in
          let still = Reach-IsUsed P s r.2.id d.marker_bytes r.2.exp reach unexpired used in
          create_once_with_marker faults' d' z.db d.marker_bytes
            (ap (P.get z.db.used_tickets) (IsDraftOf-id d' f') ∙ still.stored)
