-- ===== src/NoteService/Create/Preparing.antt =====
-- What `CreateNote` has checked, and what it is about to store, when it reaches the database.
use one_time_note.Base.{ℕ, ◌+◌, ◌<◌, ◌≤◌, ◌≡◌, sym, ap, subst, ◌∙◌, some, length, arith, ltb, ◌==◌}
use one_time_note.Base.Text.{Bytes}
use one_time_note.Base.Int.{pos}
use one_time_note.Clock.{Duration, add}
use one_time_note.Errors.{
  payload_empty, payload_too_large, ticket_invalid, marshal_failed, ok, >>=-eq-ok, fail_if,
  fail_if-eq-ok, from_option, from_option-eq-ok,
}
use one_time_note.Records.{Metadata, TicketData}
use one_time_note.Platform.{Platform}
use one_time_note.Database.{Db}
use one_time_note.Ticket.{max_ticket_len, verify_ticket}
use one_time_note.NoteService.{Limits, normalize_lifetime, min_note_lifetime}
use one_time_note.NoteService.Validity.{normalize_lifetime_iff}
use one_time_note.NoteService.Create.{Circumstances, Draft, prepare}

abbrev pub created_metadata : Circumstances → Bytes → ℕ → Metadata
created_metadata c burn_verifier n = record {
  burn_verifier = burn_verifier;
  created_at = c.created_at;
  expires_at = c.created_at + n;
}

abbrev draft : Bytes → Bytes → Bytes → Bytes → Draft
draft id metadata_bytes payload marker_bytes = record {
  id = id;
  metadata_bytes = metadata_bytes;
  payload = payload;
  marker_bytes = marker_bytes;
}

module _ (P : Platform) (s : Limits) (c : Circumstances) (path_id ticket burn_token payload : Bytes)
    (lifetime : Duration) (db : Db P.Bucket) where
  pub record IsPrepared (d : Draft) : Type 0 where
    pub t : TicketData
    pub burn_verifier : Bytes
    pub span : ℕ
    pub verified :
        verify_ticket P c.verify_faults c.verified_at ticket path_id burn_token db
        ≡ ok (t, burn_verifier)
    pub lifetime_read : lifetime ≡ pos span
    pub at_least : min_note_lifetime ≤ span
    pub at_most : span ≤ s.max_lifetime
    pub same_id : d.id ≡ t.id
    pub same_payload : d.payload ≡ payload
    pub nonempty : 0 < length payload
    pub fits : length payload ≤ s.max_size
    pub metadata :
        P.marshal_metadata (created_metadata c burn_verifier span) ≡ some d.metadata_bytes
    pub marker : P.marshal_marker (record { expires_at = t.exp }) ≡ some d.marker_bytes

  pub prepare-IsPrepared :
      (d : Draft)
      → prepare P s c path_id ticket burn_token payload lifetime db ≡ ok d
      → IsPrepared d
  unfolding prepare
  prepare-IsPrepared d h =
      let (_, _, h₁) =
        >>=-eq-ok (fail_if (ltb max_ticket_len (length ticket)) ticket_invalid) _ h in
      let (_, full, h₂) = >>=-eq-ok (fail_if (length payload == 0) payload_empty) _ h₁ in
      let (_, small, h₃) =
        >>=-eq-ok (fail_if (ltb s.max_size (length payload)) payload_too_large) _ h₂ in
      let (l, normal, h₄) = >>=-eq-ok (normalize_lifetime s lifetime) _ h₃ in
      let (n, is_span, same_span, low, high) = (normalize_lifetime_iff s lifetime l).0 normal in
      let (seen, verified, h₅) =
        >>=-eq-ok (verify_ticket P c.verify_faults c.verified_at ticket path_id burn_token db) _
          h₄ in
      let m : Metadata = record {
        burn_verifier = seen.1;
        created_at = c.created_at;
        expires_at = add c.created_at l;
      } in
      let (mb, metadata, h₆) = >>=-eq-ok (from_option (P.marshal_metadata m) marshal_failed) _ h₅ in
      let (kb, marker, h₇) =
        >>=-eq-ok
          (from_option (P.marshal_marker (record { expires_at = seen.0.exp })) marshal_failed) _
          h₆ in
      let drafted : draft seen.0.id mb payload kb ≡ d = cc in
      record {
        t = seen.0;
        burn_verifier = seen.1;
        span = n;
        verified = verified;
        lifetime_read = is_span;
        at_least = low;
        at_most = high;
        same_id = ap (λ (x : Draft). x.id) (sym drafted);
        same_payload = ap (λ (x : Draft). x.payload) (sym drafted);
        nonempty = ground (arith, fail_if-eq-ok _ _ full);
        fits = ground (arith, fail_if-eq-ok _ _ small);
        metadata =
            subst
              (λ (x : Duration).
                P.marshal_metadata (record m { expires_at = add c.created_at x }) ≡ some mb)
              same_span (from_option-eq-ok _ _ metadata)
            ∙ ap (λ (x : Draft). some x.metadata_bytes) drafted;
        marker = from_option-eq-ok _ _ marker ∙ ap (λ (x : Draft). some x.marker_bytes) drafted;
      }
