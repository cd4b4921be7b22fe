-- ===== src/Ticket/Verifying.antt =====
-- What `verifyTicket` has established when it accepts a ticket.
use one_time_note.Base.{
  ◌+◌, ◌≤◌, ◌≡◌, ◌∙◌, ap, not, some, ltb, ◌==◌, ◌++◌, ◌∷◌, length, arith, subst,
}
use one_time_note.Base.Text.{Bytes, codes, append-cut, cut, has_prefix, bytes_eq, eq_of_bytes_eq}
use one_time_note.BurnToken.{burn_token_verifier}
use one_time_note.Clock.{Time}
use one_time_note.Codec.{b64_encode, b64_decode}
use one_time_note.Codec.RoundTrip.{b64_encode_of_b64_decode}
use one_time_note.Errors.{
  ok, >>=-eq-ok, fail_if, fail_if-eq-ok, from_option, from_option-eq-ok, ticket_invalid,
}
use one_time_note.Records.{TicketData, RootKeyRecord}
use one_time_note.Platform.{Platform}
use one_time_note.Database.{Db, Faults, view, view-eq-ok}
use one_time_note.RootKey.{get_root_key}
use one_time_note.Ticket.{
  read_ticket, max_ticket_len, ticket_clock_skew, ticket_timeout, validate_ticket_payload,
  split_ticket, ticket_signature, check_signature, verify_ticket,
}

-- A payload that is valid for a path and a time.
pub record IsCurrent (t : TicketData) (path_id : Bytes) (now : Time) : Type 0 where
  pub same_id : t.id ≡ path_id
  pub started : t.issued_at ≤ now + ticket_clock_skew
  pub unexpired : now ≤ t.exp
  pub bounded : t.exp ≤ t.issued_at + ticket_timeout

pub validate_ticket_payload-IsCurrent :
    (t : TicketData) (path_id : Bytes) (now : Time) (v : Bytes)
    → validate_ticket_payload t path_id now ≡ ok v
    → IsCurrent t path_id now × (b64_decode t.burn_verifier ≡ some v) × (length v ≡ 32)
unfolding validate_ticket_payload
validate_ticket_payload-IsCurrent t path_id now v h = ground (arith, eq_of_bytes_eq t.id path_id)

-- The text of a ticket is `v1.`, a payload, a dot and a signature.
pub split_ticket-append :
    (ticket payload_value signature_value : Bytes)
    → split_ticket ticket ≡ ok (payload_value, signature_value)
    → (ticket ≡ codes "v1." ++ (payload_value ++ b'.' ∷ signature_value))
      × (length ticket ≤ max_ticket_len)
unfolding split_ticket
split_ticket-append ticket payload_value signature_value h =
    let (_, short, h₁) =
      >>=-eq-ok (fail_if (ltb max_ticket_len (length ticket)) ticket_invalid) _ h in
    let (_, versioned, h₂) =
      >>=-eq-ok (fail_if (not (has_prefix ticket (codes "v1."))) ticket_invalid) _ h₁ in
    let (parts, first, h₃) = >>=-eq-ok (from_option (cut ticket b'.') ticket_invalid) _ h₂ in
    let (rest, second, h₄) = >>=-eq-ok (from_option (cut parts.1 b'.') ticket_invalid) _ h₃ in
    let (_, _, h₅) = >>=-eq-ok (fail_if (length rest.1 == 0) ticket_invalid) _ h₄ in
    let (_, version, h₆) =
      >>=-eq-ok (fail_if (not (bytes_eq parts.0 (codes "v1"))) ticket_invalid) _ h₅ in
    let text : ticket ≡ parts.0 ++ b'.' ∷ parts.1 =
      append-cut ticket parts.0 parts.1 b'.' (from_option-eq-ok _ _ first) in
    let after : parts.1 ≡ rest.0 ++ b'.' ∷ rest.1 =
      append-cut parts.1 rest.0 rest.1 b'.' (from_option-eq-ok _ _ second) in
    let one : parts.0 ≡ codes "v1" =
      eq_of_bytes_eq _ _ (ground (arith, fail_if-eq-ok _ _ version)) in
    (rw (text, one, after) (cc), ground (arith, fail_if-eq-ok _ _ short))

module _ (P : Platform) where
  pub check_signature-eq-ok :
      (root_secret payload_value signature_value burn_verifier burn_token : Bytes)
      → check_signature P root_secret payload_value signature_value burn_verifier burn_token ≡ ok tt
      → (signature : Bytes) × (ticket_signature P root_secret (codes "v1." ++ payload_value)
          ≡ ok signature)
        × (signature_value ≡ b64_encode signature)
        × (burn_token_verifier P root_secret burn_token ≡ ok burn_verifier)
  unfolding check_signature
  check_signature-eq-ok root_secret payload_value signature_value burn_verifier burn_token h =
      let (expected, signed, h₁) =
        >>=-eq-ok (ticket_signature P root_secret (codes "v1." ++ payload_value)) _ h in
      let (signature, decoded, h₂) =
        >>=-eq-ok (from_option (b64_decode signature_value) ticket_invalid) _ h₁ in
      let (_, same, h₃) =
        >>=-eq-ok (fail_if (not (bytes_eq signature expected)) ticket_invalid) _ h₂ in
      let (verifier, derived, h₄) = >>=-eq-ok (burn_token_verifier P root_secret burn_token) _ h₃ in
      let text : b64_encode signature ≡ signature_value =
        b64_encode_of_b64_decode signature_value signature (from_option-eq-ok _ _ decoded) in
      let equal : signature ≡ expected =
        eq_of_bytes_eq signature expected (ground (arith, fail_if-eq-ok _ _ same)) in
      let own : burn_verifier ≡ verifier =
        eq_of_bytes_eq burn_verifier verifier (ground (arith, fail_if-eq-ok _ _ h₄)) in
      (expected, signed, cc, cc)

  -- What `verifyTicket` reads in the text of a ticket.
  pub record IsRead (ticket payload_value signature_value : Bytes) (t : TicketData) : Type 0 where
    pub payload : Bytes
    pub text : ticket ≡ codes "v1." ++ (payload_value ++ b'.' ∷ signature_value)
    pub encoded : b64_encode payload ≡ payload_value
    pub read : P.unmarshal_ticket payload ≡ some t

  pub read_ticket-IsRead :
      (ticket payload_value signature_value : Bytes) (t : TicketData)
      → read_ticket P ticket ≡ ok (payload_value, signature_value, t)
      → IsRead ticket payload_value signature_value t
  unfolding read_ticket
  read_ticket-IsRead ticket payload_value signature_value t h =
      let (parts, split, h₁) = >>=-eq-ok (split_ticket ticket) _ h in
      let (payload, decoded, h₂) =
        >>=-eq-ok (from_option (b64_decode parts.0) ticket_invalid) _ h₁ in
      let (t', read, h₃) =
        >>=-eq-ok (from_option (P.unmarshal_ticket payload) ticket_invalid) _ h₂ in
      let same : parts.0 ≡ payload_value = cc in
      let same_signature : parts.1 ≡ signature_value = cc in
      let same_data : t' ≡ t = cc in
      record {
        payload = payload;
        text =
            (split_ticket-append ticket parts.0 parts.1 split).0
            ∙ ap (λ (x : Bytes). codes "v1." ++ (x ++ b'.' ∷ parts.1)) same
            ∙ ap (λ (x : Bytes). codes "v1." ++ (payload_value ++ b'.' ∷ x)) same_signature;
        encoded = b64_encode_of_b64_decode parts.0 payload (from_option-eq-ok _ _ decoded) ∙ same;
        read = from_option-eq-ok _ _ read ∙ ap some same_data;
      }

  -- What stands behind an accepted ticket: the server's own signature over its payload, a payload
  -- that is current, and the verifier of the burn token that came with it.
  pub record IsVerified (ticket path_id burn_token : Bytes) (now : Time) (db : Db P.Bucket)
      (t : TicketData) (burn_verifier : Bytes) : Type 0 where
    pub root_key : RootKeyRecord
    pub payload : Bytes
    pub signature : Bytes
    pub key_stored : get_root_key P db.root_keys ≡ ok root_key
    pub text : ticket ≡ codes "v1." ++ (b64_encode payload ++ b'.' ∷ b64_encode signature)
    pub signed :
        ticket_signature P root_key.secret (codes "v1." ++ b64_encode payload) ≡ ok signature
    pub read : P.unmarshal_ticket payload ≡ some t
    pub current : IsCurrent t path_id now
    pub own : burn_token_verifier P root_key.secret burn_token ≡ ok burn_verifier
    pub length_verifier : length burn_verifier ≡ 32

  pub verify_ticket-IsVerified :
      (faults : Faults) (now : Time) (ticket path_id burn_token : Bytes) (db : Db P.Bucket)
      (t : TicketData) (burn_verifier : Bytes)
      → verify_ticket P faults now ticket path_id burn_token db ≡ ok (t, burn_verifier)
      → IsVerified ticket path_id burn_token now db t burn_verifier
  unfolding verify_ticket
  verify_ticket-IsVerified faults now ticket path_id burn_token db t burn_verifier h =
      let (found, is_read, h₃) = >>=-eq-ok (read_ticket P ticket) _ h in
      let r = read_ticket-IsRead ticket found.0 found.1 found.2 is_read in
      let t' = found.2 in
      let (v, valid, h₄) = >>=-eq-ok (validate_ticket_payload t' path_id now) _ h₃ in
      let (root_key, viewed, h₅) =
        >>=-eq-ok (view faults (λ (d : Db P.Bucket). get_root_key P d.root_keys) db) _ h₄ in
      let (_, checked, h₆) =
        >>=-eq-ok (check_signature P root_key.secret found.0 found.1 v burn_token) _ h₅ in
      let (signature, signed, written, own) =
        check_signature-eq-ok root_key.secret found.0 found.1 v burn_token checked in
      let (current, _, long) = validate_ticket_payload-IsCurrent t' path_id now v valid in
      let same : t' ≡ t = cc in
      let same_verifier : v ≡ burn_verifier = cc in
      record {
        root_key = root_key;
        payload = r.payload;
        signature = signature;
        key_stored =
            view-eq-ok faults (λ (d : Db P.Bucket). get_root_key P d.root_keys) db root_key viewed;
        text = rw (r.encoded, ← written) r.text;
        signed = rw r.encoded signed;
        read = r.read ∙ ap some same;
        current = subst (λ x. IsCurrent x path_id now) same current;
        own = own ∙ ap ok same_verifier;
        length_verifier = subst (λ (x : Bytes). length x ≡ 32) same_verifier long;
      }
