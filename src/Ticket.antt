-- ===== src/Ticket.antt =====
-- ticket.go: one-use creation tickets, signed with a key derived from the root key. A ticket's text is
-- `v1.` + base64url(JSON) + `.` + base64url(HMAC).
pub mod Verifying
pub mod Issuing
use one_time_note.Base.{ℕ, ◌*◌, not, ◌||◌, ◌∷◌, ◌++◌, ltb, ◌==◌, length}
use one_time_note.Base.Text.{Bytes, codes, bytes_eq, has_prefix, cut}
use one_time_note.Base.Int.{pos, ltb_ℤ, eq_ℤ}
use one_time_note.BurnToken.{burn_verifier_len, derive_subkey, burn_token_verifier}
use one_time_note.Clock.{Time, minute, is_zero, before, after, add, sub}
use one_time_note.Codec.{b64_encode, b64_decode}
use one_time_note.Errors.{
  Result, ok, ticket_invalid, ticket_expired, marshal_failed, ◌>>=◌, ◌>>◌, fail_if, from_option,
}
use one_time_note.Records.{TicketData, Ticket}
use one_time_note.Platform.{Platform}
use one_time_note.Database.{Db, Faults, view}
use one_time_note.RootKey.{get_root_key}

abbrev pub max_ticket_len : ℕ
max_ticket_len = 512

abbrev pub ticket_clock_skew : ℕ
ticket_clock_skew = minute

abbrev pub ticket_timeout : ℕ
ticket_timeout = 15 * minute

unfoldable pub validate_ticket_payload : TicketData → Bytes → Time → Result Bytes
validate_ticket_payload t path_id now = do
  fail_if
      (not (eq_ℤ t.v (pos 1))
        || not (bytes_eq t.id path_id)
        || is_zero t.issued_at
        || is_zero t.exp)
      ticket_invalid
  fail_if (after t.issued_at (add now (pos ticket_clock_skew))) ticket_invalid
  fail_if (before t.exp now) ticket_expired
  fail_if (ltb_ℤ (pos ticket_timeout) (sub t.exp t.issued_at)) ticket_invalid
  verifier ← from_option (b64_decode t.burn_verifier) ticket_invalid
  fail_if (not (length verifier == burn_verifier_len)) ticket_invalid
  ok verifier

-- The text split at its dots: the part that is signed less its `v1.`, and the signature's text.
unfoldable pub split_ticket : Bytes → Result (Bytes × Bytes)
split_ticket ticket = do
  fail_if (ltb max_ticket_len (length ticket)) ticket_invalid
  fail_if (not (has_prefix ticket (codes "v1."))) ticket_invalid
  (signed_value, after_version) ← from_option (cut ticket b'.') ticket_invalid
  (payload_value, signature_value) ← from_option (cut after_version b'.') ticket_invalid
  fail_if (length signature_value == 0) ticket_invalid
  fail_if (not (bytes_eq signed_value (codes "v1"))) ticket_invalid
  ok (payload_value, signature_value)

module _ (P : Platform) where
  unfoldable pub ticket_signature : Bytes → Bytes → Result Bytes
  ticket_signature root_secret signed_payload = do
    key ← derive_subkey P root_secret (codes "ticket signing v1")
    ok (P.hmac key signed_payload)

  unfoldable pub sign_ticket : Bytes → TicketData → Result Bytes
  sign_ticket root_secret t = do
    payload_bytes ← from_option (P.marshal_ticket t) marshal_failed
    let signed_payload = codes "v1." ++ b64_encode payload_bytes
    signature ← ticket_signature root_secret signed_payload
    ok (signed_payload ++ b'.' ∷ b64_encode signature)

  unfoldable pub ticket_data : Bytes → Bytes → Time → TicketData
  ticket_data id burn_verifier now = record {
    v = pos 1;
    id = id;
    issued_at = now;
    exp = add now (pos ticket_timeout);
    burn_verifier = b64_encode burn_verifier;
  }

  -- The body of the read transaction. `burn_token` and `id` are the random bytes of `NewBurnToken` and
  -- `NewNoteID`.
  unfoldable pub create_ticket_in_tx : Time → Bytes → Bytes → Db P.Bucket → Result Ticket
  create_ticket_in_tx now burn_token id db = do
    root_key ← get_root_key P db.root_keys
    burn_verifier ← burn_token_verifier P root_key.secret burn_token
    let t = ticket_data id burn_verifier now
    value ← sign_ticket root_key.secret t
    ok (record { value = value; ticket_data = t; burn_token = burn_token })

  unfoldable pub create_ticket : Faults → Time → Bytes → Bytes → Db P.Bucket → Result Ticket
  unfolding create_ticket_in_tx
  create_ticket faults now burn_token id db = view faults (create_ticket_in_tx now burn_token id) db

  -- The text of the payload, that of the signature, and what the payload says.
  unfoldable pub read_ticket : Bytes → Result (Bytes × Bytes × TicketData)
  read_ticket ticket = do
    (payload_value, signature_value) ← split_ticket ticket
    payload ← from_option (b64_decode payload_value) ticket_invalid
    t ← from_option (P.unmarshal_ticket payload) ticket_invalid
    ok (payload_value, signature_value, t)

  -- What the signature and the burn token are checked against, once the payload is valid.
  unfoldable pub check_signature : Bytes → Bytes → Bytes → Bytes → Bytes → Result (Unit {0})
  check_signature root_secret payload_value signature_value burn_verifier burn_token = do
    expected_signature ← ticket_signature root_secret (codes "v1." ++ payload_value)
    signature ← from_option (b64_decode signature_value) ticket_invalid
    fail_if (not (bytes_eq signature expected_signature)) ticket_invalid
    expected_verifier ← burn_token_verifier P root_secret burn_token
    fail_if (not (bytes_eq burn_verifier expected_verifier)) ticket_invalid

  unfoldable pub verify_ticket :
      Faults → Time → Bytes → Bytes → Bytes → Db P.Bucket → Result (TicketData × Bytes)
  verify_ticket faults now ticket path_id burn_token db = do
    (payload_value, signature_value, t) ← read_ticket ticket
    burn_verifier ← validate_ticket_payload t path_id now
    root_key ← view faults (λ d. get_root_key P d.root_keys) db
    check_signature root_key.secret payload_value signature_value burn_verifier burn_token
    ok (t, burn_verifier)
