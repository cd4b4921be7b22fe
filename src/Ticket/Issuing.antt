-- ===== src/Ticket/Issuing.antt =====
-- A ticket that `CreateTicket` has issued is accepted by `verifyTicket`, for its ID and burn token and
-- as long as it is current.
use one_time_note.Base.{
  ◌+◌, ◌<◌, ◌≤◌, ◌≡◌, ◌≢◌, refl, sym, ap, ◌∙◌, subst, false, none, some, [], ◌∷◌, ◌++◌, length,
  ◌==◌, arith,
}
use one_time_note.Base.Text.{
  Bytes, IsBytes, codes, bytes_eq, bytes_eq_refl, has_prefix, cut, cut-append_sep,
}
use one_time_note.BurnToken.{derive_subkey, burn_token_verifier, length-burn_token_verifier}
use one_time_note.Clock.{Time}
use one_time_note.Codec.{b64_encode, b64_decode}
use one_time_note.Codec.RoundTrip.{
  b64_decode-b64_encode, b64_encode-Lacks, b64_encode-ne-nil, b64_encode-ascii,
}
use one_time_note.Errors.{ok, marshal_failed, >>=-eq-ok, from_option, from_option-eq-ok}
use one_time_note.NoteId.{IsId}
use one_time_note.Records.{TicketData, Ticket, RootKeyRecord}
use one_time_note.Platform.{Platform, IsEncodable}
use one_time_note.Database.{Db, Faults, IsQuiet, view-eq-ok}
use one_time_note.RootKey.{get_root_key}
use one_time_note.Ticket.{
  read_ticket, max_ticket_len, ticket_clock_skew, ticket_timeout, validate_ticket_payload,
  split_ticket, ticket_signature, ticket_data, sign_ticket, create_ticket_in_tx, create_ticket,
  check_signature, verify_ticket,
}

ne_nil_of_length : (d : Bytes) → 0 < length d → d ≢ []
ne_nil_of_length d h = λ p. ground (arith, p)

length-pos : (d : Bytes) → d ≢ [] → (length d == 0) ≡ false
length-pos [] h = absurd (h refl)
length-pos (c ∷ d) h = ground arith

-- The text that `signTicket` writes is split into its parts.
pub split_ticket-text :
    (payload signature : Bytes)
    → signature ≢ []
    → length (codes "v1." ++ (b64_encode payload ++ b'.' ∷ b64_encode signature)) ≤ max_ticket_len
    → split_ticket (codes "v1." ++ (b64_encode payload ++ b'.' ∷ b64_encode signature))
      ≡ ok (b64_encode payload, b64_encode signature)
unfolding split_ticket has_prefix cut bytes_eq
split_ticket-text payload signature n short = ground (
  arith,
  cut-append_sep (b64_encode payload) (b64_encode signature) b'.' (b64_encode-Lacks payload),
  length-pos (b64_encode signature) (b64_encode-ne-nil signature n),
)

module _ (P : Platform) where
  -- How an issued ticket has come about.
  pub record IsIssued (now : Time) (burn_token id : Bytes) (db : Db P.Bucket) (t : Ticket)
      : Type 0 where
    pub root_key : RootKeyRecord
    pub verifier : Bytes
    pub payload : Bytes
    pub signature : Bytes
    pub key_stored : get_root_key P db.root_keys ≡ ok root_key
    pub derived : burn_token_verifier P root_key.secret burn_token ≡ ok verifier
    pub marshalled : P.marshal_ticket (ticket_data P id verifier now) ≡ some payload
    pub signed :
        ticket_signature P root_key.secret (codes "v1." ++ b64_encode payload) ≡ ok signature
    pub text : t.value ≡ codes "v1." ++ (b64_encode payload ++ b'.' ∷ b64_encode signature)
    pub content : t.ticket_data ≡ ticket_data P id verifier now
    pub token : t.burn_token ≡ burn_token

  pub create_ticket-IsIssued :
      (faults : Faults) (now : Time) (burn_token id : Bytes) (db : Db P.Bucket) (t : Ticket)
      → create_ticket P faults now burn_token id db ≡ ok t
      → IsIssued now burn_token id db t
  unfolding create_ticket sign_ticket
  create_ticket-IsIssued faults now burn_token id db t h =
      let h₀ = view-eq-ok faults (create_ticket_in_tx P now burn_token id) db t h in
      let (root_key, key, h₁) = >>=-eq-ok (get_root_key P db.root_keys) _ h₀ in
      let (v, derived, h₂) = >>=-eq-ok (burn_token_verifier P root_key.secret burn_token) _ h₁ in
      let (value, written, h₃) =
        >>=-eq-ok (sign_ticket P root_key.secret (ticket_data P id v now)) _ h₂ in
      let (payload, marshalled, h₄) =
        >>=-eq-ok (from_option (P.marshal_ticket (ticket_data P id v now)) marshal_failed) _
          written in
      let (signature, signed, h₅) =
        >>=-eq-ok (ticket_signature P root_key.secret (codes "v1." ++ b64_encode payload)) _ h₄ in
      record {
        root_key = root_key;
        verifier = v;
        payload = payload;
        signature = signature;
        key_stored = key;
        derived = derived;
        marshalled = from_option-eq-ok _ _ marshalled;
        signed = signed;
        text = cc;
        content = cc;
        token = cc;
      }

  module _ (id burn_token verifier : Bytes) (now later : Time) where
    -- The payload of an issued ticket is valid from one minute before its issue (the clock skew that
    -- is allowed for) until its timeout.
    pub validate_ticket_payload-ticket_data :
        0 < now
        → length verifier ≡ 32
        → IsBytes verifier
        → now ≤ later + ticket_clock_skew
        → later ≤ now + ticket_timeout
        → validate_ticket_payload (ticket_data P id verifier now) id later ≡ ok verifier
    unfolding validate_ticket_payload ticket_data
    validate_ticket_payload-ticket_data start long bytes from until = ground (
      arith,
      bytes_eq_refl id,
      b64_decode-b64_encode verifier (ne_nil_of_length verifier (omega (arith, long))) bytes,
    )

  check_signature-issued :
      (root_secret payload signature verifier burn_token : Bytes)
      → IsBytes signature
      → signature ≢ []
      → ticket_signature P root_secret (codes "v1." ++ b64_encode payload) ≡ ok signature
      → burn_token_verifier P root_secret burn_token ≡ ok verifier
      → check_signature P root_secret
          (b64_encode payload)
          (b64_encode signature)
          verifier
          burn_token
        ≡ ok tt
  unfolding check_signature
  check_signature-issued root_secret payload signature verifier burn_token bytes n signed derived =
      rw
        (
          signed,
          b64_decode-b64_encode signature n bytes,
          bytes_eq_refl signature,
          derived,
          bytes_eq_refl verifier,
        )
        refl

  length-ticket_signature :
      (root_secret message v : Bytes)
      → ticket_signature P root_secret message ≡ ok v
      → (length v ≡ 32) × IsBytes v
  unfolding ticket_signature derive_subkey
  length-ticket_signature root_secret message v h = grind (arith, P.length-hmac, P.hmac-IsBytes)

  encodable :
      (id verifier : Bytes) (now : Time) → IsId id → IsEncodable (ticket_data P id verifier now)
  unfolding ticket_data
  encodable id verifier now h = record {
    length_id = h.0;
    id_bytes = h.1;
    ascii = b64_encode-ascii verifier;
  }

  verify_ticket-eq-ok :
      (faults : Faults) (now : Time) (ticket path_id burn_token : Bytes) (db : Db P.Bucket)
      (payload_value signature_value payload verifier : Bytes) (t : TicketData) (r : RootKeyRecord)
      → split_ticket ticket ≡ ok (payload_value, signature_value)
      → b64_decode payload_value ≡ some payload
      → P.unmarshal_ticket payload ≡ some t
      → validate_ticket_payload t path_id now ≡ ok verifier
      → faults.at_begin ≡ none
      → get_root_key P db.root_keys ≡ ok r
      → check_signature P r.secret payload_value signature_value verifier burn_token ≡ ok tt
      → verify_ticket P faults now ticket path_id burn_token db ≡ ok (t, verifier)
  unfolding verify_ticket read_ticket
  verify_ticket-eq-ok faults now ticket path_id burn_token db pv sv payload verifier t r e₁ e₂ e₃ e₄
        e₅ e₆ e₇ =
      rw (e₁, e₂, e₃, e₄, e₅, e₆, e₇) refl

  -- Every ticket that `CreateTicket` issues, if its text fits into the limit, is accepted with its own
  -- ID and burn token by a database that has the same root key, from one minute before its issue
  -- until its timeout.
  pub verify_ticket-create_ticket :
      (f g : Faults) (now later : Time) (burn_token id : Bytes) (db db' : Db P.Bucket) (t : Ticket)
      → create_ticket P f now burn_token id db ≡ ok t
      → IsId id
      → 0 < now
      → length t.value ≤ max_ticket_len
      → IsQuiet g
      → db'.root_keys ≡ db.root_keys
      → now ≤ later + ticket_clock_skew
      → later ≤ now + ticket_timeout
      → (v : Bytes) × (verify_ticket P g later t.value id burn_token db' ≡ ok (t.ticket_data, v))
  verify_ticket-create_ticket f g now later burn_token id db db' t h is_id start short q same from
        until =
      let i = create_ticket-IsIssued f now burn_token id db t h in
      let content = ticket_data P id i.verifier now in
      let (long, bytes) =
        length-burn_token_verifier P i.root_key.secret burn_token i.verifier i.derived in
      let (sig_long, sig_bytes) =
        length-ticket_signature i.root_key.secret (codes "v1." ++ b64_encode i.payload) i.signature
          i.signed in
      let sig_ne = ne_nil_of_length i.signature (omega (arith, sig_long)) in
      let (pay_bytes, pay_long) =
        P.ticket_bytes content i.payload (encodable id i.verifier now is_id) i.marshalled in
      let split =
        split_ticket-text i.payload i.signature sig_ne
          (subst (λ (x : Bytes). length x ≤ max_ticket_len) i.text short) in
      (
        i.verifier,
        verify_ticket-eq-ok g later t.value id burn_token db' (b64_encode i.payload)
              (b64_encode i.signature) i.payload i.verifier content i.root_key
              (ap split_ticket i.text ∙ split)
              (b64_decode-b64_encode i.payload (ne_nil_of_length i.payload pay_long) pay_bytes)
              (P.ticket_read content i.payload (encodable id i.verifier now is_id) i.marshalled)
              (validate_ticket_payload-ticket_data id burn_token i.verifier now later start long
                bytes from until)
              q.begins (ap (get_root_key P) same ∙ i.key_stored)
              (check_signature-issued i.root_key.secret i.payload i.signature i.verifier burn_token
                sig_bytes sig_ne i.signed i.derived)
            ∙ ap (λ (x : TicketData). ok (x, i.verifier)) (sym i.content),
      )
