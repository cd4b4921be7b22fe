-- ===== src/Example/Scenario.antt =====
-- One run of the service on the concrete platform: start, ticket, note.
use one_time_note.Base.{arith, ◌≤◌, ◌++◌, ◌*◌, ◌+◌, ◌≡◌, refl, [], ◌∷◌, replicate, length}
use one_time_note.Base.Text.{Bytes, codes, bytes_eq, has_prefix, cut}
use one_time_note.Base.Int.{pos}
use one_time_note.BurnToken.{burn_token_verifier, derive_subkey}
use one_time_note.Clock.{minute, hour}
use one_time_note.Codec.{b64_decode, decode_string, b64_encode, encoded_len, decoded_len}
use one_time_note.Codec.Alphabet.{encode_char, decode_char}
use one_time_note.Errors.{Result, ok, err}
use one_time_note.Records.{Note, Ticket}
use one_time_note.Platform.Buckets.{lookup}
use one_time_note.Schema.{encode_uint64, decode_uint64}
use one_time_note.Database.{Db, no_faults}
use one_time_note.RootKey.{get_root_key, put_root_key, ensure_in_tx, ensure_root_keys}
use one_time_note.Ticket.{
  ticket_data, create_ticket, sign_ticket, ticket_signature, verify_ticket, read_ticket,
  split_ticket, validate_ticket_payload, check_signature,
}
use one_time_note.NoteService.{Limits, normalize_lifetime}
use one_time_note.NoteService.{valid_metadata, delete_note_records}
use one_time_note.NoteService.Open.{open_note, open_in_tx, open_valid, burn}
use one_time_note.NoteService.Create.{
  Circumstances, create_note, prepare, create_once, create_in_tx, retry, report,
}
use one_time_note.Example.Concrete.{concrete, pad, write_times, read_times}
use one_time_note.Example.Pairs.{Pairs, without}

abbrev pub empty_db : Db Pairs
empty_db = record { payloads = []; config = []; metadata = []; root_keys = []; used_tickets = [] }

abbrev pub limits : Limits
limits = record { max_lifetime = 14 * 24 * hour; max_size = 1024 }

abbrev pub secret : Bytes
secret = replicate 32 7

abbrev pub token : Bytes
token = replicate 32 1

abbrev pub other_token : Bytes
other_token = replicate 32 2

abbrev pub note_id : Bytes
note_id = replicate 32 200

-- The database after the first start, at the hour 1.
abbrev pub started_db : Db Pairs
started_db = record empty_db {
  root_keys = (codes "root_key", encode_uint64 hour ++ (encode_uint64 0 ++ secret)) ∷ [];
}

started : ensure_root_keys concrete no_faults hour secret empty_db ≡ (ok tt, started_db)
unfolding ensure_root_keys ensure_in_tx put_root_key write_times lookup encode_uint64
started = refl

pub key_stored :
    get_root_key concrete started_db.root_keys ≡ ok (record { created_at = hour; secret = secret })
unfolding get_root_key lookup bytes_eq read_times decode_uint64 encode_uint64
key_stored = refl

or_blank : Result Ticket → Ticket
or_blank (ok t) = t
or_blank (err e) = record {
  value = [];
  ticket_data = record { v = pos 0; id = []; issued_at = 0; exp = 0; burn_verifier = [] };
  burn_token = [];
}

unfoldable pub ticket : Ticket
unfolding or_blank get_root_key create_ticket burn_token_verifier derive_subkey sign_ticket
    ticket_signature b64_encode encode_char pad
ticket = or_blank (create_ticket concrete no_faults (2 * hour) token note_id started_db)

pub issued : create_ticket concrete no_faults (2 * hour) token note_id started_db ≡ ok ticket
unfolding ticket bytes_eq read_times decode_uint64 ticket_data lookup encode_uint64 write_times
issued = refl

abbrev pub circumstances : Circumstances
circumstances = record {
  verified_at = 2 * hour + minute;
  created_at = 2 * hour + minute;
  cleaned_at = 2 * hour + minute;
  verify_faults = no_faults;
  first_faults = no_faults;
  cleanup_faults = no_faults;
  second_faults = no_faults;
}

abbrev pub payload : Bytes
payload = codes "ciphertext"

abbrev pub verifier : Bytes → Bytes
verifier t = pad 32 (t ++ (codes "burn verifier v1" ++ secret))

abbrev pub metadata_bytes : Bytes
metadata_bytes =
    encode_uint64 (2 * hour + minute) ++ (encode_uint64 (3 * hour + minute) ++ verifier token)

abbrev pub marker_bytes : Bytes
marker_bytes = encode_uint64 (2 * hour + 15 * minute) ++ (encode_uint64 0 ++ [])

-- After the note was created, one minute after its ticket.
abbrev pub created_db : Db Pairs
created_db = record started_db {
  payloads = (note_id, payload) ∷ [];
  metadata = (note_id, metadata_bytes) ∷ [];
  used_tickets = (note_id, marker_bytes) ∷ [];
}

pub created :
    create_note concrete limits circumstances note_id ticket.value token payload
      (pos hour)
      started_db
    ≡ (ok note_id, created_db)
unfolding create_note ticket prepare create_once create_in_tx retry report normalize_lifetime
    verify_ticket read_ticket split_ticket validate_ticket_payload check_signature b64_decode
    decode_string has_prefix cut encoded_len decoded_len bytes_eq read_times decode_uint64
    decode_char ticket_data encode_uint64 write_times lookup
created = refl

pub verified :
    verify_ticket concrete no_faults (2 * hour + minute) ticket.value note_id token started_db
    ≡ ok (ticket.ticket_data, verifier token)
unfolding ticket verify_ticket read_ticket split_ticket validate_ticket_payload check_signature
    b64_decode decode_string has_prefix cut encoded_len decoded_len bytes_eq read_times
    decode_uint64 decode_char ticket_data encode_uint64 write_times lookup
verified = refl

pub short : length ticket.value ≤ 512
unfolding ticket write_times encode_uint64 lookup bytes_eq read_times decode_uint64 ticket_data
short = omega arith

abbrev pub note : Note
note = record {
  payload = payload;
  metadata = record {
    burn_verifier = verifier token;
    created_at = 2 * hour + minute;
    expires_at = 2 * hour + minute + hour;
  };
}

-- After it was opened, another minute later.
abbrev pub opened_db : Db Pairs
opened_db = record created_db { payloads = []; metadata = [] }

pub first_opened :
    open_note concrete limits no_faults (2 * hour + 2 * minute) note_id token created_db
    ≡ (ok note, opened_db)
unfolding open_note open_in_tx open_valid burn delete_note_records valid_metadata get_root_key
    burn_token_verifier derive_subkey pad without bytes_eq lookup read_times decode_uint64
    encode_uint64
first_opened = refl
