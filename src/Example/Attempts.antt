-- ===== src/Example/Attempts.antt =====
-- Two calls that have verified one ticket on the same database, and attempt to store a note.
use one_time_note.Base.{◌+◌, ◌*◌, ◌≤◌, ◌≡◌, ◌≢◌, refl, arith}
use one_time_note.Base.Int.{pos}
use one_time_note.Base.Text.{Bytes, bytes_eq, has_prefix, cut}
use one_time_note.Clock.{minute, hour}
use one_time_note.Codec.{b64_decode, decode_string, encoded_len, decoded_len}
use one_time_note.Codec.Alphabet.{decode_char}
use one_time_note.Database.{no_faults}
use one_time_note.Errors.{ok}
use one_time_note.Platform.Buckets.{lookup}
use one_time_note.Records.{TicketData}
use one_time_note.Schema.{encode_uint64, decode_uint64}
use one_time_note.Ticket.{
  ticket_data, verify_ticket, read_ticket, split_ticket, validate_ticket_payload, check_signature,
}
use one_time_note.NoteService.{normalize_lifetime}
use one_time_note.NoteService.Create.{prepare, create_in_tx, create_once}
use one_time_note.History.Once.{read_ticket_of_verify_ticket}
use one_time_note.History.Attempts.{IsDraftOf, attempted_once}
use one_time_note.Example.Concrete.{concrete, write_times, read_times}
use one_time_note.Example.Scenario.{
  limits, circumstances, token, note_id, ticket, payload, started_db, created_db, verified,
}
use one_time_note.Example.Witnesses.{after_create, after_cleanup, history}
use one_time_note.Example.Racing.{draft, until, ticket_exp}

prepared_draft :
    prepare concrete limits circumstances note_id ticket.value token payload (pos hour) started_db
    ≡ ok draft
unfolding ticket prepare normalize_lifetime verify_ticket read_ticket split_ticket
    validate_ticket_payload check_signature b64_decode decode_string has_prefix cut encoded_len
    decoded_len bytes_eq read_times decode_uint64 decode_char ticket_data encode_uint64 write_times
    lookup
prepared_draft = refl

draft-IsDraftOf : IsDraftOf concrete limits ticket.value draft
draft-IsDraftOf = record {
  circumstances = circumstances;
  path_id = note_id;
  burn_token = token;
  payload = payload;
  lifetime = pos hour;
  verified_on = started_db;
  prepared = prepared_draft;
}

first_attempt : create_once concrete no_faults draft started_db ≡ (ok tt, created_db)
unfolding create_once create_in_tx lookup
first_attempt = refl

ticket_read :
    (r : Bytes × Bytes × TicketData) × (read_ticket concrete ticket.value ≡ ok r)
    × (r.2 ≡ ticket.ticket_data)
ticket_read =
    read_ticket_of_verify_ticket concrete no_faults (2 * hour + minute) ticket.value note_id token
      started_db ticket.ticket_data _ verified

unexpired : 2 * hour + 3 * minute ≤ ticket_read.0.2.exp
unexpired =
    let exp : ticket_read.0.2.exp ≡ until = cc (ticket_read.2, ticket_exp) in omega (arith, exp)

attempted_once_example : (create_once concrete no_faults draft after_cleanup.db).0 ≢ ok tt
attempted_once_example =
    attempted_once concrete limits ticket.value ticket_read.0 ticket_read.1 started_db after_create
      after_cleanup draft draft no_faults no_faults draft-IsDraftOf draft-IsDraftOf first_attempt
      history unexpired
