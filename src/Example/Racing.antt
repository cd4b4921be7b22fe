-- ===== src/Example/Racing.antt =====
-- Calls that run at once: two that store a note with one ticket, and all others open it.
use one_time_note.Base.{ℕ, zero, suc, ◌+◌, ◌*◌, ◌≡◌, refl, List, [], ◌∷◌, arith, true, ◌≤◌}
use one_time_note.Base.Text.{bytes_eq, has_prefix, cut}
use one_time_note.Base.Int.{pos}
use one_time_note.BurnToken.{burn_token_verifier, derive_subkey}
use one_time_note.Clock.{Time, minute, hour}
use one_time_note.Codec.{b64_decode, decode_string, encoded_len, decoded_len}
use one_time_note.Codec.Alphabet.{decode_char}
use one_time_note.Database.{no_faults}
use one_time_note.Platform.Buckets.{lookup}
use one_time_note.RootKey.{get_root_key}
use one_time_note.Schema.{encode_uint64, decode_uint64}
use one_time_note.Ticket.{
  ticket_data, verify_ticket, read_ticket, split_ticket, validate_ticket_payload, check_signature,
}
use one_time_note.NoteService.{
  is_storage_full, normalize_lifetime, valid_metadata, delete_note_records,
}
use one_time_note.NoteService.Open.{open_note, open_in_tx, open_valid, burn}
use one_time_note.NoteService.Create.{Draft, prepare, create_once, create_in_tx, report}
use one_time_note.History.Once.{read_ticket_of_verify_ticket}
use one_time_note.History.Burned.{IsGone}
use one_time_note.NoteService.Cleanup.{
  keys_where, is_stale_metadata, is_expired_marker, delete_notes, delete_tickets, cleanup_in_tx,
  cleanup,
}
use one_time_note.Concurrent.{
  CreateArgs, Call, entered, stored, opening, opened, Chances, Turn, call, background_cleanup,
  System, advance, take_turn, take_turns, AllCleanBy,
}
use one_time_note.Concurrent.Ending.{has_returned, turns_of, take_turns-has_returned}
use one_time_note.Concurrent.Moves.{Outlasts}
use one_time_note.Concurrent.Once.{IsWaiting, stored_once, opened_once, opened_content}
use one_time_note.Example.Concrete.{concrete, pad, write_times, read_times}
use one_time_note.Example.Pairs.{without, visible}
use one_time_note.Example.Scenario.{
  limits, token, note_id, ticket, circumstances, payload, started_db, note, verified,
  metadata_bytes, marker_bytes,
}

abbrev args : CreateArgs
args = record {
  path_id = note_id;
  ticket = ticket.value;
  burn_token = token;
  payload = payload;
  lifetime = pos hour;
}

abbrev calls : ℕ → Call
calls zero = entered args
calls (suc zero) = entered args
calls (suc (suc i)) = opening note_id token

abbrev arriving : System concrete limits
arriving = record { db = started_db; calls = calls }

abbrev chances : Chances
chances = record {
  circumstances = circumstances;
  open_faults = no_faults;
  opened_at = 2 * hour + 2 * minute;
}

-- The second call stores the note although the first has verified the ticket before it.
abbrev turns : List Turn
turns =
    call 0 chances
    ∷ call 1 chances
    ∷ call 1 chances
    ∷ call 0 chances
    ∷ call 2 chances
    ∷ call 3 chances
    ∷ background_cleanup no_faults (2 * hour + 3 * minute)
    ∷ []

abbrev pub until : Time
until = 2 * hour + 15 * minute

pub ticket_exp : ticket.ticket_data.exp ≡ until
unfolding ticket lookup bytes_eq read_times decode_uint64 ticket_data encode_uint64 write_times
ticket_exp = refl

outlasts : Outlasts concrete limits note_id until args
outlasts r read is_id =
    let (r', read', same) =
      read_ticket_of_verify_ticket concrete no_faults (2 * hour + minute) ticket.value note_id token
        started_db ticket.ticket_data _ verified in
    let exp : r.2.exp ≡ until = cc (read, read', same, ticket_exp) in omega (arith, exp)

waiting : (i : ℕ) → IsWaiting concrete limits note_id until (calls i)
waiting zero = outlasts
waiting (suc zero) = outlasts
waiting (suc (suc i)) = tt

abbrev pub draft : Draft
draft = record {
  id = note_id;
  metadata_bytes = metadata_bytes;
  payload = payload;
  marker_bytes = marker_bytes;
}

stored_by_1 : (take_turns concrete limits turns arriving).calls 1 ≡ stored args draft
unfolding take_turns take_turn advance ticket prepare create_once create_in_tx report
    normalize_lifetime verify_ticket read_ticket split_ticket validate_ticket_payload
    check_signature b64_decode decode_string has_prefix cut encoded_len decoded_len bytes_eq
    read_times decode_uint64 decode_char ticket_data encode_uint64 write_times lookup
stored_by_1 = refl

read_by_2 : (take_turns concrete limits turns arriving).calls 2 ≡ opened note_id note
unfolding take_turns take_turn advance ticket prepare create_once create_in_tx report
    normalize_lifetime verify_ticket read_ticket split_ticket validate_ticket_payload
    check_signature b64_decode decode_string has_prefix cut encoded_len decoded_len bytes_eq
    read_times decode_uint64 decode_char ticket_data encode_uint64 write_times lookup open_note
    open_in_tx open_valid burn delete_note_records valid_metadata get_root_key burn_token_verifier
    derive_subkey pad without is_storage_full
read_by_2 = refl

clean : AllCleanBy until turns
clean = omega arith

empty : IsGone concrete limits note_id started_db
unfolding lookup
empty = refl

stored_once_example : ◌≡◌ {A = ℕ} 1 1
stored_once_example =
    stored_once concrete limits note_id until arriving turns empty waiting clean 1 1 args args draft
      draft stored_by_1 stored_by_1 refl refl

opened_once_example : ◌≡◌ {A = ℕ} 2 2
opened_once_example =
    opened_once concrete limits note_id until arriving turns empty waiting clean 2 2 note note
      read_by_2 read_by_2

opened_content_example :
    (k : ℕ) × (a : CreateArgs) × (d : Draft) × ((take_turns concrete limits turns arriving).calls k
      ≡ stored a d)
    × (d.id ≡ note_id)
    × (payload ≡ a.payload)
opened_content_example =
    opened_content concrete limits note_id until arriving turns empty waiting clean 2 note read_by_2

-- The first call has verified the ticket, and stores its note after the ticket and its marker have
-- expired, and the note of the second call was opened.
abbrev late_turns : List Turn
late_turns =
    call 0 chances
    ∷ call 1 chances
    ∷ call 1 chances
    ∷ call 2 chances
    ∷ background_cleanup no_faults (2 * hour + 16 * minute)
    ∷ call 0 chances
    ∷ []

stored_twice :
    ((take_turns concrete limits late_turns arriving).calls 0 ≡ stored args draft)
    × ((take_turns concrete limits late_turns arriving).calls 1 ≡ stored args draft)
unfolding take_turns take_turn advance ticket prepare create_once create_in_tx report
    normalize_lifetime verify_ticket read_ticket split_ticket validate_ticket_payload
    check_signature b64_decode decode_string has_prefix cut encoded_len decoded_len bytes_eq
    read_times decode_uint64 decode_char ticket_data encode_uint64 write_times lookup open_note
    open_in_tx open_valid burn delete_note_records valid_metadata get_root_key burn_token_verifier
    derive_subkey pad without is_storage_full keys_where is_stale_metadata is_expired_marker
    delete_notes delete_tickets cleanup_in_tx cleanup visible
stored_twice = (refl, refl)

abbrev patient_turns : List Turn
patient_turns =
    call 0 chances ∷ call 0 chances ∷ call 1 chances ∷ call 0 chances ∷ call 0 chances ∷ []

four : 4 ≤ turns_of 0 patient_turns
unfolding turns_of
four = omega arith

take_turns-has_returned_example :
    has_returned ((take_turns concrete limits patient_turns arriving).calls 0) ≡ true
take_turns-has_returned_example =
    take_turns-has_returned concrete limits patient_turns arriving 0 four
