-- ===== src/Example/Witnesses.antt =====
-- Each property of the notes at the run of Scenario.
use one_time_note.Base.{sym, ap, ◌+◌, ◌*◌, ◌≡◌, ◌≢◌, refl, length, arith}
use one_time_note.Base.Text.{Bytes, bytes_eq}
use one_time_note.Base.Int.{pos}
use one_time_note.Clock.{minute, hour}
use one_time_note.Errors.{ok}
use one_time_note.Records.{Note}
use one_time_note.Platform.Buckets.{lookup}
use one_time_note.Database.{no_faults, no_faults-IsQuiet}
use one_time_note.NoteService.Open.{open_note}
use one_time_note.NoteService.Create.{create_note}
use one_time_note.History.{State, Step, Reach, here, next, opened, cleaned}
use one_time_note.RootKey.{get_root_key}
use one_time_note.BurnToken.{burn_token_verifier, derive_subkey}
use one_time_note.Schema.{encode_uint64, decode_uint64}
use one_time_note.NoteService.Cleanup.{cleanup}
use one_time_note.NoteService.Create.{Circumstances}
use one_time_note.NoteService.Create.Opening.{created_note, open_note-create_note}
use one_time_note.NoteService.Open.Returning.{Holds, open_note_refused}
use one_time_note.History.Markers.{IsUsed}
use one_time_note.History.Once.{create_note_once}
use one_time_note.Example.Concrete.{concrete, pad, read_times}
use one_time_note.Example.Scenario.{
  limits, token, other_token, note_id, ticket, circumstances, payload, started_db, created_db,
  created, note, secret, verifier, metadata_bytes, marker_bytes, opened_db, first_opened,
}

abbrev pub late : Circumstances
late = record circumstances {
  verified_at = 2 * hour + 4 * minute;
  created_at = 2 * hour + 4 * minute;
  cleaned_at = 2 * hour + 4 * minute;
}

pub verifiers_differ : verifier other_token ≢ note.metadata.burn_verifier
unfolding pad
verifiers_differ = λ p. cc

abbrev pub after_create : State concrete
after_create = record { clock = 2 * hour + minute; db = created_db }

abbrev after_open : State concrete
after_open = record { clock = 2 * hour + 2 * minute; db = opened_db }

abbrev pub after_cleanup : State concrete
after_cleanup = record {
  clock = 2 * hour + 3 * minute;
  db = (cleanup concrete limits no_faults (2 * hour + 3 * minute) opened_db).1;
}

length-note_id : length note_id ≡ 32
length-note_id = refl

open-Step : Step concrete limits after_create after_open
open-Step =
    opened no_faults (2 * hour + 2 * minute) note_id token length-note_id (omega arith)
      (omega arith) (ap (λ x. x.1) (sym first_opened))

cleanup-Step : Step concrete limits after_open after_cleanup
cleanup-Step = cleaned no_faults (2 * hour + 3 * minute) (omega arith) (omega arith) refl

pub history : Reach concrete limits after_create after_cleanup
history = next (next here open-Step) cleanup-Step

create_note_once_example :
    (create_note concrete limits late note_id ticket.value other_token payload
      (pos hour)
      after_cleanup.db).0
    ≢ ok note_id
create_note_once_example =
    create_note_once concrete limits circumstances note_id ticket.value token payload (pos hour)
      started_db after_create note_id created after_cleanup late note_id other_token payload
      (pos hour) note_id history (omega arith) (λ p. cc)

pub used : IsUsed concrete limits note_id marker_bytes (2 * hour + 15 * minute) opened_db
unfolding encode_uint64 lookup bytes_eq read_times decode_uint64
used = record {
  marker = record { expires_at = 2 * hour + 15 * minute };
  stored = refl;
  read = refl;
  kept = omega arith;
}

open_note-create_note_example :
    (v : Bytes) × ((open_note concrete limits no_faults
        (2 * hour + 2 * minute)
        note_id
        token
        created_db).0
      ≡ ok (created_note concrete limits circumstances payload v hour))
open_note-create_note_example =
    open_note-create_note concrete limits circumstances note_id ticket.value token payload hour
      started_db created_db note_id created (omega arith) no_faults (2 * hour + 2 * minute)
      no_faults-IsQuiet (omega arith)

pub holds : (t : Bytes) → Holds concrete limits created_db note_id t note (verifier t)
unfolding get_root_key burn_token_verifier derive_subkey bytes_eq lookup pad read_times
    decode_uint64 encode_uint64
holds t = record {
  metadata_bytes = metadata_bytes;
  root_key = record { created_at = hour; secret = secret };
  metadata = refl;
  payload = refl;
  read = refl;
  valid = omega arith;
  key = refl;
  derived = refl;
}

open_note_refused_example :
    ((n : Note)
      → (open_note concrete limits no_faults
          (2 * hour + 2 * minute)
          note_id
          other_token
          created_db).0
        ≢ ok n)
    × ((open_note concrete limits no_faults
          (2 * hour + 2 * minute)
          note_id
          other_token
          created_db).1
        ≡ created_db)
open_note_refused_example =
    open_note_refused concrete limits no_faults (2 * hour + 2 * minute) note_id other_token
      created_db note (verifier other_token) (holds other_token) verifiers_differ
