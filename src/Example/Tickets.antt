-- ===== src/Example/Tickets.antt =====
-- The properties of tickets at the ticket of Scenario.
use one_time_note.Base.{◌+◌, ◌*◌, ◌≡◌, refl, arith}
use one_time_note.Base.Text.{Bytes}
use one_time_note.Clock.{minute, hour}
use one_time_note.Errors.{ok}
use one_time_note.Database.{no_faults, no_faults-IsQuiet}
use one_time_note.Ticket.{verify_ticket}
use one_time_note.Ticket.Issuing.{verify_ticket-create_ticket}
use one_time_note.Example.Concrete.{concrete}
use one_time_note.Example.Scenario.{started_db, created_db, token, note_id, ticket, issued, short}

verify_ticket-create_ticket_example :
    (v : Bytes) × (verify_ticket concrete no_faults
        (2 * hour + 14 * minute)
        ticket.value
        note_id
        token
        created_db
      ≡ ok (ticket.ticket_data, v))
verify_ticket-create_ticket_example =
    verify_ticket-create_ticket concrete no_faults no_faults (2 * hour) (2 * hour + 14 * minute)
      token note_id started_db created_db ticket issued (refl, omega arith) (omega arith) short
      no_faults-IsQuiet refl (omega arith) (omega arith)
