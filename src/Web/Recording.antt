-- ===== src/Web/Recording.antt =====
-- Whether the status that `loggingResponseWriter` has recorded is the one that the client gets.
use one_time_note.Base.{
  ℕ, ◌≡◌, sym, ap, ◌∙◌, Option, none, some, Bool, true, false, arith, ◌==◌, if◌then◌else◌,
}
use one_time_note.Base.Text.{Bytes}
use one_time_note.Http.{Body}
use one_time_note.Web.{
  Header, Chunk, Writer, set_header, sent_with, write_header, write, set_no_store, write_json_to,
  http_error, write_error_response,
}

-- Where a handler has sent none, 200 is sent behind its return.
abbrev pub status_of : Option (ℕ × Header) → ℕ
status_of none = 200
status_of (some (code, header)) = code

abbrev pub final_status : Writer → ℕ
final_status w = status_of w.sent

-- Nothing is sent, and nothing but the status that a record has at first is recorded.
pub record IsUnsent (w : Writer) : Type 0 where
  pub unsent : w.sent ≡ none
  pub unrecorded : w.status_code ≡ 200

-- The recorded status is the one that is sent.
pub record IsRecorded (w : Writer) : Type 0 where
  pub same : final_status w ≡ w.status_code
  pub positive : (w.status_code ≡ 0) → ⊥

pub IsUnsent-IsRecorded : (w : Writer) → IsUnsent w → IsRecorded w
IsUnsent-IsRecorded w u = record {
  same = ap status_of u.unsent ∙ sym u.unrecorded;
  positive = λ h. omega (arith, h, u.unrecorded);
}

pub final_status-write_header :
    (code : ℕ) (w : Writer) → IsUnsent w → final_status (write_header code w) ≡ code
final_status-write_header code w u = ap (λ x. status_of (sent_with code w.header x)) u.unsent

pub write_header-IsRecorded :
    (code : ℕ) (w : Writer) → ((code ≡ 0) → ⊥) → IsUnsent w → IsRecorded (write_header code w)
write_header-IsRecorded code w n u = record {
  same = ap (λ x. status_of (sent_with code w.header x)) u.unsent;
  positive = n;
}

recorded_write :
    (code : ℕ) (sent : Option (ℕ × Header)) (header : Header)
    → status_of sent ≡ code
    → status_of (sent_with 200 header sent) ≡ code
recorded_write code none header h = h
recorded_write code (some (c, first)) header h = h

pub write-IsRecorded : (chunk : Chunk) (w : Writer) → IsRecorded w → IsRecorded (write chunk w)
write-IsRecorded chunk w r =
    let kept : (if w.status_code == 0 then 200 else w.status_code) ≡ w.status_code =
      ground (arith, r.positive) in
    record {
      same = recorded_write w.status_code w.sent w.header r.same ∙ sym kept;
      positive = λ h. r.positive (sym kept ∙ h);
    }

pub set_no_store-IsUnsent : (w : Writer) → IsUnsent w → IsUnsent (set_no_store w)
unfolding set_no_store
set_no_store-IsUnsent w u = record { unsent = u.unsent; unrecorded = u.unrecorded }

pub set_no_store-IsRecorded : (w : Writer) → IsRecorded w → IsRecorded (set_no_store w)
unfolding set_no_store
set_no_store-IsRecorded w r = record { same = r.same; positive = r.positive }

pub set_header-IsUnsent :
    (key value : Bytes) (w : Writer) → IsUnsent w → IsUnsent (set_header key value w)
set_header-IsUnsent key value w u = record { unsent = u.unsent; unrecorded = u.unrecorded }

pub set_header-IsRecorded :
    (key value : Bytes) (w : Writer) → IsRecorded w → IsRecorded (set_header key value w)
set_header-IsRecorded key value w r = record { same = r.same; positive = r.positive }

pub write_json_to-IsRecorded :
    (status : ℕ) (value : Body) (w : Writer)
    → ((status ≡ 0) → ⊥)
    → IsUnsent w
    → IsRecorded (write_json_to status value w)
unfolding write_json_to
write_json_to-IsRecorded status value w n u =
    write-IsRecorded _ _
      (write_header-IsRecorded status _ n (set_header-IsUnsent _ _ _ (set_no_store-IsUnsent w u)))

pub http_error-IsRecorded :
    (text : Bytes) (code : ℕ) (w : Writer)
    → ((code ≡ 0) → ⊥)
    → IsUnsent w
    → IsRecorded (http_error text code w)
unfolding http_error
http_error-IsRecorded text code w n u =
    write-IsRecorded _ _
      (write_header-IsRecorded code _ n (record { unsent = u.unsent; unrecorded = u.unrecorded }))

pub write_error_response-IsRecorded :
    (json : Bool) (status : ℕ) (code : Bytes) (w : Writer)
    → ((status ≡ 0) → ⊥)
    → IsUnsent w
    → IsRecorded (write_error_response json status code w)
unfolding write_error_response
write_error_response-IsRecorded true status code w n u = write_json_to-IsRecorded status _ w n u
write_error_response-IsRecorded false status code w n u =
    http_error-IsRecorded _ status _ n (set_no_store-IsUnsent w u)
