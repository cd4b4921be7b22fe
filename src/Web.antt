-- ===== src/Web.antt =====
-- What a handler writes to its `http.ResponseWriter`, and the helpers of http_helpers.go.
pub mod Keeping
pub mod Recording
use one_time_note.Base.{ℕ, Bool, true, Option, none, some, List, [], ◌∷◌, ◌++◌, ◌==◌, if◌then◌else◌}
use one_time_note.Base.Text.{Bytes, codes, bytes_eq, has_prefix}
use one_time_note.Http.{Body, error_response, Response}

abbrev pub Header : Type 0
Header = List (Bytes × Bytes)

-- `h.Del(key)`
unfoldable pub del : Bytes → Header → Header
del key [] = []
del key ((k, v) ∷ h) = let rest = del key h in if bytes_eq k key then rest else (k, v) ∷ rest

-- `h.Set(key, value)`
abbrev pub set : (key value : Bytes) → Header → Header
set key value h = (key, value) ∷ del key h

pub data Chunk : Type 0 where
  json_chunk : Body → Chunk
  text_chunk : Bytes → Chunk

-- The header that a handler may still change, the status and the header that are sent, and the status that
-- `loggingResponseWriter` of middleware.go records.
pub record Writer : Type 0 where
  pub header : Header
  pub sent : Option (ℕ × Header)
  pub body : List Chunk
  pub status_code : ℕ

abbrev pub new_writer : Writer
new_writer = record { header = []; sent = none; body = []; status_code = 200 }

-- `w.Header().Set(key, value)`
abbrev pub set_header : (key value : Bytes) → Writer → Writer
set_header key value w = record w { header = set key value w.header }

abbrev pub del_header : Bytes → Writer → Writer
del_header key w = record w { header = del key w.header }

abbrev pub sent_with : ℕ → Header → Option (ℕ × Header) → Option (ℕ × Header)
sent_with code header none = some (code, header)
sent_with code header (some first) = some first

abbrev pub send : ℕ → Writer → Writer
send code w = record w { sent = sent_with code w.header w.sent }

-- `w.WriteHeader(code)`, of which the first call is sent and the last is recorded.
abbrev pub write_header : ℕ → Writer → Writer
write_header code w = record (send code w) { status_code = code }

-- `w.Write(data)`, which sends the header with status 200 if none is sent.
abbrev pub write : Chunk → Writer → Writer
write chunk w = record (send 200 w) {
  body = w.body ++ (chunk ∷ []);
  status_code = if w.status_code == 0 then 200 else w.status_code;
}

unfoldable pub set_no_store : Writer → Writer
set_no_store w =
    set_header (codes "Pragma") (codes "no-cache")
      (set_header (codes "Cache-Control") (codes "no-store") w)

unfoldable pub write_json_to : ℕ → Body → Writer → Writer
write_json_to status value w = write (json_chunk value) (
    write_header status
      (set_header (codes "Content-Type") (codes "application/json") (set_no_store w)))

-- The response of an endpoint of the API.
abbrev pub write_response : Response → Writer → Writer
write_response response w = write_json_to response.status response.body w

-- `http.StatusText` of the statuses that the program sends as text.
unfoldable pub status_text : ℕ → Bytes
status_text code =
    if code == 400
    then codes "Bad Request"
    else if code == 404
    then codes "Not Found"
    else if code == 429
    then codes "Too Many Requests"
    else if code == 500
    then codes "Internal Server Error"
    else []

abbrev pub plain_text : Bytes
plain_text = codes "text/plain; charset=utf-8"

-- `http.Error(w, text, code)`
unfoldable pub http_error : (text : Bytes) → ℕ → Writer → Writer
http_error text code w = write (text_chunk (text ++ (10 ∷ []))) (
    write_header code (
      set_header (codes "X-Content-Type-Options") (codes "nosniff")
        (set_header (codes "Content-Type") plain_text (del_header (codes "Content-Length") w))))

-- `strings.Contains(s, part)`
unfoldable pub contains_text : (part s : Bytes) → Bool
contains_text part [] = has_prefix [] part
contains_text part (c ∷ s) =
    let later = contains_text part s in if has_prefix (c ∷ s) part then true else later

-- For whether the path is one of the API, and the header `Accept`.
unfoldable pub wants_json : (is_json_route : Bool) (accept : Bytes) → Bool
wants_json is_json_route accept =
    if is_json_route then true else contains_text (codes "application/json") accept

unfoldable pub write_error_response : (wants_json : Bool) → ℕ → (code : Bytes) → Writer → Writer
write_error_response wants_json status code w =
    if wants_json
    then write_json_to status (error_response code) w
    else http_error (status_text status) status (set_no_store w)
