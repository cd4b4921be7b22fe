-- ===== src/Web/Keeping.antt =====
-- Which headers the helpers keep.
use one_time_note.Base.{
  ℕ, ◌≡◌, refl, ap, ◌∙◌, Bool, true, false, Option, none, some, [], ◌∷◌, arith, inl, inr,
  Bool-cases,
}
use one_time_note.Base.Text.{Bytes, codes, bytes_eq, eq_of_bytes_eq}
use one_time_note.Platform.Buckets.{lookup}
use one_time_note.Http.{Body}
use one_time_note.Web.{
  Header, del, set, Chunk, Writer, set_header, del_header, sent_with, write_header, write,
  set_no_store, write_json_to, http_error, write_error_response,
}

-- The header that the client gets: what was sent, or, if nothing was, what is set when the handler returns.
abbrev pub final_of : Option (ℕ × Header) → Header → Header
final_of none header = header
final_of (some (code, sent)) header = sent

abbrev pub final_header : Writer → Header
final_header w = final_of w.sent w.header

-- A key that is none of those that handlers set or delete.
pub record IsKept (k : Bytes) : Type 0 where
  pub cache_control : bytes_eq (codes "Cache-Control") k ≡ false
  pub pragma : bytes_eq (codes "Pragma") k ≡ false
  pub content_type : bytes_eq (codes "Content-Type") k ≡ false
  pub content_length : bytes_eq (codes "Content-Length") k ≡ false
  pub content_encoding : bytes_eq (codes "Content-Encoding") k ≡ false
  pub etag : bytes_eq (codes "ETag") k ≡ false
  pub sniffing : bytes_eq (codes "X-Content-Type-Options") k ≡ false
  pub retry_after : bytes_eq (codes "Retry-After") k ≡ false

lookup-del :
    (k other : Bytes) (h : Header) → bytes_eq other k ≡ false → lookup k (del other h) ≡ lookup k h
unfolding lookup del
lookup-del k other [] e = refl
lookup-del k other ((j, v) ∷ h) e = elim (Bool-cases (bytes_eq j other)) [
  | inl same ↦
      let differs : bytes_eq j k ≡ false =
        ap (λ x. bytes_eq x k) (eq_of_bytes_eq j other same) ∙ e in
      ground (arith, same, differs, lookup-del k other h e)
  | inr differs ↦ ground (arith, differs, lookup-del k other h e)
]

module _ (k v : Bytes) where
  -- The header has the value, whether it is sent or not.
  pub record Has (w : Writer) : Type 0 where
    pub set_now : lookup k w.header ≡ some v
    pub finally : lookup k (final_header w) ≡ some v

  changed_header :
      (sent : Option (ℕ × Header)) (before after : Header)
      → lookup k after ≡ some v
      → lookup k (final_of sent before) ≡ some v
      → lookup k (final_of sent after) ≡ some v
  changed_header none before after now h = now
  changed_header (some (code, first)) before after now h = h

  sent_header :
      (code : ℕ) (sent : Option (ℕ × Header)) (header : Header)
      → lookup k (final_of sent header) ≡ some v
      → lookup k (final_of (sent_with code header sent) header) ≡ some v
  sent_header code none header h = h
  sent_header code (some (c, first)) header h = h

  pub set_header-Has :
      (other value : Bytes) (w : Writer)
      → bytes_eq other k ≡ false
      → Has w
      → Has (set_header other value w)
  unfolding lookup
  set_header-Has other value w e h =
      let now : lookup k (set other value w.header) ≡ some v =
        ground (arith, e, lookup-del k other w.header e, h.set_now) in
      record { set_now = now; finally = changed_header w.sent w.header _ now h.finally }

  pub del_header-Has :
      (other : Bytes) (w : Writer) → bytes_eq other k ≡ false → Has w → Has (del_header other w)
  del_header-Has other w e h =
      let now = lookup-del k other w.header e ∙ h.set_now in
      record { set_now = now; finally = changed_header w.sent w.header _ now h.finally }

  pub write_header-Has : (code : ℕ) (w : Writer) → Has w → Has (write_header code w)
  write_header-Has code w h = record {
    set_now = h.set_now;
    finally = sent_header code w.sent w.header h.finally;
  }

  pub write-Has : (chunk : Chunk) (w : Writer) → Has w → Has (write chunk w)
  write-Has chunk w h = record {
    set_now = h.set_now;
    finally = sent_header 200 w.sent w.header h.finally;
  }

  module _ (kept : IsKept k) where
    pub set_no_store-Has : (w : Writer) → Has w → Has (set_no_store w)
    unfolding set_no_store
    set_no_store-Has w h =
        set_header-Has _ _ _ kept.pragma (set_header-Has _ _ _ kept.cache_control h)

    pub typed-Has :
        (content_type : Bytes) (w : Writer)
        → Has w
        → Has (set_header (codes "Content-Type") content_type w)
    typed-Has content_type w h = set_header-Has _ content_type w kept.content_type h

    pub write_json_to-Has :
        (status : ℕ) (value : Body) (w : Writer) → Has w → Has (write_json_to status value w)
    unfolding write_json_to
    write_json_to-Has status value w h =
        write-Has _ _ (write_header-Has status _ (typed-Has _ _ (set_no_store-Has w h)))

    pub http_error-Has :
        (text : Bytes) (code : ℕ) (w : Writer) → Has w → Has (http_error text code w)
    unfolding http_error
    http_error-Has text code w h = write-Has _ _ (
        write_header-Has code _ (
          set_header-Has _ _ _ kept.sniffing
            (typed-Has _ _ (del_header-Has _ w kept.content_length h))))

    pub write_error_response-Has :
        (json : Bool) (status : ℕ) (code : Bytes) (w : Writer)
        → Has w
        → Has (write_error_response json status code w)
    unfolding write_error_response
    write_error_response-Has true status code w h = write_json_to-Has status _ w h
    write_error_response-Has false status code w h =
        http_error-Has _ status _ (set_no_store-Has w h)
