-- ===== src/Example/Concrete.antt =====
-- A concrete platform: buckets as association lists, a checksum in the place of SHA-256 and a binary
-- format in the place of JSON. It shows that the assumptions on the platform can hold.
use one_time_note.Base.{
  subst, All-append, ℕ, zero, suc, ◌%◌, ◌^◌, ◌<◌, ◌≡◌, refl, sym, ap, ◌∙◌, ◌&&◌, Option, none, some,
  [], ◌∷◌, ◌++◌, All, arith, ltb, length, take, drop, length-append, take-length-append,
  drop-length-append, if◌then◌else◌,
}
use one_time_note.Base.Text.{Bytes, IsBytes}
use one_time_note.Base.Int.{pos, eq_ℤ}
use one_time_note.Records.{Metadata, UsedTicketMarker, TicketData, RootKeyRecord}
use one_time_note.Schema.{encode_uint64, decode_uint64, decode_uint64-encode_uint64}
use one_time_note.Platform.{Crypto, IsEncodable, Json, Platform}
use one_time_note.Example.Pairs.{bolt}

-- The first `n` bytes, with zeros behind a shorter text.
unfoldable pub pad : ℕ → Bytes → Bytes
pad zero b = []
pad (suc n) [] = 0 ∷ pad n []
pad (suc n) (x ∷ b) = x % 256 ∷ pad n b

pub length-pad : (n : ℕ) (b : Bytes) → length (pad n b) ≡ n
unfolding pad
length-pad zero b = refl
length-pad (suc n) [] = ap suc (length-pad n [])
length-pad (suc n) (x ∷ b) = ap suc (length-pad n b)

pub pad-IsBytes : (n : ℕ) (b : Bytes) → IsBytes (pad n b)
unfolding pad
pad-IsBytes zero b = tt
pad-IsBytes (suc n) [] = (omega arith, pad-IsBytes n [])
pad-IsBytes (suc n) (x ∷ b) = (omega arith, pad-IsBytes n b)

abbrev pub crypto : Crypto
crypto = record {
  hkdf_key = λ secret salt info n. some (info ++ secret);
  hmac = λ key message. pad 32 (message ++ key);
  length-hmac = λ key message. length-pad 32 (message ++ key);
  hmac-IsBytes = λ key message. pad-IsBytes 32 (message ++ key);
}

-- Two times of 8 bytes each, and what stands behind them.
unfoldable pub write_times : ℕ → ℕ → Bytes → Option Bytes
write_times t u rest =
    if ltb t (2 ^ 64) && ltb u (2 ^ 64)
    then some (encode_uint64 t ++ (encode_uint64 u ++ rest))
    else none

unfoldable pub read_times : Bytes → ℕ × ℕ × Bytes
read_times b = (decode_uint64 (take 8 b), decode_uint64 (take 8 (drop 8 b)), drop 8 (drop 8 b))

write_times-eq-some :
    (t u : ℕ) (rest b : Bytes)
    → write_times t u rest ≡ some b
    → (t < 2 ^ 64) × (u < 2 ^ 64) × (b ≡ encode_uint64 t ++ (encode_uint64 u ++ rest))
unfolding write_times
write_times-eq-some t u rest b h = ground arith

read_times-append :
    (t u : ℕ) (rest : Bytes)
    → t < 2 ^ 64
    → u < 2 ^ 64
    → read_times (encode_uint64 t ++ (encode_uint64 u ++ rest)) ≡ (t, u, rest)
unfolding read_times encode_uint64
read_times-append t u rest ht hu =
    cc (decode_uint64-encode_uint64 t ht, decode_uint64-encode_uint64 u hu)

read_times-write_times :
    (t u : ℕ) (rest b : Bytes) → write_times t u rest ≡ some b → read_times b ≡ (t, u, rest)
read_times-write_times t u rest b h =
    let (ht, hu, e) = write_times-eq-some t u rest b h in
    ap read_times e ∙ read_times-append t u rest ht hu

length-encode_uint64 : (v : ℕ) → length (encode_uint64 v) ≡ 8
unfolding encode_uint64
length-encode_uint64 v = refl

encode_uint64-IsBytes : (v : ℕ) → IsBytes (encode_uint64 v)
unfolding encode_uint64
encode_uint64-IsBytes v = omega arith

write_times-IsBytes :
    (t u : ℕ) (rest b : Bytes)
    → IsBytes rest
    → write_times t u rest ≡ some b
    → IsBytes b × (0 < length b)
write_times-IsBytes t u rest b bytes h =
    let (_, _, e) = write_times-eq-some t u rest b h in
    (
      subst IsBytes (sym e) (
          All-append (λ b. b < 256) (encode_uint64 t) _ (encode_uint64-IsBytes t)
            (All-append (λ b. b < 256) (encode_uint64 u) rest (encode_uint64-IsBytes u) bytes)),
      omega (
        arith,
        ap length e,
        length-append {0} (encode_uint64 t) (encode_uint64 u ++ rest),
        length-encode_uint64 t,
      ),
    )

abbrev pub marshal_ticket : TicketData → Option Bytes
marshal_ticket t =
    if eq_ℤ t.v (pos 1) then write_times t.issued_at t.exp (t.id ++ t.burn_verifier) else none

abbrev pub to_ticket : ℕ × ℕ × Bytes → TicketData
to_ticket (t, u, rest) = record {
  v = pos 1;
  id = take 32 rest;
  issued_at = t;
  exp = u;
  burn_verifier = drop 32 rest;
}

abbrev pub to_metadata : ℕ × ℕ × Bytes → Metadata
to_metadata (t, u, rest) = record { burn_verifier = rest; created_at = t; expires_at = u }

abbrev pub to_marker : ℕ × ℕ × Bytes → UsedTicketMarker
to_marker (t, u, rest) = record { expires_at = t }

abbrev pub to_root_key : ℕ × ℕ × Bytes → RootKeyRecord
to_root_key (t, u, rest) = record { created_at = t; secret = rest }

abbrev pub marshal_metadata : Metadata → Option Bytes
marshal_metadata m = write_times m.created_at m.expires_at m.burn_verifier

abbrev pub marshal_marker : UsedTicketMarker → Option Bytes
marshal_marker m = write_times m.expires_at 0 []

abbrev pub marshal_root_key : RootKeyRecord → Option Bytes
marshal_root_key r = write_times r.created_at 0 r.secret

written :
    (t : TicketData) (b : Bytes)
    → marshal_ticket t ≡ some b
    → write_times t.issued_at t.exp (t.id ++ t.burn_verifier) ≡ some b
written t b h = ground arith

pub ticket_read :
    (t : TicketData) (b : Bytes)
    → IsEncodable t
    → marshal_ticket t ≡ some b
    → some (to_ticket (read_times b)) ≡ some t
ticket_read t b e h =
    let times =
      read_times-write_times t.issued_at t.exp (t.id ++ t.burn_verifier) b (written t b h) in
    ground (
      arith,
      times,
      take-length-append {0} 32 t.id t.burn_verifier e.length_id,
      drop-length-append {0} 32 t.id t.burn_verifier e.length_id,
    )

ascii_bytes : (s : Bytes) → All (λ c. c < 128) s → IsBytes s
ascii_bytes [] h = tt
ascii_bytes (c ∷ s) (hc, h) = (omega arith, ascii_bytes s h)

pub ticket_bytes :
    (t : TicketData) (b : Bytes)
    → IsEncodable t
    → marshal_ticket t ≡ some b
    → IsBytes b × (0 < length b)
ticket_bytes t b e h =
    write_times-IsBytes t.issued_at t.exp (t.id ++ t.burn_verifier) b
      (All-append (λ c. c < 256) t.id t.burn_verifier e.id_bytes
        (ascii_bytes t.burn_verifier e.ascii))
      (written t b h)

pub metadata_read :
    (m : Metadata) (b : Bytes)
    → marshal_metadata m ≡ some b
    → some (to_metadata (read_times b)) ≡ some m
metadata_read m b h =
    ap (λ x. some (to_metadata x))
      (read_times-write_times m.created_at m.expires_at m.burn_verifier b h)

pub marker_read :
    (m : UsedTicketMarker) (b : Bytes)
    → marshal_marker m ≡ some b
    → some (to_marker (read_times b)) ≡ some m
marker_read m b h = ap (λ x. some (to_marker x)) (read_times-write_times m.expires_at 0 [] b h)

pub root_key_read :
    (r : RootKeyRecord) (b : Bytes)
    → marshal_root_key r ≡ some b
    → some (to_root_key (read_times b)) ≡ some r
root_key_read r b h =
    ap (λ x. some (to_root_key x)) (read_times-write_times r.created_at 0 r.secret b h)

abbrev pub json : Json
json = record {
  marshal_metadata = marshal_metadata;
  unmarshal_metadata = λ b. some (to_metadata (read_times b));
  marshal_marker = marshal_marker;
  unmarshal_marker = λ b. some (to_marker (read_times b));
  marshal_ticket = marshal_ticket;
  unmarshal_ticket = λ b. some (to_ticket (read_times b));
  marshal_root_key = marshal_root_key;
  unmarshal_root_key = λ b. some (to_root_key (read_times b));
  metadata_read = λ m b _. metadata_read m b;
  marker_read = marker_read;
  ticket_read = ticket_read;
  ticket_bytes = ticket_bytes;
  root_key_read = λ r b _. root_key_read r b;
}

abbrev pub concrete : Platform
concrete = record { bolt = bolt; crypto = crypto; json = json }
