-- ===== src/Schema.antt =====
-- database.go: the schema version, a big-endian uint64 in the bucket `config`, which is written to a new
-- database and checked in an old one.
use one_time_note.Base.{
  ℕ, ◌+◌, ◌*◌, ◌/◌, ◌%◌, ◌^◌, ◌<◌, ◌≡◌, ◌⊎◌, ◌↔◌, refl, Option, none, some, [], ◌∷◌, arith, ltb,
  ◌==◌, if◌then◌else◌,
}
use one_time_note.Base.Text.{Bytes, codes, bytes_eq_refl}
use one_time_note.Errors.{unsupported_schema, Result, ok, err, ◌>>◌, check_fault}
use one_time_note.Platform.{Platform}
use one_time_note.Database.{Db, Faults, config_bucket}

unfoldable pub encode_uint64 : ℕ → Bytes
encode_uint64 v =
    v / 2 ^ 56 % 256
    ∷ v / 2 ^ 48 % 256
    ∷ v / 2 ^ 40 % 256
    ∷ v / 2 ^ 32 % 256
    ∷ v / 2 ^ 24 % 256
    ∷ v / 2 ^ 16 % 256
    ∷ v / 2 ^ 8 % 256
    ∷ v % 256
    ∷ []

-- A value of another length than 8 is read as 0.
unfoldable pub decode_uint64 : Bytes → ℕ
decode_uint64 (a ∷ b ∷ c ∷ d ∷ e ∷ f ∷ g ∷ h ∷ []) =
    a * 2 ^ 56 + b * 2 ^ 48 + c * 2 ^ 40 + d * 2 ^ 32 + e * 2 ^ 24 + f * 2 ^ 16 + g * 2 ^ 8 + h
decode_uint64 _ = 0

-- Every uint64 is read back.
pub decode_uint64-encode_uint64 : (v : ℕ) → v < 2 ^ 64 → decode_uint64 (encode_uint64 v) ≡ v
unfolding decode_uint64 encode_uint64
decode_uint64-encode_uint64 v h = omega arith

abbrev pub schema_version_key : Bytes
schema_version_key = codes "schema_version"

abbrev pub current_schema_version : ℕ
current_schema_version = 1

-- `config.Get(key)` is nil, of length 0, for a key that is missing.
abbrev pub or_nil : Option Bytes → Bytes
or_nil none = []
or_nil (some v) = v

module _ (P : Platform) where
  unfoldable pub schema_version : Db P.Bucket → ℕ
  schema_version db = decode_uint64 (or_nil (P.get db.config schema_version_key))

  unfoldable pub ensure_schema_version : Faults → Db P.Bucket → Result (Unit {0} × Db P.Bucket)
  ensure_schema_version faults db =
      let version = schema_version db in
      if version == 0
      then (do
        check_fault (faults.at_put config_bucket schema_version_key)
        ok (
          tt,
          record db {
            config = P.put db.config schema_version_key (encode_uint64 current_schema_version);
          },
        ))
      else if ltb current_schema_version version
      then err unsupported_schema
      else if ltb version current_schema_version
      then err unsupported_schema
      else ok (tt, db)

  schema_version-put :
      (db : Db P.Bucket)
      → schema_version (record db {
        config = P.put db.config schema_version_key (encode_uint64 current_schema_version);
      })
        ≡ current_schema_version
  unfolding schema_version decode_uint64 encode_uint64
  schema_version-put db =
      rw
        (
          P.get-put db.config schema_version_key (encode_uint64 current_schema_version)
              schema_version_key,
          bytes_eq_refl schema_version_key,
        )
        refl

  -- What a database that is accepted has in the bucket `config`: where there was no version, or one that is read as
  -- 0, the current one was written, and where there was one, it is the current one and nothing was written.
  abbrev pub IsVersioned : (stored config : P.Bucket) → Type 0
  IsVersioned stored config =
      let version = decode_uint64 (or_nil (P.get stored schema_version_key)) in
      ((version ≡ 0)
        × (config ≡ P.put stored schema_version_key (encode_uint64 current_schema_version)))
      ⊎ ((version ≡ current_schema_version) × (config ≡ stored))

  pub ensure_schema_version-IsVersioned :
      (faults : Faults) (db db' : Db P.Bucket)
      → ensure_schema_version faults db ≡ ok (tt, db')
      → IsVersioned db.config db'.config
  unfolding ensure_schema_version schema_version
  ensure_schema_version-IsVersioned faults db db' h = ground (arith, h)

  -- A database that was accepted has the current version, and nothing but its version was written.
  pub ensure_schema_version_accepts :
      (faults : Faults) (db db' : Db P.Bucket)
      → ensure_schema_version faults db ≡ ok (tt, db')
      → (schema_version db' ≡ current_schema_version)
        × (db'.payloads ≡ db.payloads)
        × (db'.metadata ≡ db.metadata)
        × (db'.root_keys ≡ db.root_keys)
        × (db'.used_tickets ≡ db.used_tickets)
  unfolding ensure_schema_version
  ensure_schema_version_accepts faults db db' h = ground (arith, schema_version-put db)

  -- Where the write does not fail, a database is refused exactly if it has a version, and not the
  -- current one.
  ensure_schema_version_refuses :
      (faults : Faults) (db : Db P.Bucket)
      → faults.at_put config_bucket schema_version_key ≡ none
      → (ensure_schema_version faults db ≡ err unsupported_schema) ↔ (1 < schema_version db)
  unfolding ensure_schema_version
  ensure_schema_version_refuses faults db h = ground arith
