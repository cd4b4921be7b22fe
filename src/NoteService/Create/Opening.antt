-- ===== src/NoteService/Create/Opening.antt =====
-- A note that `CreateNote` has stored is what `OpenNote` returns, and it is returned once.
use one_time_note.Base.{ℕ, ◌+◌, ◌<◌, ◌≤◌, ◌≡◌, refl, sym, ap, ◌∙◌, subst, inl, inr, some, arith}
use one_time_note.Base.Text.{Bytes, bytes_eq_refl}
use one_time_note.Base.Int.{pos}
use one_time_note.BurnToken.{length-burn_token_verifier}
use one_time_note.Clock.{Time}
use one_time_note.Errors.{ok}
use one_time_note.Records.{Note}
use one_time_note.Platform.{Platform}
use one_time_note.Database.{Db, Faults, IsQuiet}
use one_time_note.RootKey.{get_root_key}
use one_time_note.Ticket.Verifying.{verify_ticket-IsVerified}
use one_time_note.NoteService.{Limits}
use one_time_note.NoteService.Cleanup.{cleanup}
use one_time_note.NoteService.Cleanup.Sweeping.{cleanup-Sweeps}
use one_time_note.NoteService.Open.{open_note}
use one_time_note.NoteService.Open.Returning.{Holds, open_note-returns}
use one_time_note.NoteService.Create.{Circumstances, Draft, create_note}
use one_time_note.NoteService.Create.Storing.{Stores, IsBase, create_note-Stores}
use one_time_note.NoteService.Create.Preparing.{created_metadata, IsPrepared, prepare-IsPrepared}

module _ (P : Platform) (s : Limits) where
  pub root_keys-cleanup :
      (faults : Faults) (now : Time) (db db' : Db P.Bucket)
      → cleanup P s faults now db ≡ (ok tt, db')
      → db'.root_keys ≡ db.root_keys
  root_keys-cleanup faults now db db' h =
      let w = cleanup-Sweeps P s faults now db db' h in
      ap (λ (d : Db P.Bucket). d.root_keys) w.swept ∙ w.deleted.root_keys

  module _ (c : Circumstances) (db base db' : Db P.Bucket) where
    root_keys-IsBase : IsBase P s c db base → base.root_keys ≡ db.root_keys
    root_keys-IsBase (inl same) = ap (λ (d : Db P.Bucket). d.root_keys) same
    root_keys-IsBase (inr swept) = root_keys-cleanup c.cleanup_faults c.cleaned_at db base swept

    root_keys-Stores :
        (d : Draft) → IsBase P s c db base → Stores P d base db' → db'.root_keys ≡ db.root_keys
    root_keys-Stores d from st =
        ap (λ (x : Db P.Bucket). x.root_keys) st.stored ∙ root_keys-IsBase from

  -- The note that a call of `CreateNote` has stored, for a payload and a lifetime.
  abbrev pub created_note : Circumstances → Bytes → Bytes → ℕ → Note
  created_note c payload verifier span = record {
    payload = payload;
    metadata = created_metadata c verifier span;
  }

  module _ (c : Circumstances) (path_id ticket burn_token payload : Bytes) (span : ℕ)
      (db base db' : Db P.Bucket) (d : Draft) where
    Stores-Holds :
        0 < c.created_at
        → IsPrepared P s c path_id ticket burn_token payload (pos span) db d
        → IsBase P s c db base
        → Stores P d base db'
        → (v : Bytes) × Holds P s db' d.id burn_token (created_note c payload v span) v
    Stores-Holds started p from st =
        let v = p.burn_verifier in
        let ver =
          verify_ticket-IsVerified P c.verify_faults c.verified_at ticket path_id burn_token db p.t
            v p.verified in
        let same_span : p.span ≡ span = ground (arith, p.lifetime_read) in
        let marshalled : P.marshal_metadata (created_metadata c v span) ≡ some d.metadata_bytes =
          subst (λ (n : ℕ). P.marshal_metadata (created_metadata c v n) ≡ some d.metadata_bytes)
            same_span p.metadata in
        (
          v,
          record {
            metadata_bytes = d.metadata_bytes;
            root_key = ver.root_key;
            metadata = ground (
              arith,
              st.stored,
              P.get-put base.metadata d.id d.metadata_bytes d.id,
              bytes_eq_refl d.id,
            );
            payload = ground (
              arith,
              st.stored,
              p.same_payload,
              P.get-put base.payloads d.id d.payload d.id,
              bytes_eq_refl d.id,
            );
            read =
                P.metadata_read (created_metadata c v span) d.metadata_bytes
                  (length-burn_token_verifier P ver.root_key.secret burn_token v ver.own).1
                  marshalled;
            valid = record {
              created = started;
              ordered = omega arith;
              bounded = omega (arith, same_span, p.at_most);
              verifier = ver.length_verifier;
            };
            key = ap (get_root_key P) (root_keys-Stores c db base db' d from st) ∙ ver.key_stored;
            derived = ver.own;
          },
        )

  module _ (c : Circumstances) (path_id ticket burn_token payload : Bytes) (span : ℕ)
      (db db' : Db P.Bucket) (id : Bytes)
      (created : create_note P s c path_id ticket burn_token payload (pos span) db ≡ (ok id, db'))
      (started : 0 < c.created_at) where
    pub create_note-Holds :
        (v : Bytes) × Holds P s db' id burn_token (created_note c payload v span) v
    create_note-Holds =
        let (d, prepared, (base, same, from, stores)) =
          create_note-Stores P s c path_id ticket burn_token payload (pos span) db db' id created in
        let p =
          prepare-IsPrepared P s c path_id ticket burn_token payload (pos span) db d prepared in
        let (v, h) =
          Stores-Holds c path_id ticket burn_token payload span db base db' d started p from
            stores in
        (
          v,
          subst (λ (i : Bytes). Holds P s db' i burn_token (created_note c payload v span) v)
              (sym same) h,
        )

    -- A note that `CreateNote` stored, at a time that is not Go's zero time, is read back: in the
    -- database as that call left it, the same burn token gets the payload with the metadata of the
    -- call, as long as the lifetime has not passed and no call of bbolt fails.
    pub open_note-create_note :
        (faults : Faults) (now : Time)
        → IsQuiet faults
        → now ≤ c.created_at + span
        → (v : Bytes) × ((open_note P s faults now id burn_token db').0
            ≡ ok (created_note c payload v span))
    open_note-create_note faults now q t =
        let (v, h) = create_note-Holds in
        (
          v,
          open_note-returns P s faults now id burn_token db' (created_note c payload v span) v h q
              refl t,
        )
