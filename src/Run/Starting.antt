-- ===== src/Run/Starting.antt =====
-- What a start leaves the server with.
use one_time_note.Base.{
  ◌≡◌, refl, sym, ap, subst, ◌∙◌, none, some, [], arith, inl, inr, Option-cases,
}
use one_time_note.Base.Text.{Bytes, IsBytes, codes, bytes_eq_refl}
use one_time_note.BurnToken.{derive_subkey, burn_token_verifier}
use one_time_note.Clock.{Time}
use one_time_note.Errors.{Result, ok, err, >>=-eq-ok}
use one_time_note.Records.{RootKeyRecord}
use one_time_note.Platform.{Platform}
use one_time_note.Database.{Db, Faults, update-eq-ok}
use one_time_note.RootKey.{
  root_key_storage_key, get_root_key, put_root_key, ensure_in_tx, ensure_root_keys,
}
use one_time_note.Ticket.{
  ticket_data, create_ticket, create_ticket_in_tx, sign_ticket, ticket_signature,
}
use one_time_note.NoteService.{Limits}
use one_time_note.NoteService.Cleanup.{cleanup, startup_maintenance}
use one_time_note.NoteService.Cleanup.Sweeping.{cleanup_cases}
use one_time_note.Handlers.{handle_create_ticket}

module _ (P : Platform) where
  abbrev pub HasSomeKey : Db P.Bucket → Type 0
  HasSomeKey db = (r : RootKeyRecord) × (get_root_key P db.root_keys ≡ ok r)

  get_root_key-put_root_key :
      (faults : Faults) (b keys : P.Bucket) (r : RootKeyRecord)
      → IsBytes r.secret
      → put_root_key P faults b r ≡ ok keys
      → get_root_key P keys ≡ ok r
  unfolding put_root_key get_root_key
  get_root_key-put_root_key faults b keys r bytes h = elim (Option-cases (P.marshal_root_key r)) [
    | inl unwritten ↦ absurd (ground (arith, unwritten, h))
    | inr (content, written) ↦ ground (
      arith,
      written,
      h,
      P.root_key_read r content bytes written,
      P.get-put b root_key_storage_key content root_key_storage_key,
      bytes_eq_refl root_key_storage_key,
    )
  ]

  ensure_root_keys-HasSomeKey :
      (faults : Faults) (now : Time) (secret : Bytes) (db db' : Db P.Bucket) {u : Unit {0}}
      → IsBytes secret
      → ensure_root_keys P faults now secret db ≡ (ok u, db')
      → HasSomeKey db' × (db'.config ≡ db.config)
  unfolding ensure_root_keys ensure_in_tx
  ensure_root_keys-HasSomeKey faults now secret db db' {u} bytes h =
      let body = update-eq-ok faults (ensure_in_tx P faults now secret) db db' u h in
      elim (Option-cases (P.get db.root_keys root_key_storage_key)) [
        | inr (content, stored) ↦
            let (r, key, same) =
              >>=-eq-ok (get_root_key P db.root_keys) _ (rw (stored, ensure_in_tx) at body) in
            let unchanged : db ≡ db' = cc same in
            subst (λ d. HasSomeKey d × (d.config ≡ db.config)) unchanged ((r, key), refl)
        | inl missing ↦
            let r : RootKeyRecord = record { created_at = now; secret = secret } in
            let (keys, put, same) =
              >>=-eq-ok (put_root_key P faults db.root_keys r) _
                (rw (missing, ensure_in_tx) at body) in
            let stored : record db { root_keys = keys } ≡ db' = cc same in
            subst (λ d. HasSomeKey d × (d.config ≡ db.config)) stored
              ((r, get_root_key-put_root_key faults db.root_keys keys r bytes put), refl)
      ]

  cleanup-keeps :
      (s : Limits) (faults : Faults) (now : Time) (db : Db P.Bucket)
      → ((cleanup P s faults now db).1.root_keys ≡ db.root_keys)
        × ((cleanup P s faults now db).1.config ≡ db.config)
  cleanup-keeps s faults now db =
      cleanup_cases P s faults now db (λ d. (d.root_keys ≡ db.root_keys) × (d.config ≡ db.config))
        (refl, refl)
        (λ db' w. (
          ap (λ (d : Db P.Bucket). d.root_keys) w.swept ∙ w.deleted.root_keys,
          ap (λ (d : Db P.Bucket). d.config) w.swept ∙ w.deleted.config,
        ))

  pub startup_maintenance-HasSomeKey :
      (s : Limits) (f g : Faults) (t u : Time) (secret : Bytes) (db db' : Db P.Bucket)
      {v : Unit {0}}
      → IsBytes secret
      → startup_maintenance P s (f, g) (t, u) secret db ≡ (ok v, db')
      → HasSomeKey db' × (db'.config ≡ db.config)
  unfolding startup_maintenance
  startup_maintenance-HasSomeKey s f g t u secret db db' {v} bytes h =
      by_result (ensure_root_keys P f t secret db).0 (ensure_root_keys P f t secret db).1 refl
    where
      by_result :
          (r : Result (Unit {0})) (middle : Db P.Bucket)
          → ensure_root_keys P f t secret db ≡ (r, middle)
          → HasSomeKey db' × (db'.config ≡ db.config)
      by_result (err e) middle e₁ = absurd (cc (rw (e₁, startup_maintenance) at h))
      by_result (ok w) middle e₁ =
          let ((r, key), config) = ensure_root_keys-HasSomeKey f t secret db middle bytes e₁ in
          let cleaned : cleanup P s g u middle ≡ (ok v, db') =
            subst
              (λ (x : Result (Unit {0}) × Db P.Bucket).
                elim x.0 [ err e ↦ (err e, x.1) | ok _ ↦ cleanup P s g u x.1 ] ≡ (ok v, db'))
              e₁ h in
          let swept = ap (λ (x : Result (Unit {0}) × Db P.Bucket). x.1) cleaned in
          let (keys, config') = cleanup-keeps s g u middle in
          (
            (
              r,
              ap (get_root_key P) (ap (λ (d : Db P.Bucket). d.root_keys) (sym swept) ∙ keys) ∙ key,
            ),
            ap (λ (d : Db P.Bucket). d.config) (sym swept) ∙ config' ∙ config,
          )

  -- Where a root key is stored and the key derivation and the encoding of the ticket succeed, so does the
  -- request for a ticket.
  pub handle_create_ticket-ok :
      (faults : Faults) (now : Time) (burn_token id : Bytes) (db : Db P.Bucket)
      → HasSomeKey db
      → faults.at_begin ≡ none
      → ((secret info : Bytes) → (key : Bytes) × (P.hkdf_key secret [] info 32 ≡ some key))
      → ((verifier : Bytes)
          → (b : Bytes) × (P.marshal_ticket (ticket_data P id verifier now) ≡ some b))
      → (handle_create_ticket P faults now burn_token id db).status ≡ 200
  unfolding handle_create_ticket create_ticket create_ticket_in_tx burn_token_verifier derive_subkey
      sign_ticket ticket_signature
  handle_create_ticket-ok faults now burn_token id db (r, key) begins derives encodes =
      let (k₁, e₁) = derives r.secret (codes "burn verifier v1") in
      let (b, e₂) = encodes (P.hmac k₁ burn_token) in
      let (k₂, e₃) = derives r.secret (codes "ticket signing v1") in
      ground (arith, begins, key, e₁, e₂, e₃)
