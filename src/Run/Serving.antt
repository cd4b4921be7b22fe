-- ===== src/Run/Serving.antt =====
-- A server that has started can serve.
use one_time_note.Base.{◌≡◌, refl, sym, ap, subst, ◌∙◌, none, some, [], inl, inr, Option-cases}
use one_time_note.Base.Text.{Bytes, IsBytes}
use one_time_note.Clock.{Time}
use one_time_note.Errors.{Result, ok, err}
use one_time_note.Platform.{Platform}
use one_time_note.Database.{Db, Faults}
use one_time_note.Net.{Net}
use one_time_note.RateLimiter.{Rate}
use one_time_note.Schema.{schema_version, current_schema_version}
use one_time_note.Ticket.{ticket_data}
use one_time_note.Http.{Http}
use one_time_note.NoteService.{new_limits}
use one_time_note.NoteService.Cleanup.{startup_maintenance}
use one_time_note.Handlers.{handle_create_ticket}
use one_time_note.Configuration.Parsing.{Parsers}
use one_time_note.Configuration.Startup.{Config, new_config_with_options}
use one_time_note.Configuration.Valid.{IsValid, new_config_with_options-IsValid}
use one_time_note.OpenDb.Accepting.{open_db_cases}
use one_time_note.Assets.{new_asset_version}
use one_time_note.Views.{Engine, new_views}
use one_time_note.Application.{NetHttp, App, Shared}
use one_time_note.Run.{
  Start, ready, not_maintained, size_of, application_file_systems, assemble, maintain, run,
}
use one_time_note.Run.Starting.{HasSomeKey, startup_maintenance-HasSomeKey, handle_create_ticket-ok}

module _ (N : Net) (L : Parsers N) (E : Engine N) (R : Rate) (P : Platform) (H : Http)
    (S : NetHttp N) where
  module _ (x : Start N L E R P H S) (a : App N E R P H S) (s : Shared N E R P H S) where
    assemble-eq-ready :
        (cfg : Config N) (db : Db P.Bucket)
        → assemble N L E R P H S x cfg db ≡ ready a s
        → (cfg ≡ a.cfg) × (db ≡ s.db)
    unfolding assemble application_file_systems
    assemble-eq-ready cfg db h =
        elim (Option-cases (new_asset_version x.sum256 (x.static_files cfg.is_development))) [
          | inl none_read ↦ absurd (cc (rw (none_read, assemble, application_file_systems) at h))
          | inr (version, read) ↦
              elim (Option-cases (
                new_views N E (x.template_files cfg.is_development) version cfg.is_development
                  cfg.brand)) [
                    | inl none_parsed ↦
                        absurd
                          (cc (rw (read, none_parsed, assemble, application_file_systems) at h))
                    | inr (views, parsed) ↦
                        let made = rw (read, parsed, assemble, application_file_systems) at h in
                        (cc made, cc made)
                  ]
        ]

    maintain-eq-ready :
        (cfg : Config N) (db : Db P.Bucket)
        → IsBytes x.secret
        → maintain N L E R P H S x cfg db ≡ ready a s
        → (cfg ≡ a.cfg) × HasSomeKey P s.db × (s.db.config ≡ db.config)
    unfolding maintain
    maintain-eq-ready cfg db bytes h = by_result maintenance.0 maintenance.1 refl
      where
        maintenance : Result (Unit {0}) × Db P.Bucket
        maintenance =
            startup_maintenance P (new_limits (size_of cfg.max_note_size))
              (x.key_faults, x.cleanup_faults) (x.key_at, x.cleanup_at) x.secret db

        after :
            (r : Result (Unit {0})) (db' : Db P.Bucket)
            → maintenance ≡ (r, db')
            → (elim r [ err e ↦ not_maintained e | ok _ ↦ assemble N L E R P H S x cfg db' ])
              ≡ ready a s
        after r db' e =
            subst
              (λ (y : Result (Unit {0}) × Db P.Bucket).
                elim y.0 [ err e ↦ not_maintained e | ok _ ↦ assemble N L E R P H S x cfg y.1 ]
                ≡ ready a s)
              e h

        by_result :
            (r : Result (Unit {0})) (db' : Db P.Bucket)
            → maintenance ≡ (r, db')
            → (cfg ≡ a.cfg) × HasSomeKey P s.db × (s.db.config ≡ db.config)
        by_result (err e) db' e₁ = absurd (cc (after (err e) db' e₁))
        by_result (ok u) db' e₁ =
            let assembled : assemble N L E R P H S x cfg db' ≡ ready a s = after (ok u) db' e₁ in
            let (same_cfg, same_db) = assemble-eq-ready cfg db' assembled in
            let (key, config) =
              startup_maintenance-HasSomeKey P _ x.key_faults x.cleanup_faults x.key_at x.cleanup_at
                x.secret db db' bytes e₁ in
            (
              same_cfg,
              subst (HasSomeKey P) same_db key,
              sym (ap (λ (d : Db P.Bucket). d.config) same_db) ∙ config,
            )

    run-eq-ready :
        IsBytes x.secret
        → run N L E R P H S x ≡ ready a s
        → (new_config_with_options N L x.getenv x.options ≡ some a.cfg)
          × (schema_version P s.db ≡ current_schema_version)
          × HasSomeKey P s.db
    unfolding run schema_version
    run-eq-ready bytes h = elim (Option-cases (new_config_with_options N L x.getenv x.options)) [
      | inl refused ↦ absurd (cc (rw (refused, run) at h))
      | inr (cfg, read) ↦ elim (open_db_cases P x.fresh cfg.max_db_size x.disk) [
        | inl (e, closed) ↦ absurd (cc (rw (read, closed, run) at h))
        | inr (held, db, _, accepted, made) ↦
            let (same, key, config) =
              maintain-eq-ready cfg db bytes (rw (read, accepted, run) at h) in
            (read ∙ ap some same, rw (config, schema_version) made.version, key)
      ]
    ]

    -- A start that gets as far as to serve has read a valid configuration, and its database has the
    -- current schema version and a root key; where the key derivation and the encoding of the ticket
    -- succeed and the transaction begins, a request for a ticket is answered with 200.
    pub run-ready :
        (faults : Faults) (now : Time) (burn_token id : Bytes)
        → IsBytes x.secret
        → run N L E R P H S x ≡ ready a s
        → faults.at_begin ≡ none
        → ((secret info : Bytes) → (key : Bytes) × (P.hkdf_key secret [] info 32 ≡ some key))
        → ((verifier : Bytes)
            → (b : Bytes) × (P.marshal_ticket (ticket_data P id verifier now) ≡ some b))
        → IsValid N L x.options a.cfg
          × (schema_version P s.db ≡ current_schema_version)
          × ((handle_create_ticket P faults now burn_token id s.db).status ≡ 200)
    run-ready faults now burn_token id bytes h begins derives encodes =
        let (read, version, key) = run-eq-ready bytes h in
        (
          new_config_with_options-IsValid N L x.getenv x.options a.cfg read,
          version,
          handle_create_ticket-ok P faults now burn_token id s.db key begins derives encodes,
        )
