-- ===== src/Application/Reaching.antt =====
-- The server changes the database by the transactions of the service only.
use one_time_note.Base.{
  ℕ, Option-cases, ◌≤◌, ◌≡◌, refl, sym, ap, subst, ◌∙◌, some, List, [], ◌∷◌, arith, inl, inr,
  length, replicate,
}
use one_time_note.Base.Text.{Bytes}
use one_time_note.Clock.{Time, Duration}
use one_time_note.Errors.{Result, ok, err, other}
use one_time_note.Records.{Note}
use one_time_note.Platform.{Platform}
use one_time_note.Database.{Db, Faults, no_faults}
use one_time_note.Net.{Net}
use one_time_note.RateLimiter.{Rate}
use one_time_note.NoteId
use one_time_note.NoteService.{Limits}
use one_time_note.NoteService.Create.{Circumstances, create_once, create_note}
use one_time_note.Http.{Http, CreateNoteRequest}
use one_time_note.Handlers.{
  ready, answer_create, answer_open, Attempt-cases, read_create_request, read_open_request,
  handle_create_note, handle_open_note,
}
use one_time_note.History.{State, attempted, opened, cleaned, Reach, here, next}
use one_time_note.History.Calls.{create_note-Reach}
use one_time_note.Web.{new_writer}
use one_time_note.Views.{Engine}
use one_time_note.Application.{NetHttp, App, Shared}
use one_time_note.Application.Guarding.{serve_http_guarded}
use one_time_note.Application.Events.{
  Event, request, background_cleanup, handle, handle_all, time_of, ReadsBefore, IsTimely, last_time,
}

module _ (P : Platform) (H : Http) (s : Limits) where
  abbrev at : Time → Db P.Bucket → State P
  at now db = record { clock = now; db = db }

  Reach-trans : {x y z : State P} → Reach P s x y → Reach P s y z → Reach P s x z
  Reach-trans first here = first
  Reach-trans first (next reach step) = next (Reach-trans first reach) step

  -- Time passes: a transaction that does not begin.
  waits-Reach : (db : Db P.Bucket) (t now : Time) → t ≤ now → Reach P s (at t db) (at now db)
  unfolding create_once
  waits-Reach db t now later = next here (
      attempted (record no_faults { at_begin = some (other 0) })
        (record { id = replicate 32 0; metadata_bytes = []; payload = []; marker_bytes = [] }) refl
        later refl)

  length-read_create_request :
      (max_size : ℕ) (content_type path body id token : Bytes) (req : CreateNoteRequest)
      (lifetime : Duration)
      → read_create_request H max_size content_type path body ≡ ready (id, req, token, lifetime)
      → length id ≡ 32
  unfolding read_create_request
  length-read_create_request max_size content_type path body id token req lifetime h =
      elim (Option-cases (NoteId.parse path)) [
        | inl bad ↦ absurd (ground (arith, bad, h))
        | inr (i, good) ↦
            let same : i ≡ id = ground (arith, good, h) in
            ap length (sym same) ∙ NoteId.length-parse path i good
      ]

  length-read_open_request :
      (content_type path body id token : Bytes)
      → read_open_request H content_type path body ≡ ready (id, token)
      → length id ≡ 32
  unfolding read_open_request
  length-read_open_request content_type path body id token h =
      elim (Option-cases (NoteId.parse path)) [
        | inl bad ↦ absurd (ground (arith, bad, h))
        | inr (i, good) ↦
            let same : i ≡ id = ground (arith, good, h) in
            ap length (sym same) ∙ NoteId.length-parse path i good
      ]

  answer_create-db :
      (lifetime : Duration) (r : Result Bytes) (db : Db P.Bucket)
      → (answer_create P lifetime (r, db)).1 ≡ db
  answer_create-db lifetime (err e) db = refl
  answer_create-db lifetime (ok id) db = refl

  answer_open-db : (r : Result Note) (db : Db P.Bucket) → (answer_open P (r, db)).1 ≡ db
  answer_open-db (err e) db = refl
  answer_open-db (ok note) db = refl

  module _ (now : Time) (content_type path body : Bytes) (db : Db P.Bucket) where
    handle_create_note-Reach :
        (c : Circumstances)
        → c.cleaned_at ≤ now
        → Reach P s (at now db) (at now (handle_create_note P H s c content_type path body db).1)
    unfolding handle_create_note
    handle_create_note-Reach c by_now =
        elim (Attempt-cases (read_create_request H s.max_size content_type path body)) [
          | inr (response, refused) ↦ rw (refused, handle_create_note) here
          | inl ((id, req, token, lifetime), read) ↦
              let stored =
                create_note-Reach P s c now by_now id req.ticket token req.payload lifetime db (
                  length-read_create_request s.max_size content_type path body id token req lifetime
                    read) in
              let same : (handle_create_note P H s c content_type path body db).1
                  ≡ (create_note P s c id req.ticket token req.payload lifetime db).1 =
                rw (read, handle_create_note) (answer_create-db lifetime _ _) in
              subst (λ x. Reach P s (at now db) (at now x)) (sym same) stored
        ]

    handle_open_note-Reach :
        (faults : Faults) (opened_at : Time)
        → opened_at ≤ now
        → Reach P s
            (at now db)
            (at now (handle_open_note P H s faults opened_at content_type path body db).1)
    unfolding handle_open_note
    handle_open_note-Reach faults opened_at by_now =
        elim (Attempt-cases (read_open_request H content_type path body)) [
          | inr (response, refused) ↦ rw (refused, handle_open_note) here
          | inl ((id, token), read) ↦ next here (
              opened faults opened_at id token
                (length-read_open_request content_type path body id token read) by_now (omega arith)
                (rw (read, handle_open_note) (answer_open-db _ _)))
        ]

module _ (N : Net) (E : Engine N) (R : Rate) (P : Platform) (H : Http) (S : NetHttp N)
    (a : App N E R P H S) where
  handle-Reach :
      (event : Event N E R P H S) (s : Shared N E R P H S)
      → ReadsBefore N E R P H S event
      → Reach P a.limits
          (at P H a.limits (time_of N E R P H S event) s.db)
          (at P H a.limits (time_of N E R P H S event) (handle N E R P H S a event s).db)
  unfolding handle
  handle-Reach (background_cleanup now faults cleaned_at) s read =
      next here (cleaned faults cleaned_at read (omega arith) refl)
  handle-Reach (request now m v) s (cleaned_by, opened_by) =
      let reaches = λ (db : Db P.Bucket).
        Reach P a.limits (at P H a.limits now s.db) (at P H a.limits now db) in
      elim (serve_http_guarded N E R P H S a m v new_writer s) [
        | inl kept ↦ subst reaches (sym kept) here
        | inr (ctx, proxied, passed) ↦
            let (id, written) = passed.written in
            elim written [
              | inl (_, made) ↦ subst reaches (sym made) (
                  handle_create_note-Reach P H a.limits now v.content_type id v.content s.db
                    m.circumstances cleaned_by)
              | inr (_, made) ↦ subst reaches (sym made) (
                  handle_open_note-Reach P H a.limits now v.content_type id v.content s.db
                    m.open_faults m.opened_at opened_by)
            ]
      ]

  -- Whatever requests arrive, valid or not, and whenever the background cleanup runs between them, the
  -- server changes the database by the transactions of the service's history only, given that each
  -- reading of the clock is made before its event is over.
  pub handle_all-Reach :
      (t : Time) (events : List (Event N E R P H S)) (s : Shared N E R P H S)
      → IsTimely N E R P H S t events
      → Reach P a.limits
          (record { clock = t; db = s.db })
          (record {
            clock = last_time N E R P H S t events;
            db = (handle_all N E R P H S a events s).db;
          })
  unfolding handle_all
  handle_all-Reach t [] s timely = here
  handle_all-Reach t (event ∷ events) s (later, read, timely) =
      Reach-trans P H a.limits
        (Reach-trans P H a.limits
          (waits-Reach P H a.limits s.db t (time_of N E R P H S event) later)
          (handle-Reach event s read))
        (handle_all-Reach (time_of N E R P H S event) events (handle N E R P H S a event s) timely)
