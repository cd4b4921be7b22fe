-- ===== src/Handlers/Opening/Whole.antt =====
-- A note on its whole way: stored by one request and opened by another.
use one_time_note.Base.{ℕ, ◌+◌, ◌<◌, ◌≤◌, ◌≡◌, sym, ap, ◌∙◌, subst}
use one_time_note.Base.Text.{Bytes}
use one_time_note.Base.Int.{pos}
use one_time_note.Clock.{Time}
use one_time_note.Errors.{ok}
use one_time_note.Platform.{Platform}
use one_time_note.Database.{Db, Faults, IsQuiet}
use one_time_note.Http.{Http, Response, CreateNoteRequest, write_json, open_note_response}
use one_time_note.Ticket.Verifying.{verify_ticket-IsVerified}
use one_time_note.NoteService.{Limits}
use one_time_note.NoteService.Open.{open_note}
use one_time_note.NoteService.Create.{Circumstances, create_note}
use one_time_note.NoteService.Create.Storing.{create_note-Stores}
use one_time_note.NoteService.Create.Preparing.{prepare-IsPrepared}
use one_time_note.NoteService.Create.Opening.{created_note, open_note-create_note}
use one_time_note.Handlers.{
  ready, read_create_request, read_open_request, handle_create_note, handle_open_note,
}
use one_time_note.Handlers.Creating.{handle_create_note_created}
use one_time_note.Handlers.Opening.{handle_open_note-ok}

module _ (P : Platform) (s : Limits) (c : Circumstances) where
  -- A note is stored under the ID of the path.
  pub create_note-path_id :
      (path_id ticket burn_token payload : Bytes) (span : ℕ) (db db' : Db P.Bucket) (id : Bytes)
      → create_note P s c path_id ticket burn_token payload (pos span) db ≡ (ok id, db')
      → id ≡ path_id
  create_note-path_id path_id ticket burn_token payload span db db' id h =
      let (d, prepared, (_, same, _, _)) =
        create_note-Stores P s c path_id ticket burn_token payload (pos span) db db' id h in
      let p = prepare-IsPrepared P s c path_id ticket burn_token payload (pos span) db d prepared in
      let v =
        verify_ticket-IsVerified P c.verify_faults c.verified_at ticket path_id burn_token db p.t
          p.burn_verifier p.verified in
      same ∙ p.same_id ∙ v.current.same_id

  -- After a request that was answered 201, at a time that is not Go's zero time, a request to open the
  -- ID of its path with its burn token is answered 200 with its payload, in the database as the first
  -- left it, as long as its lifetime has not passed and no call of bbolt fails.
  pub handle_open_note-handle_create_note :
      (H : Http) (content_type path body content_type' path' body' : Bytes) (db db' : Db P.Bucket)
      (response : Response) (id burn_token : Bytes) (req : CreateNoteRequest) (span : ℕ)
      (faults : Faults) (now : Time)
      → handle_create_note P H s c content_type path body db ≡ (response, db')
      → response.status ≡ 201
      → 0 < c.created_at
      → read_create_request H s.max_size content_type path body
        ≡ ready (id, req, burn_token, pos span)
      → read_open_request H content_type' path' body' ≡ ready (id, burn_token)
      → IsQuiet faults
      → now ≤ c.created_at + span
      → (handle_open_note P H s faults now content_type' path' body' db').0
        ≡ write_json 200 (open_note_response req.payload)
  handle_open_note-handle_create_note H ct path body ct' path' body' db db' response id token req
        span faults now handled created started read read' q until =
      let (id₁, req₁, token₁, lifetime, read₁, saved_id, saved, _) =
        handle_create_note_created P H s c ct path body db db' response handled created in
      let same : ready (id₁, req₁, token₁, lifetime) ≡ ready (id, req, token, pos span) =
        sym read₁ ∙ read in
      let saved' : create_note P s c id req.ticket token req.payload (pos span) db
          ≡ (ok saved_id, db') =
        cc (saved, same) in
      let here : saved_id ≡ id =
        create_note-path_id id req.ticket token req.payload span db db' saved_id saved' in
      let (v, opened) =
        open_note-create_note P s c id req.ticket token req.payload span db db' saved_id saved'
          started faults now q until in
      let opened' : (open_note P s faults now id token db').0
          ≡ ok (created_note P s c req.payload v span) =
        subst
          (λ (x : Bytes).
            (open_note P s faults now x token db').0 ≡ ok (created_note P s c req.payload v span))
          here opened in
      ap (λ (y : Response × Db P.Bucket). y.0)
        (handle_open_note-ok P H s faults now ct' path' body' id token read' db' _ _
          (λ i. (opened' i, (open_note P s faults now id token db').1)))
