-- ===== src/Views/Statuses.antt =====
-- The status that is recorded for a page.
use one_time_note.Base.{ap, ◌∙◌, ◌≡◌, Option, some, none, [], ◌∷◌, inl, inr, Option-cases, arith}
use one_time_note.Base.Text.{Bytes, codes}
use one_time_note.Configuration.Startup.{Config}
use one_time_note.Net.{Net}
use one_time_note.NoteId
use one_time_note.Web.{Writer, status_text}
use one_time_note.Web.Recording.{
  IsUnsent, IsRecorded, IsUnsent-IsRecorded, write_header-IsRecorded, write-IsRecorded,
  set_no_store-IsUnsent, set_no_store-IsRecorded, set_header-IsUnsent, set_header-IsRecorded,
}
use one_time_note.Views.{
  ViewModel, error_view, Engine, Views, parse, find_template, internal_server_error, copy, execute,
  view, not_found, handle_create_note_view, handle_preview_note,
}

module _ (N : Net) (E : Engine N) where
  -- The template of the cache, or else the parsed one.
  abbrev or_parsed : Option E.Template → Option E.Template → Option E.Template
  or_parsed none parsed = parsed
  or_parsed (some t) parsed = some t

  -- The page can be rendered: its template is there, or can be parsed, and can be executed.
  pub record Renders (v : Views N E) (name : Bytes) (model : ViewModel N) : Type 0 where
    pub template : E.Template
    pub page : Bytes
    pub there : or_parsed (find_template N E name v.templates) (parse N E v name) ≡ some template
    pub executed : E.execute template model ≡ some page

  internal_server_error-IsRecorded :
      (w : Writer) → IsUnsent w → IsRecorded (internal_server_error N E w)
  unfolding internal_server_error
  internal_server_error-IsRecorded w u = write-IsRecorded _ _ (
      write_header-IsRecorded 500 _ (λ h. omega (arith, h))
        (set_header-IsUnsent _ _ _
          (set_no_store-IsUnsent _ (record { unsent = u.unsent; unrecorded = u.unrecorded }))))

  copy-IsRecorded : (page : Bytes) (w : Writer) → IsRecorded w → IsRecorded (copy N E page w)
  copy-IsRecorded [] w r = r
  copy-IsRecorded (c ∷ s) w r = write-IsRecorded _ w r

  execute-IsRecorded :
      (t : E.Template) (model : ViewModel N) (page : Bytes) (w : Writer)
      → E.execute t model ≡ some page
      → IsRecorded w
      → IsRecorded (execute N E t model w)
  unfolding execute
  execute-IsRecorded t model page w rendered r =
      rw (rendered, execute)
        (copy-IsRecorded page _ (set_no_store-IsRecorded _ (set_header-IsRecorded _ _ w r)))

  execute-IsUnsent :
      (t : E.Template) (model : ViewModel N) (w : Writer)
      → IsUnsent w
      → IsRecorded (execute N E t model w)
  unfolding execute
  execute-IsUnsent t model w u = elim (Option-cases (E.execute t model)) [
    | inl failed ↦ rw (failed, execute) (internal_server_error-IsRecorded w u)
    | inr (page, rendered) ↦ execute-IsRecorded t model page w rendered (IsUnsent-IsRecorded w u)
  ]

  view-IsUnsent :
      (views : Views N E) (name : Bytes) (model : ViewModel N) (w : Writer)
      → IsUnsent w
      → IsRecorded (view N E views name model w)
  unfolding view
  view-IsUnsent views name model w u =
      elim (Option-cases (find_template N E name views.templates)) [
        | inr (t, cached) ↦ rw (cached, view) (execute-IsUnsent t model w u)
        | inl missing ↦ elim (Option-cases (parse N E views name)) [
          | inl failed ↦ rw (missing, failed, view) (internal_server_error-IsRecorded w u)
          | inr (t, parsed) ↦ rw (missing, parsed, view) (execute-IsUnsent t model w u)
        ]
      ]

  view-IsRecorded :
      (views : Views N E) (name : Bytes) (model : ViewModel N) (w : Writer)
      → Renders views name model
      → IsRecorded w
      → IsRecorded (view N E views name model w)
  unfolding view
  view-IsRecorded views name model w page r =
      elim (Option-cases (find_template N E name views.templates)) [
        | inr (t, cached) ↦
            let same : t ≡ page.template = cc (page.there, cached) in
            rw (cached, view)
              (execute-IsRecorded t model page.page w
                (ap (λ x. E.execute x model) same ∙ page.executed) r)
        | inl missing ↦
            let parsed : parse N E views name ≡ some page.template = cc (page.there, missing) in
            rw (missing, parsed, view)
              (execute-IsRecorded page.template model page.page w page.executed r)
      ]

  -- Where the error page can be rendered.
  abbrev pub RendersMissing : Views N E → Type 0
  RendersMissing v = Renders v (codes "error") (error_view v.brand 404 (status_text 404))

  pub not_found-IsRecorded :
      (views : Views N E) (w : Writer)
      → RendersMissing views
      → IsUnsent w
      → IsRecorded (not_found N E views w)
  unfolding not_found
  not_found-IsRecorded views w page u = view-IsRecorded views _ _ _ page (
      write_header-IsRecorded 404 _ (λ h. omega (arith, h))
        (set_header-IsUnsent _ _ _ (set_no_store-IsUnsent w u)))

  pub handle_create_note_view-IsRecorded :
      (views : Views N E) (cfg : Config N) (public_origin : Bytes) (w : Writer)
      → IsUnsent w
      → IsRecorded (handle_create_note_view N E views cfg public_origin w)
  unfolding handle_create_note_view
  handle_create_note_view-IsRecorded views cfg public_origin w u = view-IsUnsent views _ _ w u

  pub handle_preview_note-IsRecorded :
      (views : Views N E) (id : Bytes) (w : Writer)
      → RendersMissing views
      → IsUnsent w
      → IsRecorded (handle_preview_note N E views id w)
  unfolding handle_preview_note
  handle_preview_note-IsRecorded views id w page u = elim (Option-cases (NoteId.parse id)) [
    | inl bad ↦ rw (bad, handle_preview_note) (not_found-IsRecorded views w page u)
    | inr (i, good) ↦ rw (good, handle_preview_note) (view-IsUnsent views _ _ w u)
  ]
