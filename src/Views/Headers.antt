-- ===== src/Views/Headers.antt =====
-- The headers that the pages keep.
use one_time_note.Base.{[], ◌∷◌, inl, inr, Option-cases}
use one_time_note.Base.Text.{Bytes}
use one_time_note.Configuration.Startup.{Config}
use one_time_note.Net.{Net}
use one_time_note.NoteId
use one_time_note.Web.{Writer}
use one_time_note.Web.Keeping.{
  IsKept, Has, del_header-Has, write_header-Has, write-Has, set_no_store-Has, typed-Has,
}
use one_time_note.Views.{
  ViewModel, Engine, Views, parse, find_template, internal_server_error, copy, execute, view,
  not_found, handle_create_note_view, handle_preview_note,
}

module _ (N : Net) (E : Engine N) (k v : Bytes) (kept : IsKept k) where
  internal_server_error-Has : (w : Writer) → Has k v w → Has k v (internal_server_error N E w)
  unfolding internal_server_error
  internal_server_error-Has w h =
      let cleared = del_header-Has k v _ _ kept.etag (
        del_header-Has k v _ _ kept.content_length
          (del_header-Has k v _ w kept.content_encoding h)) in
      write-Has k v _ _
        (write_header-Has k v 500 _ (typed-Has k v kept _ _ (set_no_store-Has k v kept _ cleared)))

  copy-Has : (page : Bytes) (w : Writer) → Has k v w → Has k v (copy N E page w)
  copy-Has [] w h = h
  copy-Has (c ∷ s) w h = write-Has k v _ w h

  execute-Has :
      (t : E.Template) (model : ViewModel N) (w : Writer)
      → Has k v w
      → Has k v (execute N E t model w)
  unfolding execute
  execute-Has t model w h = elim (Option-cases (E.execute t model)) [
    | inl failed ↦ rw (failed, execute) (internal_server_error-Has w h)
    | inr (page, rendered) ↦
        rw (rendered, execute)
          (copy-Has page _ (set_no_store-Has k v kept _ (typed-Has k v kept _ w h)))
  ]

  view-Has :
      (views : Views N E) (name : Bytes) (model : ViewModel N) (w : Writer)
      → Has k v w
      → Has k v (view N E views name model w)
  unfolding view
  view-Has views name model w h = elim (Option-cases (find_template N E name views.templates)) [
    | inr (t, cached) ↦ rw (cached, view) (execute-Has t model w h)
    | inl missing ↦ elim (Option-cases (parse N E views name)) [
      | inl failed ↦ rw (missing, failed, view) (internal_server_error-Has w h)
      | inr (t, parsed) ↦ rw (missing, parsed, view) (execute-Has t model w h)
    ]
  ]

  pub not_found-Has : (views : Views N E) (w : Writer) → Has k v w → Has k v (not_found N E views w)
  unfolding not_found
  not_found-Has views w h =
      view-Has views _ _ _
        (write_header-Has k v 404 _ (typed-Has k v kept _ _ (set_no_store-Has k v kept w h)))

  pub handle_create_note_view-Has :
      (views : Views N E) (cfg : Config N) (public_origin : Bytes) (w : Writer)
      → Has k v w
      → Has k v (handle_create_note_view N E views cfg public_origin w)
  unfolding handle_create_note_view
  handle_create_note_view-Has views cfg public_origin w h = view-Has views _ _ w h

  pub handle_preview_note-Has :
      (views : Views N E) (id : Bytes) (w : Writer)
      → Has k v w
      → Has k v (handle_preview_note N E views id w)
  unfolding handle_preview_note
  handle_preview_note-Has views id w h = elim (Option-cases (NoteId.parse id)) [
    | inl bad ↦ rw (bad, handle_preview_note) (not_found-Has views w h)
    | inr (i, good) ↦ rw (good, handle_preview_note) (view-Has views _ _ w h)
  ]
