-- ===== src/Views.antt =====
-- views.go, and the handlers of handlers.go that show a page. `html/template` is a parameter.
pub mod Reloading
pub mod Headers
pub mod Statuses
use one_time_note.Base.{
  ℕ, Bool, true, false, Option, none, some, List, [], ◌∷◌, ◌++◌, ◌==◌, length, if◌then◌else◌,
}
use one_time_note.Base.Text.{Bytes, codes, bytes_eq}
use one_time_note.Base.Int.{ℤ}
use one_time_note.Base.Partial.{◌>>=◌}
use one_time_note.Configuration.Startup.{Brand, Config}
use one_time_note.Net.{Net}
use one_time_note.NoteId
use one_time_note.Web.{
  Writer, text_chunk, set_header, del_header, write_header, write, set_no_store, status_text,
  plain_text,
}

module _ (N : Net) where
  -- `ErrorViewModel`, `CreateViewModel` and `NoteViewModel`.
  pub data ViewModel : Type 0 where
    error_view : Brand N → (status_code : ℕ) (status_text : Bytes) → ViewModel
    create_view : Brand N → (max_note_size : ℤ) (public_origin : Bytes) → ViewModel
    note_view : Brand N → (id : Bytes) → ViewModel

  -- `template.New(name).Funcs(…).ParseFS(fs, files…)` with the function `assetPath`, and `Execute` into a
  -- buffer.
  pub record Engine : Type 1 where
    pub FileSystem : Type 0
    pub Template : Type 0
    pub parse_fs :
        (asset_path : Bytes → Bytes) → FileSystem → (files : List Bytes) → Option Template
    pub execute : Template → ViewModel → Option Bytes

module _ (N : Net) (E : Engine N) where
  pub record Views : Type 0 where
    pub fs : E.FileSystem
    pub asset_version : Bytes
    pub brand : Brand N
    pub templates : List (Bytes × E.Template)
    pub reload : Bool

  -- `strings.TrimLeft(name, "/")`
  unfoldable pub trim_slashes : Bytes → Bytes
  trim_slashes [] = []
  trim_slashes (c ∷ s) = let rest = trim_slashes s in if c == b'/' then rest else c ∷ s

  unfoldable pub asset_path : (asset_version name : Bytes) → Bytes
  asset_path asset_version name =
      codes "/static/" ++ (asset_version ++ (codes "/" ++ trim_slashes name))

  unfoldable pub parse : Views → Bytes → Option E.Template
  parse v name =
      E.parse_fs (asset_path v.asset_version) v.fs
        (codes "layout.gohtml" ∷ (name ++ codes ".gohtml") ∷ [])

  unfoldable pub parse_all : Views → List Bytes → Option (List (Bytes × E.Template))
  parse_all v [] = some []
  parse_all v (name ∷ names) = do
    t ← parse v name
    templates ← parse_all v names
    some ((name, t) ∷ templates)

  abbrev pub named : Brand N → Brand N
  named brand =
      if length brand.display_name == 0
      then record brand { display_name = codes "One Time Note" }
      else brand

  abbrev pub page_names : List Bytes
  page_names = codes "create" ∷ codes "error" ∷ codes "note" ∷ []

  unfoldable pub new_views :
      E.FileSystem → (asset_version : Bytes) (reload : Bool) → Brand N → Option Views
  new_views fs asset_version reload brand =
      let views : Views = record {
        fs = fs;
        asset_version = asset_version;
        brand = named brand;
        templates = [];
        reload = reload;
      } in
      if reload then some views else (do
        templates ← parse_all views page_names
        some (record views { templates = templates }))

  unfoldable pub find_template : Bytes → List (Bytes × E.Template) → Option E.Template
  find_template name [] = none
  find_template name ((n, t) ∷ templates) =
      let later = find_template name templates in if bytes_eq n name then some t else later

  unfoldable pub internal_server_error : Writer → Writer
  internal_server_error w =
      let cleared =
        del_header (codes "ETag")
          (del_header (codes "Content-Length") (del_header (codes "Content-Encoding") w)) in
      write (text_chunk (status_text 500 ++ (10 ∷ [])))
        (write_header 500 (set_header (codes "Content-Type") plain_text (set_no_store cleared)))

  -- A page that is not empty is written, whole.
  abbrev pub copy : Bytes → Writer → Writer
  copy [] w = w
  copy (c ∷ s) w = write (text_chunk (c ∷ s)) w

  abbrev pub html : Bytes
  html = codes "text/html; charset=utf-8"

  unfoldable pub execute : E.Template → ViewModel N → Writer → Writer
  execute t model w = elim (E.execute t model) [
    | none ↦ internal_server_error w
    | some buffer ↦ copy buffer (set_no_store (set_header (codes "Content-Type") html w))
  ]

  unfoldable pub view : Views → Bytes → ViewModel N → Writer → Writer
  view v name model w = elim (find_template name v.templates) [
    | some t ↦ execute t model w
    | none ↦ elim (parse v name) [ none ↦ internal_server_error w | some t ↦ execute t model w ]
  ]

  abbrev pub error_header : ℕ → Writer → Writer
  error_header status w =
      write_header status (set_header (codes "Content-Type") html (set_no_store w))

  abbrev pub error_page : ℕ → Views → Writer → Writer
  error_page status v w =
      view v (codes "error") (error_view v.brand status (status_text status))
        (error_header status w)

  unfoldable pub error : Views → Writer → Writer
  error v w = error_page 500 v w

  unfoldable pub not_found : Views → Writer → Writer
  not_found v w = error_page 404 v w

  unfoldable pub create_view_model : Config N → (public_origin : Bytes) → ViewModel N
  create_view_model cfg public_origin = create_view cfg.brand cfg.max_note_size public_origin

  unfoldable pub handle_create_note_view :
      Views → Config N → (public_origin : Bytes) → Writer → Writer
  handle_create_note_view v cfg public_origin w =
      view v (codes "create") (create_view_model cfg public_origin) w

  unfoldable pub handle_preview_note : Views → (id : Bytes) → Writer → Writer
  handle_preview_note v id w = elim (NoteId.parse id) [
    | none ↦ not_found v w
    | some _ ↦ view v (codes "note") (note_view v.brand id) w
  ]
