-- ===== src/Views/Reloading.antt =====
-- The pages of development, whose templates are parsed at every request, are those of production.
use one_time_note.Base.{
  ℕ, ◌≡◌, refl, sym, ap, subst, ◌∙◌, true, false, some, [], ◌∷◌, inl, inr, Option-cases,
}
use one_time_note.Base.Text.{Bytes, codes, bytes_eq}
use one_time_note.Base.Partial.{>>=-eq-some, eq-some}
use one_time_note.Configuration.Startup.{Brand, Config}
use one_time_note.Net.{Net}
use one_time_note.NoteId
use one_time_note.Web.{Writer, status_text}
use one_time_note.Views.{
  ViewModel, error_view, note_view, Engine, Views, parse, parse_all, page_names, named, new_views,
  find_template, view, error_header, error_page, error, not_found, create_view_model,
  handle_create_note_view, handle_preview_note,
}

module _ (N : Net) (E : Engine N) where
  -- Two sets of views over the same files, of which one has its templates and the other parses them.
  record AreAlike (cached fresh : Views N E) : Type 0 where
    fs : cached.fs ≡ fresh.fs
    version : cached.asset_version ≡ fresh.asset_version
    brand : cached.brand ≡ fresh.brand
    none_cached : fresh.templates ≡ []
    create : find_template N E (codes "create") cached.templates ≡ parse N E cached (codes "create")
    err : find_template N E (codes "error") cached.templates ≡ parse N E cached (codes "error")
    note : find_template N E (codes "note") cached.templates ≡ parse N E cached (codes "note")

  view_alike :
      (cached fresh : Views N E) (name : Bytes) (model : ViewModel N) (w : Writer)
      → find_template N E name cached.templates ≡ parse N E cached name
      → parse N E fresh name ≡ parse N E cached name
      → fresh.templates ≡ []
      → view N E cached name model w ≡ view N E fresh name model w
  unfolding view find_template
  view_alike cached fresh name model w found parsed none_cached =
      elim (Option-cases (parse N E cached name)) [
        | inl failed ↦ rw (found ∙ failed, none_cached, parsed ∙ failed, failed, view) refl
        | inr (t, read) ↦ rw (found ∙ read, none_cached, parsed ∙ read, view) refl
      ]

  parse_alike :
      (cached fresh : Views N E) (name : Bytes)
      → AreAlike cached fresh
      → parse N E fresh name ≡ parse N E cached name
  unfolding parse
  parse_alike cached fresh name a = rw (a.fs, a.version) refl

  new_views-AreAlike :
      (files : E.FileSystem) (version : Bytes) (brand : Brand N) (cached fresh : Views N E)
      → new_views N E files version false brand ≡ some cached
      → new_views N E files version true brand ≡ some fresh
      → AreAlike cached fresh
  unfolding new_views parse_all find_template bytes_eq parse
  new_views-AreAlike files version brand cached fresh h k =
      let base : Views N E = record {
        fs = files;
        asset_version = version;
        brand = named N E brand;
        templates = [];
        reload = false;
      } in
      let (templates, parsed, same) = >>=-eq-some (parse_all N E base (page_names N E)) _ h in
      let (create, e₁, h₁) = >>=-eq-some (parse N E base (codes "create")) _ parsed in
      let (later, h₂, same₁) =
        >>=-eq-some (parse_all N E base (codes "error" ∷ codes "note" ∷ [])) _ h₁ in
      let (err, e₂, h₃) = >>=-eq-some (parse N E base (codes "error")) _ h₂ in
      let (last, h₄, same₂) = >>=-eq-some (parse_all N E base (codes "note" ∷ [])) _ h₃ in
      let (note, e₃, same₃) = >>=-eq-some (parse N E base (codes "note")) _ h₄ in
      let all_parsed : (codes "create", create) ∷ (codes "error", err) ∷ (codes "note", note) ∷ []
          ≡ templates =
        cc (eq-some same₁, eq-some same₂, eq-some same₃) in
      let is_cached : record base {
        templates = (codes "create", create) ∷ (codes "error", err) ∷ (codes "note", note) ∷ [];
      }
          ≡ cached =
        ap (λ l. record base { templates = l }) all_parsed ∙ eq-some same in
      let is_fresh : record base { reload = true } ≡ fresh = eq-some k in
      subst (λ x. AreAlike x fresh) is_cached
        (subst (AreAlike _) is_fresh (record {
          fs = refl;
          version = refl;
          brand = refl;
          none_cached = refl;
          create = sym e₁;
          err = sym e₂;
          note = sym e₃;
        }))

  module _ (files : E.FileSystem) (version : Bytes) (brand : Brand N) (cached fresh : Views N E)
      (production : new_views N E files version false brand ≡ some cached)
      (development : new_views N E files version true brand ≡ some fresh) (cfg : Config N) where
    alike : AreAlike cached fresh
    alike = new_views-AreAlike files version brand cached fresh production development

    error_page_alike :
        (status : ℕ) (w : Writer) → error_page N E status cached w ≡ error_page N E status fresh w
    error_page_alike status w =
        view_alike cached fresh (codes "error") _ _ alike.err
          (parse_alike cached fresh (codes "error") alike) alike.none_cached
        ∙ ap
            (λ b.
              view N E fresh (codes "error") (error_view b status (status_text status))
                (error_header N E status w))
            alike.brand

    -- As long as the files of the templates stay what they were at the start, a server that parses them at
    -- every request answers every page as one that has parsed them once: the page to create a note, the
    -- page of a note for any text of an ID, and the pages of errors.
    pub new_views_alike :
        (public_origin id : Bytes) (w : Writer)
        → (handle_create_note_view N E cached cfg public_origin w
            ≡ handle_create_note_view N E fresh cfg public_origin w)
          × (handle_preview_note N E cached id w ≡ handle_preview_note N E fresh id w)
          × (not_found N E cached w ≡ not_found N E fresh w)
          × (error N E cached w ≡ error N E fresh w)
    unfolding handle_create_note_view handle_preview_note not_found error
    new_views_alike public_origin id w = (
      view_alike cached fresh (codes "create") (create_view_model N E cfg public_origin) w
          alike.create (parse_alike cached fresh (codes "create") alike) alike.none_cached,
      elim (Option-cases (NoteId.parse id)) [
        | inl bad ↦ rw (bad, handle_preview_note) (error_page_alike 404 w)
        | inr (i, good) ↦
            rw (good, handle_preview_note)
              (view_alike cached fresh (codes "note") (note_view cached.brand id) w alike.note
                  (parse_alike cached fresh (codes "note") alike) alike.none_cached
                ∙ ap (λ b. view N E fresh (codes "note") (note_view b id) w) alike.brand)
      ],
      error_page_alike 404 w,
      error_page_alike 500 w,
    )
