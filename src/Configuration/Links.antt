-- ===== src/Configuration/Links.antt =====
-- Every configured link is one that a browser may follow without running a script.
use one_time_note.Base.{
  ℕ, zero, suc, ◌+◌, ◌≤◌, ◌≡◌, ◌≢◌, ◌⊎◌, sym, subst, true, false, ◌||◌, some, List, [], ◌∷◌, length,
  ◌==◌, All, arith, Bool-cases, Option-cases, inl, inr,
}
use one_time_note.Base.Text.{Bytes, codes, bytes_eq, has_prefix}
use one_time_note.Net.{Net, Url}
use one_time_note.Configuration.{
  LegalLink, contains_space, parse_legal_link_url, link_title_env_name, link_url_env_name,
  links_from, parse_legal_links, max_configured_links,
}

module _ (N : Net) where
  -- An http or https URL with a host, or a path from the root that is not the start of a host.
  pub record IsSafeUrl (raw : Bytes) : Type 0 where
    pub u : Url
    pub parsed : N.parse_url raw ≡ some u
    pub no_space : contains_space N raw ≡ false
    pub kind :
        ((bytes_eq (N.to_lower u.scheme) (codes "http")
              || bytes_eq (N.to_lower u.scheme) (codes "https"))
            ≡ true
          × (length u.host ≢ 0))
        ⊎ ((length u.scheme ≡ 0)
            × (has_prefix raw (codes "/") ≡ true)
            × (has_prefix raw (codes "//") ≡ false))

  abbrev pub IsSafe : LegalLink N → Type 0
  IsSafe link = (length link.label ≢ 0) × IsSafeUrl link.url

  parse_legal_link_url-IsSafeUrl :
      (raw url : Bytes) → parse_legal_link_url N raw ≡ some url → (url ≡ raw) × IsSafeUrl raw
  unfolding parse_legal_link_url
  parse_legal_link_url-IsSafeUrl raw url h = elim (Bool-cases (contains_space N raw)) [
    | inl e ↦ absurd (ground (arith, e, h))
    | inr e ↦ elim (Option-cases (N.parse_url raw)) [
      | inl read ↦ absurd (ground (arith, e, read, h))
      | inr (u, read) ↦ elim (Bool-cases (length u.scheme == 0)) [
        | inl relative ↦
            let rest = rw (e, read, relative) at h in
            (
              ground (arith, rest),
              record {
                u = u;
                parsed = read;
                no_space = e;
                kind = inr (ground arith, ground (arith, rest), ground (arith, rest));
              },
            )
        | inr absolute ↦
            let rest = rw (e, read, absolute) at h in
            (
              ground (arith, rest),
              record {
                u = u;
                parsed = read;
                no_space = e;
                kind = inl (ground (arith, rest), λ p. ground (arith, rest, p));
              },
            )
      ]
    ]
  ]

  abbrev pub AreSafe : ℕ → List (LegalLink N) → Type 0
  AreSafe rounds links = (length links ≤ rounds) × All IsSafe links

  nil-AreSafe : (rounds : ℕ) → AreSafe rounds []
  nil-AreSafe rounds = (omega arith, tt)

  cons-AreSafe :
      (rounds : ℕ) (link : LegalLink N) (rest : List (LegalLink N))
      → IsSafe link
      → AreSafe rounds rest
      → AreSafe (suc rounds) (link ∷ rest)
  cons-AreSafe rounds link rest safe (few, all) = (omega arith, (safe, all))

  links_from-IsSafe :
      (getenv : Bytes → Bytes) (rounds index : ℕ) (links : List (LegalLink N))
      → links_from N getenv rounds index ≡ some links
      → AreSafe rounds links
  unfolding links_from
  links_from-IsSafe getenv zero index links h =
      let none_left : [] ≡ links = ground (arith, h) in
      subst (AreSafe zero) none_left (nil-AreSafe zero)
  links_from-IsSafe getenv (suc rounds) index links h =
      let title = N.trim_space (getenv (link_title_env_name N index)) in
      let raw_url = N.trim_space (getenv (link_url_env_name N index)) in
      elim (Bool-cases (length title == 0)) [
        | inl t ↦ elim (Bool-cases (length raw_url == 0)) [
          | inl u ↦
              let none_left : [] ≡ links = ground (arith, rw (t, u) at h) in
              subst (AreSafe (suc rounds)) none_left (nil-AreSafe (suc rounds))
          | inr u ↦ absurd (ground (arith, rw (t, u) at h))
        ]
        | inr t ↦ elim (Bool-cases (length raw_url == 0)) [
          | inl u ↦ absurd (ground (arith, rw (t, u) at h))
          | inr u ↦ elim (Option-cases (parse_legal_link_url N raw_url)) [
            | inl read ↦ absurd (ground (arith, rw (t, u, read) at h))
            | inr (url, read) ↦ elim (Option-cases (links_from N getenv rounds (index + 1))) [
              | inl later ↦ absurd (ground (arith, rw (t, u, read, later) at h))
              | inr (rest, later) ↦
                  let (same, safe) = parse_legal_link_url-IsSafeUrl raw_url url read in
                  let link : LegalLink N = record { label = title; url = url } in
                  let all_links : link ∷ rest ≡ links =
                    ground (arith, rw (t, u, read, later) at h) in
                  subst (AreSafe (suc rounds)) all_links (
                    cons-AreSafe rounds link rest
                      (λ p. ground (arith, t, p), subst IsSafeUrl (sym same) safe)
                      (links_from-IsSafe getenv rounds (index + 1) rest later))
            ]
          ]
        ]
      ]

  -- Where the links are accepted, they are five at most, and each has a label and a URL that is one of
  -- http or https with a host, or a path from the root that does not start with two slashes; none has
  -- white space.
  pub parse_legal_links-IsSafe :
      (getenv : Bytes → Bytes) (links : List (LegalLink N))
      → parse_legal_links N getenv ≡ some links
      → (length links ≤ max_configured_links N) × All IsSafe links
  unfolding parse_legal_links
  parse_legal_links-IsSafe getenv links h =
      links_from-IsSafe getenv (max_configured_links N) 1 links h
