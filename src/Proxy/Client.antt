-- ===== src/Proxy/Client.antt =====
-- Which address of the forwarded chain is the client's.
use one_time_note.Base.{
  ◌≡◌, ◌↔◌, ◌⊎◌, refl, sym, ap, ◌∙◌, true, false, Option, none, some, List, [], ◌∷◌, ◌++◌, All,
  reverse, reverse-cons, arith, Bool-cases, inl, inr, if◌then◌else◌,
}
use one_time_note.Net.{Net}
use one_time_note.Proxy.{prefix_contains, first_untrusted, forwarded_client_ip}

module _ (N : Net) (trusted : List N.Prefix) where
  abbrev pub IsTrusted : N.Addr → Type 0
  IsTrusted addr = prefix_contains N trusted (N.unmap addr) ≡ true

  abbrev or_later : N.Addr → Option N.Addr → Option N.Addr
  or_later addr (some later) = some later
  or_later addr none =
      if prefix_contains N trusted (N.unmap addr) then none else some (N.unmap addr)

  first_untrusted-append :
      (l : List N.Addr) (addr : N.Addr)
      → first_untrusted N trusted (l ++ (addr ∷ [])) ≡ or_later addr (first_untrusted N trusted l)
  unfolding first_untrusted
  first_untrusted-append [] addr = refl
  first_untrusted-append (x ∷ l) addr = elim (Bool-cases (prefix_contains N trusted (N.unmap x))) [
    | inl e ↦ rw e (first_untrusted-append l addr)
    | inr e ↦ rw e refl
  ]

  forwarded_client_ip-cons :
      (addr : N.Addr) (chain : List N.Addr)
      → forwarded_client_ip N (addr ∷ chain) trusted
        ≡ or_later addr (forwarded_client_ip N chain trusted)
  unfolding forwarded_client_ip
  forwarded_client_ip-cons addr chain =
      ap (first_untrusted N trusted) (reverse-cons addr chain)
      ∙ first_untrusted-append (reverse chain) addr

  forwarded_client_ip-nil : forwarded_client_ip N [] trusted ≡ none
  unfolding forwarded_client_ip first_untrusted
  forwarded_client_ip-nil = refl

  or_later-eq-none :
      (x : N.Addr) (later : Option N.Addr) → or_later x later ≡ none → (later ≡ none) × IsTrusted x
  or_later-eq-none x (some a) h = cc
  or_later-eq-none x none h = (refl, ground arith)

  or_later-eq-some :
      (x addr : N.Addr) (later : Option N.Addr)
      → or_later x later ≡ some addr
      → (later ≡ some addr)
        ⊎ ((later ≡ none) × (addr ≡ N.unmap x) × (prefix_contains N trusted (N.unmap x) ≡ false))
  or_later-eq-some x addr (some a) h = inl h
  or_later-eq-some x addr none h = inr (refl, ground arith, ground arith)

  forwarded_client_ip-eq-none :
      (chain : List N.Addr) → forwarded_client_ip N chain trusted ≡ none → All IsTrusted chain
  forwarded_client_ip-eq-none [] h = tt
  forwarded_client_ip-eq-none (x ∷ chain) h =
      let (none_later, t) =
        or_later-eq-none x (forwarded_client_ip N chain trusted)
          (sym (forwarded_client_ip-cons x chain) ∙ h) in
      (t, forwarded_client_ip-eq-none chain none_later)

  forwarded_client_ip-All :
      (chain : List N.Addr) → All IsTrusted chain → forwarded_client_ip N chain trusted ≡ none
  forwarded_client_ip-All [] h = forwarded_client_ip-nil
  forwarded_client_ip-All (x ∷ chain) (t, h) =
      rw (forwarded_client_ip-cons x chain, forwarded_client_ip-All chain h, t) refl

  found_behind :
      (before : List N.Addr) (x : N.Addr) (after : List N.Addr)
      → prefix_contains N trusted (N.unmap x) ≡ false
      → All IsTrusted after
      → forwarded_client_ip N (before ++ (x ∷ after)) trusted ≡ some (N.unmap x)
  found_behind [] x after u h =
      rw (forwarded_client_ip-cons x after, forwarded_client_ip-All after h, u) refl
  found_behind (y ∷ before) x after u h =
      rw (forwarded_client_ip-cons y (before ++ (x ∷ after)), found_behind before x after u h) refl

  last_untrusted :
      (chain : List N.Addr) (addr : N.Addr)
      → forwarded_client_ip N chain trusted ≡ some addr
      → (before : List N.Addr) × (x : N.Addr) × (after : List N.Addr) × (chain
          ≡ before ++ (x ∷ after))
        × (addr ≡ N.unmap x)
        × (prefix_contains N trusted (N.unmap x) ≡ false)
        × All IsTrusted after
  last_untrusted [] addr h = cc (h, forwarded_client_ip-nil)
  last_untrusted (y ∷ chain) addr h =
      elim (or_later-eq-some y addr (forwarded_client_ip N chain trusted)
        (sym (forwarded_client_ip-cons y chain) ∙ h)) [
          | inl later ↦
              let (before, x, after, e, same, u, behind) = last_untrusted chain addr later in
              (y ∷ before, x, after, ap (◌∷◌ y) e, same, u, behind)
          | inr (none_later, same, u) ↦
              ([], y, chain, refl, same, u, forwarded_client_ip-eq-none chain none_later)
        ]

  -- The client's address is that of the last entry of the chain that is no trusted proxy: it is found
  -- exactly if there is an entry that is none and behind which all are, and it is that entry's.
  pub forwarded_client_ip_iff :
      (chain : List N.Addr) (addr : N.Addr)
      → (forwarded_client_ip N chain trusted ≡ some addr) ↔ (
          (before : List N.Addr) × (x : N.Addr) × (after : List N.Addr) × (chain
            ≡ before ++ (x ∷ after))
          × (addr ≡ N.unmap x)
          × (prefix_contains N trusted (N.unmap x) ≡ false)
          × All IsTrusted after)
  forwarded_client_ip_iff chain addr = (
    last_untrusted chain addr,
    λ (before, x, after, e, same, u, behind).
        ap (λ (l : List N.Addr). forwarded_client_ip N l trusted) e
        ∙ found_behind before x after u behind
        ∙ ap some (sym same),
  )

  -- Entries in front of a chain in which a client's address is found, which the client may have written,
  -- do not change it.
  pub forwarded_client_ip-append :
      (written chain : List N.Addr) (addr : N.Addr)
      → forwarded_client_ip N chain trusted ≡ some addr
      → forwarded_client_ip N (written ++ chain) trusted ≡ some addr
  forwarded_client_ip-append [] chain addr h = h
  forwarded_client_ip-append (x ∷ written) chain addr h =
      rw
        (
          forwarded_client_ip-cons x (written ++ chain),
          forwarded_client_ip-append written chain addr h,
        )
        refl
