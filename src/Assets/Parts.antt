-- ===== src/Assets/Parts.antt =====
-- The parts of an asset's name between its slashes, and what the handler's guard finds of them.
use one_time_note.Base.{
  ℕ, suc, ◌-◌, ◌≤◌, ◌≡◌, ◌⊎◌, refl, sym, ap, ◌∙◌, subst, Bool, true, false, ◌||◌, ◌==◌, List, [],
  ◌∷◌, ◌++◌, append_assoc, reverse, reverse-cons, Bool-cases, inl, inr, arith, length,
  if◌then◌else◌, ==_iff,
}
use one_time_note.Base.Text.{Bytes, codes, bytes_eq, eq_of_bytes_eq, has_prefix, split_on}
use one_time_note.Configuration.{has_suffix}
use one_time_note.Web.{contains_text}
use one_time_note.Assets.{join, clean_onto, is_refused_asset}

unfoldable pub has_parent : List Bytes → Bool
has_parent [] = false
has_parent (part ∷ parts) =
    let later = has_parent parts in if bytes_eq part (codes "..") then true else later

-- Without the parts that name no directory and no file.
unfoldable pub named_parts : List Bytes → List Bytes
named_parts [] = []
named_parts (part ∷ parts) =
    let later = named_parts parts in
    if length part == 0 || bytes_eq part (codes ".") then later else part ∷ later

join-cons_cons : (c : ℕ) (p : Bytes) (ps : List Bytes) → join ((c ∷ p) ∷ ps) ≡ c ∷ join (p ∷ ps)
join-cons_cons c p [] = refl
join-cons_cons c p (q ∷ ps) = refl

split_on-cons : (sep : ℕ) (s : Bytes) → (p : Bytes) × (ps : List Bytes) × (split_on sep s ≡ p ∷ ps)
unfolding split_on
split_on-cons sep [] = ([], [], refl)
split_on-cons sep (c ∷ s) =
    let (p, ps, e) = split_on-cons sep s in
    elim (Bool-cases (c == sep)) [
      | inl at ↦ ([], p ∷ ps, rw (at, e) refl)
      | inr off ↦ (c ∷ p, ps, rw (off, e) refl)
    ]

pub join-split_on : (s : Bytes) → join (split_on b'/' s) ≡ s
unfolding split_on
join-split_on [] = refl
join-split_on (c ∷ s) =
    let (p, ps, e) = split_on-cons b'/' s in
    let later : join (p ∷ ps) ≡ s = ap join (sym e) ∙ join-split_on s in
    elim (Bool-cases (c == b'/')) [
      | inl slash ↦ rw (slash, e) (cc (later, (==_iff c b'/').0 slash))
      | inr other ↦ rw (other, e) (join-cons_cons c p ps ∙ ap (◌∷◌ c) later)
    ]

contains_text-append : (t a s : Bytes) → contains_text t s ≡ true → contains_text t (a ++ s) ≡ true
unfolding contains_text
contains_text-append t [] s h = h
contains_text-append t (c ∷ a) s h = ground (arith, contains_text-append t a s h)

has_suffix-cons : (c : ℕ) (s p : Bytes) → has_suffix s p ≡ true → has_suffix (c ∷ s) p ≡ true
unfolding has_suffix
has_suffix-cons c s p h =
    let fits : length p ≤ length s = ground arith in
    let e : suc (length s) - length p ≡ suc (length s - length p) = omega arith in
    rw e (ground (arith, fits))

has_suffix-append : (a s p : Bytes) → has_suffix s p ≡ true → has_suffix (a ++ s) p ≡ true
has_suffix-append [] s p h = h
has_suffix-append (c ∷ a) s p h = has_suffix-cons c (a ++ s) p (has_suffix-append a s p h)

-- A parent among the later parts shows in the name, with a slash before it.
parent_shows :
    (q : Bytes) (qs : List Bytes)
    → has_parent (q ∷ qs) ≡ true
    → (contains_text (codes "/../") (b'/' ∷ join (q ∷ qs)) ≡ true)
      ⊎ (has_suffix (b'/' ∷ join (q ∷ qs)) (codes "/..") ≡ true)
unfolding has_parent contains_text has_suffix has_prefix bytes_eq
parent_shows q [] h =
    let is_parent : q ≡ codes ".." = eq_of_bytes_eq q _ (ground arith) in
    inr (subst (λ x. has_suffix (b'/' ∷ x) (codes "/..") ≡ true) (sym is_parent) refl)
parent_shows q (r ∷ rs) h = elim (Bool-cases (bytes_eq q (codes ".."))) [
  | inl e ↦ inl (
      subst (λ x. contains_text (codes "/../") (b'/' ∷ (x ++ (b'/' ∷ join (r ∷ rs)))) ≡ true)
        (sym (eq_of_bytes_eq q _ e)) refl)
  | inr e ↦ elim (parent_shows r rs (rw (e, has_parent) at h)) [
    | inl found ↦ inl (contains_text-append (codes "/../") (b'/' ∷ q) (b'/' ∷ join (r ∷ rs)) found)
    | inr found ↦ inr (has_suffix-append (b'/' ∷ q) (b'/' ∷ join (r ∷ rs)) (codes "/..") found)
  ]
]

refused-contains_text :
    (name : Bytes) → contains_text (codes "/../") name ≡ true → is_refused_asset name ≡ true
unfolding is_refused_asset
refused-contains_text name h = ground (arith, h)

-- A part `..` makes the guard refuse the name, but for a last one behind a slash.
refused-has_parent :
    (p : Bytes) (ps : List Bytes)
    → has_parent (p ∷ ps) ≡ true
    → (is_refused_asset (join (p ∷ ps)) ≡ true) ⊎ (has_suffix (join (p ∷ ps)) (codes "/..") ≡ true)
unfolding has_parent is_refused_asset bytes_eq has_prefix
refused-has_parent p [] h =
    let is_parent : bytes_eq p (codes "..") ≡ true = ground arith in
    inl
      (subst (λ x. is_refused_asset x ≡ true) (sym (eq_of_bytes_eq p (codes "..") is_parent)) refl)
refused-has_parent p (q ∷ qs) h = elim (Bool-cases (bytes_eq p (codes ".."))) [
  | inl e ↦ inl (
      subst (λ x. is_refused_asset (x ++ (b'/' ∷ join (q ∷ qs))) ≡ true)
        (sym (eq_of_bytes_eq p (codes "..") e)) (ground arith))
  | inr e ↦ elim (parent_shows q qs (rw (e, has_parent) at h)) [
    | inl found ↦ inl (
        refused-contains_text (p ++ (b'/' ∷ join (q ∷ qs)))
          (contains_text-append (codes "/../") p (b'/' ∷ join (q ∷ qs)) found))
    | inr found ↦ inr (has_suffix-append p (b'/' ∷ join (q ∷ qs)) (codes "/..") found)
  ]
]

-- A name that the guard lets through and that does not end in `/..` has no part `..`.
pub has_parent-split_on :
    (name : Bytes)
    → is_refused_asset name ≡ false
    → has_suffix name (codes "/..") ≡ false
    → has_parent (split_on b'/' name) ≡ false
has_parent-split_on name let_through no_suffix =
    let (p, ps, e) = split_on-cons b'/' name in
    let whole : join (p ∷ ps) ≡ name = ap join (sym e) ∙ join-split_on name in
    elim (Bool-cases (has_parent (split_on b'/' name))) [
      | inr none_there ↦ none_there
      | inl there ↦ elim (refused-has_parent p ps (ap has_parent (sym e) ∙ there)) [
        | inl refused ↦ cc (ap is_refused_asset whole, refused, let_through)
        | inr suffix ↦ cc (ap (λ x. has_suffix x (codes "/..")) whole, suffix, no_suffix)
      ]
    ]

-- Without a part `..`, cleaning leaves the parts that name something, in their order.
pub clean_onto-named_parts :
    (rooted : Bool) (kept parts : List Bytes)
    → has_parent parts ≡ false
    → clean_onto rooted kept parts ≡ reverse (named_parts parts) ++ kept
unfolding clean_onto has_parent named_parts
clean_onto-named_parts rooted kept [] h = refl
clean_onto-named_parts rooted kept (part ∷ parts) h =
    let no_parent : bytes_eq part (codes "..") ≡ false = ground arith in
    let later : has_parent parts ≡ false = ground arith in
    elim (Bool-cases (length part == 0 || bytes_eq part (codes "."))) [
      | inl skipped ↦ rw skipped (clean_onto-named_parts rooted kept parts later)
      | inr named ↦
          rw (named, no_parent)
            (clean_onto-named_parts rooted (part ∷ kept) parts later
              ∙ sym (append_assoc (reverse (named_parts parts)) (part ∷ []) kept)
              ∙ ap (λ x. x ++ kept) (sym (reverse-cons part (named_parts parts))))
    ]
