-- ===== src/Example/Paths.antt =====
-- A mux that splits a path at its slashes, and redirects one that does not start with a slash.
use one_time_note.Base.{
  ℕ, ◌≡◌, ◌⊎◌, refl, ap, subst, ◌∙◌, true, List, [], ◌∷◌, ◌++◌, ◌==◌, arith, inl, inr, Bool-cases,
  if◌then◌else◌,
}
use one_time_note.Base.Text.{Bytes, has_prefix, split_on}
use one_time_note.Application.Routing.{Mux}

abbrev pub segments : (method path : Bytes) → List Bytes ⊎ ℕ
segments method [] = inr 307
segments method (c ∷ s) = if c == b'/' then inl (split_on b'/' s) else inr 307

has_prefix_of_split :
    (s a b : Bytes) (rest : List Bytes)
    → split_on b'/' s ≡ a ∷ (b ∷ rest)
    → has_prefix s (a ++ (b'/' ∷ [])) ≡ true
unfolding split_on has_prefix
has_prefix_of_split [] a b rest h = absurd (cc h)
has_prefix_of_split (c ∷ s) a b rest h = elim (Bool-cases (c == b'/')) [
  | inl slash ↦
      let empty : [] ≡ a = cc (rw (slash, split_on) at h) in
      subst (λ x. has_prefix (c ∷ s) (x ++ (b'/' ∷ [])) ≡ true) empty (rw slash refl)
  | inr other ↦
      by_parts (λ p e. has_prefix_of_split s p b rest e) (split_on b'/' s) refl
        (rw (other, split_on) at h)
]
  where
    by_parts :
        ((p : Bytes) → split_on b'/' s ≡ p ∷ (b ∷ rest) → has_prefix s (p ++ (b'/' ∷ [])) ≡ true)
        → (parts : List Bytes) → split_on b'/' s ≡ parts
        → (elim parts [ [] ↦ (c ∷ []) ∷ [] | p ∷ ps ↦ (c ∷ p) ∷ ps ]) ≡ a ∷ (b ∷ rest)
        → has_prefix (c ∷ s) (a ++ (b'/' ∷ [])) ≡ true
    by_parts prefix [] e k = absurd (cc k)
    by_parts prefix (p ∷ ps) e k =
        let later = prefix p (e ∙ ap (λ (x : List Bytes). p ∷ x) (cc k)) in
        let first : c ∷ p ≡ a = cc k in
        subst (λ x. has_prefix (c ∷ s) (x ++ (b'/' ∷ [])) ≡ true) first (ground (arith, later))

pub path_prefix :
    (method path a b : Bytes) (rest : List Bytes)
    → segments method path ≡ inl (a ∷ (b ∷ rest))
    → has_prefix path (b'/' ∷ (a ++ (b'/' ∷ []))) ≡ true
unfolding has_prefix
path_prefix method [] a b rest h = absurd (cc h)
path_prefix method (c ∷ s) a b rest h = elim (Bool-cases (c == b'/')) [
  | inl slash ↦
      let split : split_on b'/' s ≡ a ∷ (b ∷ rest) = cc (rw slash at h) in
      rw slash (has_prefix_of_split s a b rest split)
  | inr other ↦ absurd (cc (rw other at h))
]

abbrev pub mux : Mux
mux = record { segments = segments; path_prefix = path_prefix }
