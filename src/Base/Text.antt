-- ===== src/Base/Text.antt =====
-- Go's strings and byte slices: lists of numbers below 256, with the tests of the packages
-- `strings`, `bytes` and `crypto/subtle` that the program uses.
use Prim.Native.Nat.{ℕ, ◌<◌}
use Prim.Native.Char.{code}
use Prim.Native.String.{String}
use mathlib.Core.Path.{◌≡◌, refl}
use mathlib.Core.Logic.{◌≢◌, inl, inr}
use mathlib.Core.Bool.{Bool, true, false, ◌&&◌}
use mathlib.Core.Option.{Option, none, some}
use mathlib.Core.List.{List, [], ◌∷◌, ◌++◌}
use native.Mathlib.Omega.{arith}
use one_time_note.Base.Tests.{◌==◌, Option-cases, if◌then◌else◌}
use one_time_note.Base.Lists.{All}

abbrev pub Bytes : Type 0
Bytes = List ℕ

abbrev pub IsBytes : Bytes → Type 0
IsBytes = All (λ b. b < 256)

-- The code points of a literal, which are its bytes when the text is ASCII.
abbrev pub codes : String → Bytes
codes String.[] = []
codes (String.◌∷◌ c s) = code c ∷ codes s

-- `==` on strings, `hmac.Equal` and `subtle.ConstantTimeCompare(a, b) == 1`.
unfoldable pub bytes_eq : Bytes → Bytes → Bool
bytes_eq [] [] = true
bytes_eq [] (y ∷ ys) = false
bytes_eq (x ∷ xs) [] = false
bytes_eq (x ∷ xs) (y ∷ ys) = x == y && bytes_eq xs ys

pub eq_of_bytes_eq : (a b : Bytes) → bytes_eq a b ≡ true → a ≡ b
unfolding bytes_eq
eq_of_bytes_eq [] [] h = refl
eq_of_bytes_eq [] (y ∷ ys) h = cc
eq_of_bytes_eq (x ∷ xs) [] h = cc
eq_of_bytes_eq (x ∷ xs) (y ∷ ys) h = ground (arith, eq_of_bytes_eq xs ys)

pub bytes_eq_refl : (a : Bytes) → bytes_eq a a ≡ true
unfolding bytes_eq
bytes_eq_refl [] = refl
bytes_eq_refl (x ∷ xs) = ground (arith, bytes_eq_refl xs)

pub bytes_eq_iff : (a b : Bytes) → (bytes_eq a b ≡ true → a ≡ b) × (a ≡ b → bytes_eq a b ≡ true)
bytes_eq_iff a b = (eq_of_bytes_eq a b, λ p. rw p (bytes_eq_refl b))

-- `strings.HasPrefix(s, p)`
unfoldable pub has_prefix : Bytes → Bytes → Bool
has_prefix s [] = true
has_prefix [] (c ∷ p) = false
has_prefix (d ∷ s) (c ∷ p) = d == c && has_prefix s p

-- `bytes.Cut(s, sep)` for a separator of one byte: what stands before the first `sep` and after it.
unfoldable pub cut : Bytes → ℕ → Option (Bytes × Bytes)
cut [] sep = none
cut (c ∷ s) sep =
    let rest = cut s sep in
    if c == sep
    then some ([], s)
    else elim rest [ none ↦ none | some (before, after) ↦ some (c ∷ before, after) ]

-- `strings.Split(s, sep)` for a separator of one byte: the parts between the separators, one at least.
unfoldable pub split_on : ℕ → Bytes → List Bytes
split_on sep [] = [] ∷ []
split_on sep (c ∷ s) =
    let parts = split_on sep s in
    if c == sep then [] ∷ parts else elim parts [ [] ↦ (c ∷ []) ∷ [] | p ∷ ps ↦ (c ∷ p) ∷ ps ]

abbrev pub Lacks : ℕ → Bytes → Type 0
Lacks b = All (λ c. c ≢ b)

pub cut-append_sep : (p s : Bytes) (sep : ℕ) → Lacks sep p → cut (p ++ sep ∷ s) sep ≡ some (p, s)
unfolding cut
cut-append_sep [] s sep h = ground arith
cut-append_sep (c ∷ p) s sep h = ground (arith, cut-append_sep p s sep)

pub append-cut :
    (s before after : Bytes) (sep : ℕ)
    → cut s sep ≡ some (before, after)
    → s ≡ before ++ sep ∷ after
unfolding cut
append-cut [] before after sep h = cc
append-cut (c ∷ s) before after sep h = elim (Option-cases (cut s sep)) [
  | inl e ↦ ground (arith, e)
  | inr ((a, b), e) ↦ ground (arith, e, append-cut s a b sep e)
]

-- The value of an optional byte string, and whether one is there.
abbrev pub is_some {ℓ} : {A : Type ℓ} → Option A → Bool
is_some none = false
is_some (some a) = true
