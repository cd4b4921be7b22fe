-- ===== src/Concurrent/Numbering.antt =====
-- The calls by their numbers, when one of them has had a turn.
use one_time_note.Base.{ℕ, ◌==◌, ==_iff, ◌≡◌, ◌⊎◌, inl, inr, Bool, true, Bool-cases, arith}
use mathlib.Core.Path.{fun_ext}
use one_time_note.Concurrent.{Call, assign}

module _ (calls : ℕ → Call) (i : ℕ) (c : Call) where
  pub assign-eq : assign calls i c i ≡ c
  assign-eq = ground arith

  pub assign_other : (j : ℕ) → (i ≡ j → ⊥) → assign calls i c j ≡ calls j
  assign_other j n = ground arith

  pub assign-cases : (j : ℕ) → ((i ≡ j) × (assign calls i c j ≡ c)) ⊎ (assign calls i c j ≡ calls j)
  assign-cases j = elim (Bool-cases (i == j)) [
    | inl e ↦ inl ((==_iff i j).0 e, rw e)
    | inr e ↦ inr (rw e)
  ]

  pub assign_same : c ≡ calls i → assign calls i c ≡ calls
  assign_same e = fun_ext (λ j. ground arith)

  module _ (test : Call → Bool) where
    pub all-assign :
        (b : Bool)
        → ((j : ℕ) → test (calls j) ≡ b)
        → test c ≡ b
        → (j : ℕ) → test (assign calls i c j) ≡ b
    all-assign b all new j = ground (arith, all j)

    pub alone-assign :
        (k : ℕ)
        → ((j : ℕ) → test (calls j) ≡ true → j ≡ k)
        → (test c ≡ true → i ≡ k)
        → (j : ℕ) → test (assign calls i c j) ≡ true
        → j ≡ k
    alone-assign k alone new j h = ground (arith, alone j)
