-- ===== src/ProofTree/Maps.antt =====
-- What src/generic/proof.ml uses of maps and lists: the greatest key, and `range` of
-- src/lib/blist.ml.
use cyclist.Base.{
  ℕ, suc, max, Bool, true, false, Option, none, some, List, [], ◌∷◌, ◌>>=◌, if◌then◌else◌,
}

-- `fst (max_binding m)`; `none` is `Not_found`.
unfoldable pub max_index {ℓ} : {V : Type ℓ} → List (ℕ × V) → Option ℕ
max_index [] = none
max_index ((i, v) ∷ m) = elim (max_index m) [ none ↦ some i | some k ↦ some (max i k) ]

-- As many numbers from `n` on as the list has elements.
unfoldable pub range {ℓ} : {A : Type ℓ} → ℕ → List A → List ℕ
range n [] = []
range n (x ∷ xs) = n ∷ range (suc n) xs

-- `for_all` with a test that may raise an exception; it stops at the first element that fails.
unfoldable pub all_true {ℓ} : {A : Type ℓ} → (A → Option Bool) → List A → Option Bool
all_true f [] = some true
all_true f (x ∷ xs) = f x >>= λ b. if b then all_true f xs else some false
