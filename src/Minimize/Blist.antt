-- ===== src/Minimize/Blist.antt =====
-- What src/generic/soundcheck.ml uses of lists (src/lib/blist.ml).
use cyclist.Base.{
  ℕ, zero, suc, Bool, false, ◌||◌, Option, none, some, List, [], ◌∷◌, ◌==◌, if◌then◌else◌, ◌>>=◌,
}

unfoldable pub exists {ℓ} : {A : Type ℓ} → (A → Bool) → List A → Bool
exists p [] = false
exists p (x ∷ xs) = p x || exists p xs

-- `aux` of `find_index`; `none` is `Not_found`.
unfoldable pub find_from {ℓ} : {A : Type ℓ} → (A → Bool) → ℕ → List A → Option ℕ
find_from p n [] = none
find_from p n (x ∷ xs) = if p x then some n else find_from p (suc n) xs

unfoldable pub find_index {ℓ} : {A : Type ℓ} → (A → Bool) → List A → Option ℕ
unfolding find_from
find_index p xs = find_from p 0 xs

unfoldable pub remove_nth {ℓ} : {A : Type ℓ} → ℕ → List A → Option (List A)
remove_nth n [] = none
remove_nth zero (y ∷ ys) = some ys
remove_nth (suc n) (y ∷ ys) = remove_nth n ys >>= λ r. some (y ∷ r)

-- `mapi` with the function of `replace_nth`, from the index `m`.
unfoldable pub replace_from {ℓ} : {A : Type ℓ} → A → ℕ → ℕ → List A → List A
replace_from z n m [] = []
replace_from z n m (y ∷ ys) = (if n == m then z else y) ∷ replace_from z n (suc m) ys

-- The index is never negative.
unfoldable pub replace_nth {ℓ} : {A : Type ℓ} → A → ℕ → List A → List A
unfolding replace_from
replace_nth z n xs = replace_from z n 0 xs

-- `List.nth`
unfoldable pub nth {ℓ} : {A : Type ℓ} → List A → ℕ → Option A
nth [] n = none
nth (x ∷ xs) zero = some x
nth (x ∷ xs) (suc n) = nth xs n
