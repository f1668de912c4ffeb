-- ===== src/Minimize/Maps.antt =====
-- What src/generic/soundcheck.ml uses of sets and maps (src/lib/treemap.ml), as lists of their
-- elements and bindings.
use cyclist.Base.{ℕ, Bool, Option, none, some, List, [], ◌∷◌, ◌==◌, if◌then◌else◌, ◌>>=◌}
use cyclist.Soundcheck.{AbstractProof, AbstractNode}

-- `fold f xs a`, in the order of the elements.
unfoldable pub fold {ℓ κ} : {A : Type ℓ} {S : Type κ} → (A → S → S) → List A → S → S
fold f [] s = s
fold f (x ∷ xs) s = fold f xs (f x s)

-- `Int.Map.iter` with a body that changes a state and may raise an exception.
unfoldable pub iter {ℓ} :
    {S : Type ℓ} → (ℕ → AbstractNode → S → Option S) → AbstractProof → S → Option S
iter f [] s = some s
iter f ((i, n) ∷ p) s = f i n s >>= iter f p

-- `Int.Map.remove`
unfoldable pub remove : ℕ → AbstractProof → AbstractProof
remove k [] = []
remove k ((i, n) ∷ p) = if k == i then remove k p else (i, n) ∷ remove k p

-- The first binding that passes the test.
unfoldable pub find_map : (ℕ → AbstractNode → Bool) → AbstractProof → Option (ℕ × AbstractNode)
find_map f [] = none
find_map f ((i, n) ∷ p) = if f i n then some (i, n) else find_map f p
