-- ===== src/Checker.antt =====
-- The outer `check_proof` of src/generic/soundcheck.ml: the tests of `valid`, the shrinking, and
-- the cache of answers. `none` is a failed assertion.
pub mod Correct
use cyclist.Base.{
  ℕ, suc, Bool, true, false, Option, none, some, List, [], ◌∷◌, ◌>>=◌, ◌>>◌, assert, if◌then◌else◌,
  length,
}
use cyclist.Bdd.{BddLibrary}
use cyclist.Soundness.{SpotLibrary, Globals}
use cyclist.Soundcheck
use cyclist.Soundcheck.{AbstractProof, valid}
use cyclist.Minimize.{minimize_abs_proof}

-- `ccache`: the newest binding first
abbrev pub CheckCache : Type 0
CheckCache = List (AbstractProof × Bool)

-- `CheckCache.find`; `same` is the structural equality of OCaml, which may tell two balanced trees
-- with the same bindings apart.
unfoldable pub find_answer :
    (AbstractProof → AbstractProof → Bool) → AbstractProof → CheckCache → Option Bool
find_answer same p [] = none
find_answer same p ((q, r) ∷ cache) = if same p q then some r else find_answer same p cache

-- `Int.Map.is_empty`
abbrev pub is_empty : AbstractProof → Bool
is_empty [] = true
is_empty (x ∷ p) = false

module _ ⦃B : BddLibrary⦄ where
  -- The variables of soundness.c and `ccache`.
  pub record Checker : Type 0 where
    pub globals : Globals
    pub ccache : CheckCache

  -- What is done with the shrunk abstract proof.
  unfoldable pub check_shrunk :
      SpotLibrary
      → (ℕ → ℕ)
      → (AbstractProof → AbstractProof → Bool)
      → ℕ
      → AbstractProof
      → Checker
      → Option (Bool × Checker)
  check_shrunk spot ceil_log2 same init aprf c = if is_empty aprf then some (true, c) else (do
    assert (valid aprf init)
    elim (find_answer same aprf c.ccache) [
      | some r ↦ some (r, c)
      | none ↦ do
        ran ← Soundcheck.check_proof spot ceil_log2 init aprf c.globals
        some (ran.0, record { globals = ran.1; ccache = (aprf, ran.0) ∷ c.ccache })
    ])

  -- The loops of the shrinking run once more than there are nodes.
  unfoldable pub check_proof :
      SpotLibrary
      → (ℕ → ℕ)
      → (AbstractProof → AbstractProof → Bool)
      → ℕ
      → AbstractProof
      → Checker
      → Option (Bool × Checker)
  check_proof spot ceil_log2 same init prf c = if is_empty prf then some (true, c) else (do
    assert (valid prf init)
    aprf ← minimize_abs_proof (suc (length prf)) init prf
    check_shrunk spot ceil_log2 same init aprf c)
