-- ===== src/Minimize/Good.antt =====
-- The abstract proofs that the shrinking of src/generic/soundcheck.ml is meant for.
use cyclist.Base.{ℕ, Memᴰ, ◌≡◌, ◌⊎◌}
use cyclist.Soundcheck.Condition.{IsAbstractPath}
use cyclist.Soundcheck.{AbstractProof, AbstractNode}
use cyclist.Soundcheck.Ready.{IsMap}
use cyclist.Soundcheck.Valid.{IsClosed}
use cyclist.Minimize.Premises.{DistinctChildren}

-- Each number is bound once, the premises of a node are different nodes, and the tests of `valid`
-- hold.
pub record IsGood (p : AbstractProof) (init : ℕ) : Type 0 where
  pub is_map : IsMap p
  pub distinct : (i : ℕ) (n : AbstractNode) → Memᴰ (i, n) p → DistinctChildren n.subg
  pub closed : IsClosed p init

-- `remove_dead_nodes` spares the node 0 only. Any other initial node is kept where an infinite
-- path starts from it.
abbrev pub IsKept : AbstractProof → ℕ → Type 0
IsKept p init = (init ≡ 0) ⊎ ((path : ℕ → ℕ) × IsAbstractPath p init path)
