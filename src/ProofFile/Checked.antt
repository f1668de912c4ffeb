-- ===== src/ProofFile/Checked.antt =====
-- The check of the lines that are read (src/generic/checkproof.ml).
use cyclist.Base.{ℕ, suc, List, Memᴰ, ◌≡◌, ◌⊎◌}
use cyclist.Checker.{Checker}
use cyclist.ProofFile.{Line}

-- Lines that follow one another without end.
pub record IsLinePath (lines : List Line) (start : ℕ) (path : ℕ → ℕ) : Type 0 where
  pub starts : path 0 ≡ start
  pub follows : (i : ℕ) → (l : Line) × Memᴰ l lines × (l.src ≡ path i) × (l.dest ≡ path (suc i))

-- The first node is 0, or lines lead on from it without end.
abbrev pub IsRooted : List Line → ℕ → Type 0
IsRooted lines start = (start ≡ 0) ⊎ ((path : ℕ → ℕ) × IsLinePath lines start path)
