-- ===== src/ProofAut/States.antt =====
-- The order of the states of the proof automaton (src/generic/proof_aut.c).
use Prim.Native.Nat.{Ordering}
use cyclist.Base.{◌≡◌, refl, ap, arith, ◌↔◌}
use cyclist.Bdd.{BddLibrary}
use cyclist.ProofAut.{ProofAutState, ghost, state, compare_states, hash}

abbrev pub opposite : Ordering → Ordering
opposite Ordering.lt = Ordering.gt
opposite Ordering.eq = Ordering.eq
opposite Ordering.gt = Ordering.lt

module _ ⦃B : BddLibrary⦄ where
  -- Equal as states: both initial, or at the same vertex.
  abbrev pub SameState : ProofAutState → ProofAutState → Type 0
  SameState ghost ghost = Unit {0}
  SameState (state v ts) (state u us) = v ≡ u
  SameState _ _ = ⊥

  -- The order is antisymmetric and transitive, it is 0 exactly on equal states, and equal states
  -- have one hash.
  pub record IsStateOrder : Type 0 where
    pub swaps : (s t : ProofAutState) → compare_states t s ≡ opposite (compare_states s t)
    pub equal : (s t : ProofAutState) → (compare_states s t ≡ Ordering.eq) ↔ SameState s t
    pub trans :
        (s t u : ProofAutState)
        → compare_states s t ≡ Ordering.lt
        → compare_states t u ≡ Ordering.lt
        → compare_states s u ≡ Ordering.lt
    pub hashes : (s t : ProofAutState) → SameState s t → hash s ≡ hash t

  swaps : (s t : ProofAutState) → compare_states t s ≡ opposite (compare_states s t)
  unfolding compare_states
  swaps ghost ghost = refl
  swaps ghost (state u us) = refl
  swaps (state v ts) ghost = refl
  swaps (state v ts) (state u us) = ground arith

  equal : (s t : ProofAutState) → (compare_states s t ≡ Ordering.eq) ↔ SameState s t
  unfolding compare_states
  equal ghost ghost = (λ _. tt, λ _. refl)
  equal ghost (state u us) = (λ h. cc, λ h. absurd h)
  equal (state v ts) ghost = (λ h. cc, λ h. absurd h)
  equal (state v ts) (state u us) =
      (λ h. B.id-injective v u (ground arith), λ h. ground (arith, ap B.id h))

  trans :
      (s t u : ProofAutState)
      → compare_states s t ≡ Ordering.lt
      → compare_states t u ≡ Ordering.lt
      → compare_states s u ≡ Ordering.lt
  unfolding compare_states
  trans ghost ghost u h k = cc
  trans ghost (state v ts) ghost h k = cc
  trans ghost (state v ts) (state u us) h k = refl
  trans (state v ts) ghost u h k = cc
  trans (state v ts) (state u us) ghost h k = cc
  trans (state v ts) (state u us) (state x xs) h k = ground arith

  hashes : (s t : ProofAutState) → SameState s t → hash s ≡ hash t
  unfolding hash
  hashes ghost ghost h = refl
  hashes ghost (state u us) h = absurd h
  hashes (state v ts) ghost h = absurd h
  hashes (state v ts) (state u us) h = ap B.id h

  -- `compare` on the states of the proof automaton is antisymmetric and transitive, it is 0
  -- exactly on equal states, and equal states have one hash.
  pub compare_states-IsStateOrder : IsStateOrder
  compare_states-IsStateOrder = record {
    swaps = swaps;
    equal = equal;
    trans = trans;
    hashes = hashes;
  }
