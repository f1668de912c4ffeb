-- ===== src/Programs/SchorrWaite/Steps.antt =====
-- The three branches of the loop of benchmarks/slmc/programs/schorr_waite.c on a tree.
use cyclist.Base.{
  ℕ, true, false, some, List, ◌∷◌, ◌≡◌, ◌≢◌, refl, ◌==◌, Bool-cases, inl, inr, ==_iff,
}
use cyclist.Programs.Heap.{Heap, store, update-some, update-store}
use cyclist.Programs.SchorrWaite.{Node, State, settled, pop_node, swing, push_node, body}
use cyclist.Programs.SchorrWaite.Shapes.{
  Shape, leaf, fork, root, Frame, left, right, top, Tree, Spine,
}

pub zero_test : (a : ℕ) → a ≢ 0 → (a == 0) ≡ false
zero_test a other = elim (Bool-cases (a == 0)) [
  | inl same ↦ absurd (other ((==_iff a 0).0 same))
  | inr differs ↦ differs
]

-- The state at a part of the tree.
abbrev pub state : Heap Node → Shape → List Frame → State
state h t fs = record { heap = h; t = root t; p = top fs }

pub settled-Tree :
    (h : Heap Node) (t : Shape) (fs : List Frame)
    → Tree h true t
    → settled (state h t fs) ≡ some true
unfolding settled
settled-Tree h leaf fs d = refl
settled-Tree h (fork a l r) fs (nonzero, (c, at_a), _, _) = rw (zero_test a nonzero, at_a) refl

pub unsettled :
    (h : Heap Node) (a : ℕ) (l r : Shape) (fs : List Frame)
    → Tree h false (fork a l r)
    → settled (state h (fork a l r) fs) ≡ some false
unfolding settled
unsettled h a l r fs (nonzero, (c, at_a), _, _) = rw (zero_test a nonzero, at_a) refl

pub body-pop :
    (h : Heap Node) (t : Shape) (a : ℕ) (l : Shape) (fs : List Frame)
    → Tree h true t
    → Spine h (right a l ∷ fs)
    → body (state h t (right a l ∷ fs))
      ≡ some (
          state
            (store h a (some (record { m = true; c = true; l = root l; r = root t })))
            (fork a l t)
            fs)
unfolding body pop_node
body-pop h t a l fs d (nonzero, at_a, _, _) =
    let up = update-some h a (λ (x : Node). record x { r = root t }) _ at_a in
    rw (settled-Tree h t (right a l ∷ fs) d, at_a, up) refl

pub body-swing :
    (h : Heap Node) (t : Shape) (a : ℕ) (r : Shape) (fs : List Frame)
    → Tree h true t
    → Spine h (left a r ∷ fs)
    → body (state h t (left a r ∷ fs))
      ≡ some (
          state
            (store h a (some (record { m = true; c = true; l = root t; r = top fs })))
            r
            (right a t ∷ fs))
unfolding body swing
body-swing h t a r fs d (nonzero, at_a, _, _) =
    let up1 = update-some h a (λ (x : Node). record x { r = x.l }) _ at_a in
    let up2 =
      update-store h a (record { m = true; c = false; l = top fs; r = top fs })
        (λ (x : Node). record x { l = root t }) in
    let up3 =
      update-store h a (record { m = true; c = false; l = root t; r = top fs })
        (λ (x : Node). record x { c = true }) in
    rw (settled-Tree h t (left a r ∷ fs) d, at_a, up1, up2, up3) refl

pub body-push :
    (h : Heap Node) (a : ℕ) (l r : Shape) (fs : List Frame)
    → Tree h false (fork a l r)
    → body (state h (fork a l r) fs)
      ≡ some (
          state
            (store h a (some (record { m = true; c = false; l = top fs; r = root r })))
            l
            (left a r ∷ fs))
unfolding body push_node
body-push h a l r fs d =
    let (nonzero, (c, at_a), _, _) = d in
    let up1 = update-some h a (λ (x : Node). record x { l = top fs }) _ at_a in
    let up2 =
      update-store h a (record { m = false; c = c; l = top fs; r = root r })
        (λ (x : Node). record x { m = true }) in
    let up3 =
      update-store h a (record { m = true; c = c; l = top fs; r = root r })
        (λ (x : Node). record x { c = false }) in
    rw (unsettled h a l r fs d, at_a, up1, up2, up3) refl
