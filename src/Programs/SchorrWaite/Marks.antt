-- ===== src/Programs/SchorrWaite/Marks.antt =====
-- What the loop of benchmarks/slmc/programs/schorr_waite.c does to a tree.
use cyclist.Base.{
  ℕ, zero, suc, ◌+◌, ◌*◌, ◌≤◌, ◌<◌, Bool, true, false, some, List, [], ◌∷◌, ◌≡◌, ◌≢◌, refl, sym,
  arith, ◌==◌, Bool-cases, inl, inr, ◌∙◌,
}
use cyclist.Programs.Heap.{Heap, store, store-same, store-other}
use cyclist.Programs.SchorrWaite.{Node, State, goes_on, body, loop, schorr_waite}
use cyclist.Programs.SchorrWaite.Shapes.{
  Shape, leaf, fork, root, Frame, left, right, top, zip, Tree, Spine, here, count, count_frames,
  here-same, here-other, Tree-keeps, Spine-keeps,
}
use cyclist.Programs.SchorrWaite.Steps.{
  zero_test, state, settled-Tree, unsettled, body-pop, body-swing, body-push,
}

abbrev pub size : Shape → ℕ
size leaf = 0
size (fork a l r) = suc (size l + size r)

-- The iterations that a part of the tree still needs.
abbrev pending : Bool → Shape → ℕ
pending true t = 0
pending false t = 3 * size t

abbrev work : List Frame → ℕ
work [] = 0
work (left a r ∷ fs) = 2 + 3 * size r + work fs
work (right a l ∷ fs) = 1 + work fs

-- No address occurs twice.
abbrev Once : Shape → List Frame → Type 0
Once t fs = (x : ℕ) → count x t + count_frames x fs ≤ 1

-- Where the loop ends.
record Ends (fuel : ℕ) (h : Heap Node) (t : Shape) (fs : List Frame) : Type 0 where
  pub last : State
  pub returns : loop fuel (state h t fs) ≡ some last
  pub tree : Tree last.heap true (zip t fs)
  pub frame : (x : ℕ) → count x t + count_frames x fs ≡ 0 → last.heap x ≡ h x

-- One more iteration, which writes to `a` only.
iterate :
    (fuel : ℕ) (h : Heap Node) (t : Shape) (fs : List Frame) (a : ℕ) (n : Node) (t' : Shape)
    (fs' : List Frame)
    → goes_on (state h t fs) ≡ some true
    → body (state h t fs) ≡ some (state (store h a (some n)) t' fs')
    → zip t' fs' ≡ zip t fs
    → ((x : ℕ)
        → count x t + count_frames x fs ≡ 0
        → (a ≢ x) × (count x t' + count_frames x fs' ≡ 0))
    → Ends fuel (store h a (some n)) t' fs'
    → Ends (suc fuel) h t fs
unfolding loop
iterate fuel h t fs a n t' fs' go does same apart ends = record {
  last = ends.last;
  returns = rw (go, does) ends.returns;
  tree = rw (← same) ends.tree;
  frame = λ x e. let (other, e') = apart x e in ends.frame x e' ∙ store-other h a (some n) x other;
}

goes_on-frame :
    (h : Heap Node) (t : Shape) (f : Frame) (fs : List Frame)
    → top (f ∷ fs) ≢ 0
    → goes_on (state h t (f ∷ fs)) ≡ some true
unfolding goes_on
goes_on-frame h t f fs nonzero = rw (zero_test (top (f ∷ fs)) nonzero) refl

apart_at : (x a : ℕ) → here x a ≡ 0 → a ≢ x
apart_at x a e same = here-other x a e (sym same)

-- From each state whose part of the tree is marked as told, enough fuel is left.
abbrev Finishes : ℕ → Type 0
Finishes fuel =
    (b : Bool) (h : Heap Node) (t : Shape) (fs : List Frame)
    → Tree h b t
    → Spine h fs
    → Once t fs
    → pending b t + work fs < fuel
    → Ends fuel h t fs

settled-Ends :
    (fuel : ℕ)
    → Finishes fuel
    → (h : Heap Node) (t : Shape) (fs : List Frame) → Tree h true t
    → Spine h fs
    → Once t fs
    → work fs < suc fuel
    → Ends (suc fuel) h t fs
unfolding loop goes_on
settled-Ends fuel ih h t [] d spine once lt = record {
  last = state h t [];
  returns = rw (settled-Tree h t [] d) refl;
  tree = d;
  frame = λ x e. refl;
}
settled-Ends fuel ih h t (left a r ∷ fs) d spine once lt =
    let (nonzero, at_a, dr, ds) = spine in
    let n : Node = record { m = true; c = true; l = root t; r = top fs } in
    let limit = once a in
    let one = here-same a in
    iterate fuel h t (left a r ∷ fs) a n r (right a t ∷ fs)
      (goes_on-frame h t (left a r) fs nonzero) (body-swing h t a r fs d spine) refl
      (λ x e. (apart_at x a (omega arith), omega arith))
      (ih false (store h a (some n)) r (right a t ∷ fs)
        (Tree-keeps h a (some n) false r (omega arith) dr)
        (
          nonzero,
          store-same h a (some n),
          Tree-keeps h a (some n) true t (omega arith) d,
          Spine-keeps h a (some n) fs (omega arith) ds,
        )
        (λ x. omega (arith, once x)) (omega arith))
settled-Ends fuel ih h t (right a l ∷ fs) d spine once lt =
    let (nonzero, at_a, dl, ds) = spine in
    let n : Node = record { m = true; c = true; l = root l; r = root t } in
    let limit = once a in
    let one = here-same a in
    iterate fuel h t (right a l ∷ fs) a n (fork a l t) fs (goes_on-frame h t (right a l) fs nonzero)
      (body-pop h t a l fs d spine) refl (λ x e. (apart_at x a (omega arith), omega arith))
      (ih true (store h a (some n)) (fork a l t) fs
        (
          nonzero,
          (true, store-same h a (some n)),
          Tree-keeps h a (some n) true l (omega arith) dl,
          Tree-keeps h a (some n) true t (omega arith) d,
        )
        (Spine-keeps h a (some n) fs (omega arith) ds) (λ x. omega (arith, once x)) (omega arith))

goes_on-unsettled :
    (h : Heap Node) (a : ℕ) (l r : Shape) (fs : List Frame)
    → Tree h false (fork a l r)
    → goes_on (state h (fork a l r) fs) ≡ some true
unfolding goes_on
goes_on-unsettled h a l r fs d = elim (Bool-cases (top fs == 0)) [
  | inl at_root ↦ rw (at_root, unsettled h a l r fs d) refl
  | inr below ↦ rw below refl
]

loop-Ends : (fuel : ℕ) → Finishes fuel
loop-Ends zero b h t fs d spine once lt = absurd (omega arith)
loop-Ends (suc fuel) true h t fs d spine once lt =
    settled-Ends fuel (loop-Ends fuel) h t fs d spine once (omega arith)
loop-Ends (suc fuel) false h leaf fs d spine once lt =
    settled-Ends fuel (loop-Ends fuel) h leaf fs tt spine once (omega arith)
loop-Ends (suc fuel) false h (fork a l r) fs d spine once lt =
    let (nonzero, (c, at_a), dl, dr) = d in
    let n : Node = record { m = true; c = false; l = top fs; r = root r } in
    let limit = once a in
    let one = here-same a in
    iterate fuel h (fork a l r) fs a n l (left a r ∷ fs) (goes_on-unsettled h a l r fs d)
      (body-push h a l r fs d) refl (λ x e. (apart_at x a (omega arith), omega arith))
      (loop-Ends fuel false (store h a (some n)) l (left a r ∷ fs)
        (Tree-keeps h a (some n) false l (omega arith) dl)
        (
          nonzero,
          store-same h a (some n),
          Tree-keeps h a (some n) false r (omega arith) dr,
          Spine-keeps h a (some n) fs (omega arith) spine,
        )
        (λ x. omega (arith, once x)) (omega arith))

-- On an unmarked tree in the heap whose nodes are distinct, with fuel above three times their
-- number, `schorr_waite` returns; all nodes of the tree are marked, their pointers lead where
-- they led, and no other memory changes.
pub schorr_waite-Tree :
    (fuel : ℕ) (h : Heap Node) (t : Shape)
    → Tree h false t
    → ((x : ℕ) → count x t ≤ 1)
    → 3 * size t < fuel
    → (h' : Heap Node) × (schorr_waite fuel (root t) h ≡ some h')
      × Tree h' true t
      × ((x : ℕ) → count x t ≡ 0 → h' x ≡ h x)
unfolding schorr_waite
schorr_waite-Tree fuel h t d once lt =
    let ends = loop-Ends fuel false h t [] d tt (λ x. omega (arith, once x)) (omega arith) in
    (ends.last.heap, rw ends.returns refl, ends.tree, λ x e. ends.frame x (omega arith))
