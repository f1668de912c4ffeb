-- ===== src/Programs/SchorrWaite/Shapes.antt =====
-- Trees in the heap, and the way back up (benchmarks/slmc/programs/schorr_waite.c).
use cyclist.Base.{
  ℕ, ◌+◌, Bool, true, false, some, Option, List, [], ◌∷◌, ◌≡◌, ◌≢◌, refl, arith, ◌==◌,
  if◌then◌else◌, Bool-cases, inl, inr, ==_iff, ◌∙◌, subst,
}
use cyclist.Programs.Heap.{Heap, store, store-other}
use cyclist.Programs.SchorrWaite.{Node}

-- A tree by the addresses of its nodes.
pub data Shape : Type 0 where
  leaf : Shape
  fork : ℕ → Shape → Shape → Shape

abbrev pub root : Shape → ℕ
root leaf = 0
root (fork a l r) = a

-- A node that was entered: its left child is being marked, or its right child.
pub data Frame : Type 0 where
  left : ℕ → Shape → Frame
  right : ℕ → Shape → Frame

abbrev pub top : List Frame → ℕ
top [] = 0
top (left a r ∷ fs) = a
top (right a l ∷ fs) = a

-- The tree of which `t` is the part below the frames.
abbrev pub zip : Shape → List Frame → Shape
zip t [] = t
zip t (left a r ∷ fs) = zip (fork a t r) fs
zip t (right a l ∷ fs) = zip (fork a l t) fs

-- The tree is in the heap, with each mark as given.
abbrev pub Tree : Heap Node → Bool → Shape → Type 0
Tree h b leaf = Unit {0}
Tree h b (fork a l r) =
    (a ≢ 0)
    × ((c : Bool) × (h a ≡ some (record { m = b; c = c; l = root l; r = root r })))
    × Tree h b l
    × Tree h b r

-- The frames are in the heap, each with a pointer to the next in place of the child.
abbrev pub Spine : Heap Node → List Frame → Type 0
Spine h [] = Unit {0}
Spine h (left a r ∷ fs) =
    (a ≢ 0)
    × (h a ≡ some (record { m = true; c = false; l = top fs; r = root r }))
    × Tree h false r
    × Spine h fs
Spine h (right a l ∷ fs) =
    (a ≢ 0)
    × (h a ≡ some (record { m = true; c = true; l = root l; r = top fs }))
    × Tree h true l
    × Spine h fs

abbrev pub here : ℕ → ℕ → ℕ
here x a = if x == a then 1 else 0

-- How often an address occurs.
abbrev pub count : ℕ → Shape → ℕ
count x leaf = 0
count x (fork a l r) = here x a + count x l + count x r

abbrev pub count_frames : ℕ → List Frame → ℕ
count_frames x [] = 0
count_frames x (left a r ∷ fs) = here x a + count x r + count_frames x fs
count_frames x (right a l ∷ fs) = here x a + count x l + count_frames x fs

pub here-same : (x : ℕ) → here x x ≡ 1
here-same x = elim (Bool-cases (x == x)) [
  | inl yes' ↦ rw yes' refl
  | inr no' ↦ ground (arith, (==_iff x x).1 refl)
]

pub here-other : (x a : ℕ) → here x a ≡ 0 → x ≢ a
here-other x a e same =
    let e' : here a a ≡ 0 = subst (λ q. here q a ≡ 0) same e in omega (arith, here-same a)

module _ (h : Heap Node) (x : ℕ) (y : Option Node) where
  pub Tree-keeps : (b : Bool) (t : Shape) → count x t ≡ 0 → Tree h b t → Tree (store h x y) b t
  Tree-keeps b leaf e d = tt
  Tree-keeps b (fork a l r) e (nonzero, (c, at_a), dl, dr) = (
    nonzero,
    (c, store-other h x y a (here-other x a (omega arith)) ∙ at_a),
    Tree-keeps b l (omega arith) dl,
    Tree-keeps b r (omega arith) dr,
  )

  pub Spine-keeps : (fs : List Frame) → count_frames x fs ≡ 0 → Spine h fs → Spine (store h x y) fs
  Spine-keeps [] e d = tt
  Spine-keeps (left a r ∷ fs) e (nonzero, at_a, dr, d) = (
    nonzero,
    store-other h x y a (here-other x a (omega arith)) ∙ at_a,
    Tree-keeps false r (omega arith) dr,
    Spine-keeps fs (omega arith) d,
  )
  Spine-keeps (right a l ∷ fs) e (nonzero, at_a, dl, d) = (
    nonzero,
    store-other h x y a (here-other x a (omega arith)) ∙ at_a,
    Tree-keeps true l (omega arith) dl,
    Spine-keeps fs (omega arith) d,
  )
