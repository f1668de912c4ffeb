-- ===== src/Bdd/Trees.antt =====
-- Formulas as decision diagrams: an instance of the parameter, which shows that its laws can hold.
use cyclist.Base.{ℕ, zero, suc, ◌+◌, ◌*◌, ◌≡◌, refl, ap, Bool, true, false, ◌&&◌, not, arith}
use mathlib.Core.Path.{ap₂}
use mathlib.Core.Path.{ap₂}
use cyclist.Bdd.{BddLibrary, Valuation}

pub data Tree : Type 0 where
  bottom top : Tree
  var : ℕ → Tree
  neg : Tree → Tree
  conj : Tree → Tree → Tree

-- An injective pairing: 2^a (2 b + 1).
abbrev pub pair : ℕ → ℕ → ℕ
pair zero b = 2 * b + 1
pair (suc a) b = 2 * pair a b

pair-injective : (a b c d : ℕ) → pair a b ≡ pair c d → (a ≡ c) × (b ≡ d)
pair-injective zero b zero d h = (refl, omega arith)
pair-injective zero b (suc c) d h = absurd (omega arith)
pair-injective (suc a) b zero d h = absurd (omega arith)
pair-injective (suc a) b (suc c) d h =
    let ih = pair-injective a b c d (omega arith) in (omega arith, ih.1)

abbrev pub kind : Tree → ℕ
kind bottom = 0
kind top = 1
kind (var i) = 2
kind (neg t) = 3
kind (conj t u) = 4

abbrev pub content : Tree → ℕ
content bottom = 0
content top = 0
content (var i) = i
content (neg t) = pair (kind t) (content t)
content (conj t u) = pair (pair (kind t) (content t)) (pair (kind u) (content u))

abbrev number : Tree → ℕ
number t = pair (kind t) (content t)

pub number-injective : (t u : Tree) → pair (kind t) (content t) ≡ pair (kind u) (content u) → t ≡ u
number-injective bottom bottom h = refl
number-injective top top h = refl
number-injective (var i) (var j) h = ap var (pair-injective 2 i 2 j h).1
number-injective (neg t) (neg u) h =
    ap neg (number-injective t u (pair-injective 3 (number t) 3 (number u) h).1)
number-injective (conj t t') (conj u u') h =
    let both =
      (pair-injective 4 (pair (number t) (number t')) 4 (pair (number u) (number u')) h).1 in
    let (left, right) = pair-injective (number t) (number t') (number u) (number u') both in
    ap₂ conj (number-injective t u left) (number-injective t' u' right)
number-injective t u h =
    absurd (omega (arith, pair-injective (kind t) (content t) (kind u) (content u) h))

abbrev pub value : Tree → Valuation → Bool
value bottom s = false
value top s = true
value (var i) s = s i
value (neg t) s = not (value t s)
value (conj t u) s = value t s && value u s

abbrev pub trees : BddLibrary
trees = record {
  Bdd = Tree;
  bddtrue = top;
  bddfalse = bottom;
  bdd_and = conj;
  bdd_not = neg;
  get_prop = var;
  id = number;
  eval = value;
  eval-true = λ s. refl;
  eval-false = λ s. refl;
  eval-and = λ a b s. refl;
  eval-not = λ a s. refl;
  eval-prop = λ i s. refl;
  id-injective = number-injective;
}
