-- ===== src/Bdd.antt =====
-- The part of the BuDDy and Spot libraries that generic/proof.c and generic/trace.c call on
-- decision diagrams. It is not code of the repository: its operations are a parameter, with what
-- the code relies on as laws.
pub mod Cube
pub mod Trees
use cyclist.Base.{ℕ, ◌≡◌, ◌↔◌, Bool, true, false, ◌&&◌, not, arith, ◌==◌, ==_iff, Eq}

-- A truth value for each atomic proposition p_0, p_1, ...: one letter of a word.
abbrev pub Valuation : Type 0
Valuation = ℕ → Bool

pub record BddLibrary : Type 1 where
  pub Bdd : Type 0
  pub bddtrue : Bdd
  pub bddfalse : Bdd
  pub bdd_and : Bdd → Bdd → Bdd
  pub bdd_not : Bdd → Bdd
  -- `GET_PROP(dict, "p_" + i, this)`: the variable that Spot's dictionary registers for p_i
  pub get_prop : ℕ → Bdd
  -- `id()`, the number of the root node
  pub id : Bdd → ℕ
  pub eval : Bdd → Valuation → Bool
  pub eval-true : (s : Valuation) → eval bddtrue s ≡ true
  pub eval-false : (s : Valuation) → eval bddfalse s ≡ false
  pub eval-and : (a b : Bdd) (s : Valuation) → eval (bdd_and a b) s ≡ (eval a s && eval b s)
  pub eval-not : (a : Bdd) (s : Valuation) → eval (bdd_not a) s ≡ not (eval a s)
  pub eval-prop : (i : ℕ) (s : Valuation) → eval (get_prop i) s ≡ s i
  pub id-injective : (a b : Bdd) → id a ≡ id b → a ≡ b

module _ ⦃B : BddLibrary⦄ where
  -- `typedef bdd Vertex`
  abbrev pub Vertex : Type 0
  Vertex = B.Bdd

  abbrev pub no_vertex : Vertex
  no_vertex = B.bddfalse

  -- `operator==` on `bdd` compares the root nodes.
  abbrev pub vertex_beq : Vertex → Vertex → Bool
  vertex_beq u v = B.id u == B.id v

  pub vertex_beq_iff : (u v : Vertex) → (vertex_beq u v ≡ true) ↔ (u ≡ v)
  vertex_beq_iff u v =
      (λ h. B.id-injective u v ((==_iff _ _).0 h), λ h. (==_iff _ _).1 (λ i. B.id (h i)))

  instance abbrev pub vertex_eq : Eq Vertex
  vertex_eq = record { beq = vertex_beq; beq_iff = vertex_beq_iff }

  -- The letter satisfies the condition.
  abbrev pub Sat : Valuation → Vertex → Type 0
  Sat s v = B.eval v s ≡ true
