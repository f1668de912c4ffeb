-- ===== src/Automaton.antt =====
-- The interface `spot::twa` through which Spot explores an automaton on the fly, and the language
-- that its documentation gives to one with the acceptance condition of `set_buchi()`. Spot is not
-- code of the repository; ProofAut and Trace are the two automata that the repository implements.
use cyclist.Base.{
  ℕ, zero, suc, ◌≤◌, Bool, true, Option, none, some, List, [], ◌∷◌, Memᴰ, ◌≡◌, if◌then◌else◌, ◌>>=◌,
}
pub mod Edges
use cyclist.Bdd.{BddLibrary, Valuation, Vertex, Sat}

module _ ⦃B : BddLibrary⦄ where
  -- What an iterator offers at a position: `dst()`, `cond()`, and whether `acc()` has the mark.
  pub record Edge (S : Type 0) : Type 0 where
    pub dst : S
    pub cond : Vertex
    pub acc : Bool

  -- `get_init_state()` and the edges that `succ_iter(s)` runs through; `none` is a fault.
  pub record Twa : Type 1 where
    pub State : Type 0
    pub get_init_state : State
    pub edges : State → Option (List (Edge State))

  -- An infinite word, a letter at each position.
  abbrev pub Word : Type 0
  Word = ℕ → Valuation

  -- The automaton can go from `s` to `t` over the letter, with the mark `m`.
  pub record Step (T : Twa) (s t : T.State) (letter : Valuation) (m : Bool) : Type 0 where
    pub out : List (Edge T.State)
    pub explored : T.edges s ≡ some out
    pub cond : Vertex
    pub edge : Memᴰ (record { dst = t; cond = cond; acc = m }) out
    pub reads : Sat letter cond

  pub record Run (T : Twa) (w : Word) : Type 0 where
    pub states : ℕ → T.State
    pub marks : ℕ → Bool
    pub starts : states 0 ≡ T.get_init_state
    pub steps : (i : ℕ) → Step T (states i) (states (suc i)) (w i) (marks i)
    -- The mark is met again and again.
    pub buchi : (n : ℕ) → (i : ℕ) × (n ≤ i) × (marks i ≡ true)

  abbrev pub Accepts : Twa → Word → Type 0
  Accepts T w = ∥ Run T w ∥₁

  -- The iterator classes: a position, and what the methods do at it. `first()` may fault, and so
  -- may `dst()`.
  pub record SuccIterator (S I : Type 0) : Type 0 where
    pub first : Option I
    pub next : I → I
    pub done : I → Bool
    pub dst : I → Option S
    pub cond : I → Vertex
    pub acc : I → Bool

  -- Spot's loop over an iterator, from a position on: `fuel` bounds the edges that are left.
  unfoldable pub collect : {S I : Type 0} → SuccIterator S I → ℕ → I → Option (List (Edge S))
  collect it zero i = if it.done i then some [] else none
  collect it (suc fuel) i =
      let visit = it.dst i >>= λ d. collect it fuel (it.next i) >>= λ rest.
      some (record { dst = d; cond = it.cond i; acc = it.acc i } ∷ rest) in
      if it.done i then some [] else visit
