-- ===== src/Checker/Correct.antt =====
-- The answer of the outer `check_proof` (src/generic/soundcheck.ml).
use cyclist.Base.{
  ℕ, suc, ◌^◌, ◌<◌, Bool, true, Option, some, List, [], ◌∷◌, Memᴰ, ◌≡◌, ◌↔◌, ◌⊎◌, inl, inr, refl,
  sym, subst, Bool-cases, Option-cases, length, arith,
}
use mathlib.Core.List.Memᴰ
use cyclist.Bdd.{BddLibrary, Vertex}
use cyclist.Proof.{Proof, new_proof}
use cyclist.ProofAut.{proof_automaton}
use cyclist.Trace.{trace_automaton}
use cyclist.Soundness.{SpotLibrary, initial_globals}
use cyclist.Soundness.Condition.{KeepsLanguage, Decides}
use cyclist.Soundcheck.{AbstractProof, AbstractNode, calls, run_calls, valid}
use cyclist.Soundcheck.Valid.{valid-IsClosed}
use cyclist.Soundcheck.Accepted.{IsClosed-valid}
use cyclist.Soundcheck.Ready.{IsMap}
use cyclist.Soundcheck.Calls.{globals}
use cyclist.Soundcheck.Condition.{GlobalTraceCondition}
use cyclist.Soundcheck.Decision.{check_proof_iff}
use cyclist.Minimize.{minimize_abs_proof}
use cyclist.Minimize.Premises.{DistinctChildren}
use cyclist.Minimize.Good.{IsGood, IsKept}
use cyclist.Minimize.Loops.{minimize_abs_proof-Ends}
use cyclist.Checker.{CheckCache, Checker, find_answer, check_shrunk, check_proof}

-- Each answer in the cache is right for the initial node.
abbrev pub IsRight : ℕ → CheckCache → Type 0
IsRight init cache =
    (p : AbstractProof) (r : Bool) → Memᴰ (p, r) cache → (r ≡ true) ↔ GlobalTraceCondition p init

find_answer-mem :
    (same : AbstractProof → AbstractProof → Bool)
    → ((x y : AbstractProof) → same x y ≡ true → x ≡ y)
    → (p : AbstractProof) (cache : CheckCache) (r : Bool) → find_answer same p cache ≡ some r
    → Memᴰ (p, r) cache
unfolding find_answer
find_answer-mem same equal p [] r h = cc
find_answer-mem same equal p ((q, b) ∷ cache) r h = elim (Bool-cases (same p q)) [
  | inl hit ↦
      let e = equal p q hit in let e' : r ≡ b = ground (arith, hit) in Memᴰ.head (λ i. (e i, e' i))
  | inr miss ↦ Memᴰ.tail (find_answer-mem same equal p cache r (ground (arith, miss)))
]

-- No infinite path runs through no nodes.
empty-condition : (init : ℕ) → GlobalTraceCondition [] init
empty-condition init path h = let (n, s, (m, _), e) = h.follows 0 in absurd (Memᴰ.not-nil m)

module _ ⦃B : BddLibrary⦄ where
  -- What Spot and the logarithm must do for one abstract proof.
  pub record Suits (spot : SpotLibrary) (ceil_log2 : ℕ → ℕ) (init : ℕ) (p : AbstractProof)
      : Type 1 where
    pub keeps : KeepsLanguage spot
    pub bits : length p < 2 ^ suc (ceil_log2 (length p))
    pub decides :
        (q : Proof) (m : List (ℕ × Vertex))
        → run_calls (calls init p) (globals (new_proof (suc (ceil_log2 (length p)))) [])
          ≡ some (globals q m)
        → Decides spot
            (spot.make_twa_graph (trace_automaton q))
            (spot.make_twa_graph (proof_automaton q))

  -- The checker between two checks: no graph is built, and the answers in the cache are right.
  pub record IsIdle (init : ℕ) (c : Checker) : Type 0 where
    pub no_graph : c.globals ≡ initial_globals
    pub right : IsRight init c.ccache

  -- The check of `p` returns, leaves the checker idle, and answers as it should.
  abbrev pub Answers : ℕ → AbstractProof → Option (Bool × Checker) → Type 0
  Answers init p ran =
      (r : Bool) × (c : Checker) × (ran ≡ some (r, c))
      × IsIdle init c
      × ((r ≡ true) ↔ GlobalTraceCondition p init)

  module _ (spot : SpotLibrary) (ceil_log2 : ℕ → ℕ) (same : AbstractProof → AbstractProof → Bool)
      (equal : (x y : AbstractProof) → same x y ≡ true → x ≡ y) where
    check_shrunk-Answers :
        (init : ℕ) (p : AbstractProof) (c : Checker)
        → IsIdle init c
        → IsGood p init
        → Suits spot ceil_log2 init p
        → Answers init p (check_shrunk spot ceil_log2 same init p c)
    unfolding check_shrunk
    check_shrunk-Answers init [] c idle good suits =
        (true, c, refl, idle, (λ _. empty-condition init, λ _. refl))
    check_shrunk-Answers init (x ∷ p) c idle good suits =
        let passes = IsClosed-valid (x ∷ p) init good.is_map good.closed in
        elim (Option-cases (find_answer same (x ∷ p) c.ccache)) [
          | inr (r, hit) ↦
              let m = find_answer-mem same equal (x ∷ p) c.ccache r hit in
              (r, c, rw (passes, hit) refl, idle, idle.right (x ∷ p) r m)
          | inl miss ↦
              let (r, ran, answer) =
                check_proof_iff spot ceil_log2 init (x ∷ p) passes good.is_map suits.bits
                  suits.keeps suits.decides in
              (
                r,
                record { globals = initial_globals; ccache = (x ∷ p, r) ∷ c.ccache },
                rw (passes, miss, idle.no_graph, ran) refl,
                record {
                  no_graph = refl;
                  right = λ q b m. elim (Memᴰ.cases_cons m) [
                    | inl new ↦
                        subst
                          (λ (y : AbstractProof × Bool).
                            (y.1 ≡ true) ↔ GlobalTraceCondition y.0 init)
                          (sym new) answer
                    | inr old ↦ idle.right q b old
                  ];
                },
                answer,
              )
        ]

    pub check_proof-Answers :
        (init : ℕ) (p : AbstractProof) (c : Checker)
        → IsIdle init c
        → (p ≡ []) ⊎ ((valid p init ≡ true) × IsKept p init)
        → IsMap p
        → ((i : ℕ) (n : AbstractNode) → Memᴰ (i, n) p → DistinctChildren n.subg)
        → ((q : AbstractProof)
            → minimize_abs_proof (suc (length p)) init p ≡ some q
            → Suits spot ceil_log2 init q)
        → Answers init p (check_proof spot ceil_log2 same init p c)
    unfolding check_proof
    check_proof-Answers init [] c idle passes is_map distinct suits =
        (true, c, refl, idle, (λ _. empty-condition init, λ _. refl))
    check_proof-Answers init (x ∷ p) c idle (inl empty) is_map distinct suits = cc
    check_proof-Answers init (x ∷ p) c idle (inr (passes, kept)) is_map distinct suits =
        let good : IsGood (x ∷ p) init = record {
          is_map = is_map;
          distinct = distinct;
          closed = valid-IsClosed (x ∷ p) init passes;
        } in
        let (q, runs, shrunk) =
          minimize_abs_proof-Ends (suc (length (x ∷ p))) init (x ∷ p) good kept (omega arith) in
        let (r, c', ran, idle', answer) =
          check_shrunk-Answers init q c idle shrunk.good (suits q runs) in
        (
          r,
          c',
          rw (passes, runs) ran,
          idle',
          (λ h. shrunk.condition.0 (answer.0 h), λ h. answer.1 (shrunk.condition.1 h)),
        )
