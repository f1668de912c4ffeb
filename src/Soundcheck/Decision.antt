-- ===== src/Soundcheck/Decision.antt =====
-- `check_proof` (src/generic/soundcheck.ml) from its call of `create_aut` to its answer.
use cyclist.Base.{
  ℕ, suc, ◌^◌, ◌<◌, Bool, true, some, List, [], ◌≡◌, ◌↔◌, refl, length, arith, lookup, at,
}
use mathlib.Core.List.Memᴰ
use cyclist.Bdd.{BddLibrary, Vertex}
use cyclist.Proof.{Proof, new_proof}
use cyclist.Proof.Creation.{new_proof-IsWellFormed}
use cyclist.ProofAut.{proof_automaton}
use cyclist.Trace.{trace_automaton}
use cyclist.Soundness.{SpotLibrary, initial_globals, create_aut, destroy_aut}
use cyclist.Soundness.Condition.{KeepsLanguage, Decides, check_soundness_iff}
use cyclist.Soundcheck.{AbstractProof, calls, run_calls, check_proof, valid}
use cyclist.Soundcheck.Valid.{valid-IsClosed}
use cyclist.Soundcheck.Reflects.{Reflects}
use cyclist.Soundcheck.Calls.{globals}
use cyclist.Soundcheck.Run.{Runs, run_calls-Runs}
use cyclist.Soundcheck.Ready.{IsMap, calls-Ready, total_creates-calls}
use cyclist.Soundcheck.Condition.{GlobalTraceCondition, initial_known, condition_iff}

module _ ⦃B : BddLibrary⦄ where
  pub new_proof-Reflects : (k : ℕ) → Reflects (λ c. ⊥) (new_proof k) []
  unfolding new_proof lookup at
  new_proof-Reflects k = record {
    wf = new_proof-IsWellFormed k;
    names = record {
      closed = λ c i d m. absurd d;
      made = λ i v e. cc;
      known = λ i v e. cc;
      injective = λ i j v e f. cc;
      onto = λ v m. absurd (Memᴰ.not-nil m);
    };
    contents = record {
      tags = λ i u e. cc;
      succs = λ i j u v e f. cc;
      traces = λ i j u v e f. cc;
      progress = λ i j u v e f. cc;
      starts = λ i d only. absurd d;
    };
  }

  -- On an abstract proof that passes `valid`, binds each number once, and has fewer nodes than two
  -- to the number of bits, all calls of `check_proof` between `create_aut` and `check_soundness`
  -- return from a new graph of that many bits, so that no assertion of the graph fails, and then
  -- the graph reflects all of them.
  pub calls-Runs :
      (bits : ℕ) (init : ℕ) (p : AbstractProof)
      → valid p init ≡ true
      → IsMap p
      → length p < 2 ^ bits
      → Runs (calls init p) (λ c. ⊥) (new_proof bits) []
  unfolding new_proof
  calls-Runs bits init p valid_p distinct room =
      let v = valid-IsClosed p init valid_p in
      run_calls-Runs (calls init p) (new_proof bits) [] (new_proof-Reflects bits)
        (calls-Ready p init v distinct) (rw (total_creates-calls p init v) (omega (arith, room)))

  -- Take an abstract proof that passes `valid`, binds each number once, and has fewer nodes than
  -- two to the number of bits asked for. Let Spot keep languages, and decide inclusion for the two
  -- automata of the graph that the calls make. Then `check_proof`, called with no graph built,
  -- returns with no graph left, and answers true exactly when along each infinite path of the
  -- abstract proof from `init` some trace progresses infinitely often.
  pub check_proof_iff :
      (spot : SpotLibrary) (ceil_log2 : ℕ → ℕ) (init : ℕ) (p : AbstractProof)
      → valid p init ≡ true
      → IsMap p
      → length p < 2 ^ suc (ceil_log2 (length p))
      → KeepsLanguage spot
      → ((q : Proof) (m : List (ℕ × Vertex))
          → run_calls (calls init p) (globals (new_proof (suc (ceil_log2 (length p)))) [])
            ≡ some (globals q m)
          → Decides spot
              (spot.make_twa_graph (trace_automaton q))
              (spot.make_twa_graph (proof_automaton q)))
      → (b : Bool) × (check_proof spot ceil_log2 init p initial_globals ≡ some (b, initial_globals))
        × ((b ≡ true) ↔ GlobalTraceCondition p init)
  unfolding check_proof create_aut destroy_aut
  check_proof_iff spot ceil_log2 init p valid_p distinct room keeps decides =
      let v = valid-IsClosed p init valid_p in
      let run = calls-Runs (suc (ceil_log2 (length p))) init p valid_p distinct room in
      let (b, e, answer) =
        check_soundness_iff spot (globals run.graph run.vertex_map) run.graph refl run.reflects.wf
          (initial_known p init v run.graph run.vertex_map run.reflects) keeps
          (decides run.graph run.vertex_map run.returns) in
      let condition = condition_iff p init v run.graph run.vertex_map run.reflects in
      (b, rw (run.returns, e) refl, (λ h. condition.0 (answer.0 h), λ h. answer.1 (condition.1 h)))
