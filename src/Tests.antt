-- ===== src/Tests.antt =====
-- Concrete runs, and the theorems at concrete inputs.
mod Loop
mod StackRuns
mod MarkRuns
mod Shrinking
mod Growing
mod Lines
use Prim.Native.Nat.{Ordering}
use cyclist.Base.{
  ℕ, suc, ◌≤◌, ◌<◌, ◌+◌, ◌^◌, Bool, true, false, none, some, lookup, List, [], ◌∷◌, Memᴰ, ◌≡◌, ◌↔◌,
  refl, arith,
}
use cyclist.Bdd.{Valuation, Vertex, Sat}
use cyclist.Bdd.Trees.{Tree, top, bottom, var, neg, conj}
use cyclist.Proof.{Proof}
use cyclist.Proof.{create_vertex}
use cyclist.Proof.Vertices.{Numbered}
use cyclist.Proof.Creation.{new_proof-IsWellFormed, with_vertex, create_vertex_lem}
use cyclist.Proof.Letters.{same_vertex}
use cyclist.Proof.Invariant.{IsWellFormed}
use cyclist.Proof.Reachable.{Reachable-IsWellFormed}
use cyclist.Automaton.{Word, Accepts}
use cyclist.ProofAut.{proof_automaton}
use cyclist.ProofAut.Paths.{IsPath, Reads, proof_automaton_language}
use cyclist.Trace.{trace_automaton}
use cyclist.Trace
use cyclist.Trace.{initial_state}
use cyclist.Trace.States.{compare_states-eq_iff}
use cyclist.Trace.StateMap.{StateMap, Interns, get_state, get_state-Interns}
use cyclist.ProofAut.States.{IsStateOrder, compare_states-IsStateOrder}
use cyclist.Trace.Traces.{stand, ProgressingTrace, trace_automaton_language}
use cyclist.Soundness.{SpotLibrary, Globals, check_soundness}
use cyclist.Soundness.Condition.{GlobalTrace, Includes, inclusion_iff, check_soundness_iff}
use mathlib.Core.List.Memᴰ
use cyclist.Base.{for_each, insert, insert_at, contains, touch, assign, at}
use cyclist.Proof
use cyclist.Proof.{new_proof, encode, to_decimal, check_pair}
use cyclist.Soundness
use cyclist.Soundness.{initial_globals}
use cyclist.Soundness.Condition.{Decides}
use cyclist.Soundcheck.{
  Premise, AbstractNode, AbstractProof, calls, call, run_calls, for_all, create_vertices,
  create_tags, create_succs, create_trace_pairs, do_tag_transitions, valid, check_proof,
}
use cyclist.Soundcheck.{Call}
use cyclist.Soundcheck.{set_trace_pair}
use cyclist.Soundcheck.Calls.{globals, Returns, call-Returns}
use cyclist.Soundcheck.Valid.{IsClosed, valid-IsClosed}
use cyclist.Soundcheck.Meaning.{Meaning, mem-calls}
use cyclist.Soundcheck.Run.{ReadyAll, Runs, run_calls-Runs}
use cyclist.Soundcheck.Ready.{calls-Ready, total_creates-calls}
use cyclist.Soundcheck.Condition.{GlobalTraceCondition}
use cyclist.Soundcheck.Decision.{new_proof-Reflects, calls-Runs, check_proof_iff}
use Loop.{
  formulas, vertex, empty, empty-IsWellFormed, loop, loop-Reachable, loop-IsPath, loop_known,
  loop_trace,
}

Reachable-IsWellFormed_example : IsWellFormed loop
Reachable-IsWellFormed_example = Reachable-IsWellFormed 1 loop loop-Reachable

loop-IsWellFormed : IsWellFormed loop
loop-IsWellFormed = Reachable-IsWellFormed 1 loop loop-Reachable

-- Each letter sets p_0.
abbrev ones : Word
ones = λ i j. true

proof_automaton_language_example :
    Accepts (proof_automaton loop) ones
    ↔ ∥ ((path : ℕ → Vertex) × IsPath loop path × Reads ones path) ∥₁
proof_automaton_language_example = proof_automaton_language loop loop-IsWellFormed loop_known ones

trace_automaton_language_example :
    Accepts (trace_automaton loop) ones ↔ ∥ ProgressingTrace loop (λ i. vertex) ∥₁
trace_automaton_language_example =
    trace_automaton_language loop loop-IsWellFormed ones (λ i. vertex) (λ i. loop_known)
      loop-IsPath.follows (λ i. refl)

inclusion_iff_example : Includes (trace_automaton loop) (proof_automaton loop) ↔ GlobalTrace loop
inclusion_iff_example = inclusion_iff loop loop-IsWellFormed loop_known

-- An answer of Spot that is right for this graph.
abbrev spot_yes : SpotLibrary
spot_yes = record { make_twa_graph = λ T. T; contains = λ left right. true }

loop-Includes : Includes (trace_automaton loop) (proof_automaton loop)
loop-Includes =
    (inclusion_iff loop loop-IsWellFormed loop_known).1 (λ path h. ∣ loop_trace path h ∣₁)

abbrev loop_globals : Globals
loop_globals = record { proof = some loop; bdd_map = (0, vertex) ∷ [] }

check_soundness_iff_example :
    (b : Bool) × (check_soundness spot_yes loop_globals ≡ some b) × ((b ≡ true) ↔ GlobalTrace loop)
check_soundness_iff_example =
    check_soundness_iff spot_yes loop_globals loop refl loop-IsWellFormed loop_known
      (λ T w. (λ a. a, λ a. a)) (λ _. loop-Includes, λ _. refl)

create_vertex_lem_example :
    (v : Vertex) × (create_vertex empty ≡ some (v, with_vertex empty v))
    × Numbered 1 empty.propositions 1 v
    × (¬ Memᴰ v [])
    × IsWellFormed (with_vertex empty v)
create_vertex_lem_example = create_vertex_lem empty empty-IsWellFormed (omega arith)

same_vertex_example : vertex ≡ vertex
same_vertex_example =
    same_vertex loop loop-IsWellFormed (ones 0) vertex vertex loop_known loop_known refl refl

abbrev no_states : StateMap
no_states = record { objects = []; state_map = [] }

get_state-Interns_example :
    Interns vertex 1 no_states (get_state vertex 1 no_states).0 (get_state vertex 1 no_states).1
unfolding lookup
get_state-Interns_example = get_state-Interns vertex 1 no_states (λ p i h. cc)

compare_states-IsStateOrder_example : IsStateOrder ⦃B = formulas⦄
compare_states-IsStateOrder_example = compare_states-IsStateOrder

trace_compare_example :
    (Trace.compare_states (stand (λ i. vertex) (λ i. 1) 0) initial_state ≡ Ordering.eq)
    ↔ (stand (λ i. vertex) (λ i. 1) 0 ≡ initial_state)
trace_compare_example = compare_states-eq_iff (stand (λ i. vertex) (λ i. 1) 0) initial_state

-- One node that is its own premise, with one tag that progresses.
abbrev self_premise : Premise
self_premise = record { child = 0; tag_pairs = (1, 1) ∷ []; progress = (1, 1) ∷ [] }

abbrev self_loop : AbstractProof
self_loop = (0, record { tags = 1 ∷ []; subg = self_premise ∷ [] }) ∷ []

self_loop-calls : run_calls (calls 0 self_loop) (globals (new_proof 1) []) ≡ some loop_globals
unfolding run_calls call calls create_vertices create_tags create_succs create_trace_pairs
    do_tag_transitions for_each Soundness.create_vertex Soundness.tag_vertex Soundness.set_successor
    Soundness.set_trace_pair Soundness.set_progress_pair Soundness.set_initial_vertex
    Proof.create_vertex Proof.tag_vertex Proof.set_successor Proof.set_trace_pair
    Proof.set_progress_pair Proof.set_initial_vertex check_pair new_proof encode insert contains
    touch assign lookup to_decimal insert_at at
self_loop-calls = refl

self_loop-Decides :
    (q : Proof) (m : List (ℕ × Vertex))
    → run_calls (calls 0 self_loop) (globals (new_proof 1) []) ≡ some (globals q m)
    → Decides spot_yes (trace_automaton q) (proof_automaton q)
self_loop-Decides q m e =
    let same : q ≡ loop = cc (e, self_loop-calls) in rw same (λ _. loop-Includes, λ _. refl)

-- The same at the node 1.
abbrev one_loop : AbstractProof
one_loop =
    (
      1,
      record {
        tags = 1 ∷ [];
        subg = record { child = 1; tag_pairs = (1, 1) ∷ []; progress = (1, 1) ∷ [] } ∷ [];
      },
    )
    ∷ []

check_proof_iff_example :
    (b : Bool) × (check_proof spot_yes (λ size. 0) 0 self_loop initial_globals
      ≡ some (b, initial_globals))
    × ((b ≡ true) ↔ GlobalTraceCondition self_loop 0)
unfolding valid contains lookup for_all
check_proof_iff_example =
    check_proof_iff spot_yes (λ size. 0) 0 self_loop refl ((λ n. Memᴰ.not-nil n.1), tt)
      (omega arith) (λ T w. (λ a. a, λ a. a)) self_loop-Decides

self_loop-IsClosed : IsClosed self_loop 0
unfolding valid contains lookup for_all
self_loop-IsClosed = valid-IsClosed self_loop 0 refl

valid-IsClosed_example : IsClosed self_loop 0
unfolding valid contains lookup for_all
valid-IsClosed_example = valid-IsClosed self_loop 0 refl

mem-calls_example :
    Memᴰ (set_trace_pair 0 0 1 1) (calls 0 self_loop) ↔ Meaning self_loop 0 (set_trace_pair 0 0 1 1)
mem-calls_example = mem-calls self_loop 0 (set_trace_pair 0 0 1 1)

call-Returns_example : Returns (Call.create_vertex 5) (λ c. ⊥) (new_proof 1) []
unfolding new_proof
call-Returns_example =
    call-Returns (new_proof 1) [] (new_proof-Reflects 1) (Call.create_vertex 5) (λ d. d)
      (omega arith)

self_loop-ReadyAll : ReadyAll (λ c. ⊥) (calls 0 self_loop)
self_loop-ReadyAll = calls-Ready self_loop 0 self_loop-IsClosed ((λ n. Memᴰ.not-nil n.1), tt)

calls-Runs_example : Runs (calls 0 self_loop) (λ c. ⊥) (new_proof 1) []
unfolding valid contains lookup for_all
calls-Runs_example = calls-Runs 1 0 self_loop refl ((λ n. Memᴰ.not-nil n.1), tt) (omega arith)

run_calls-Runs_example : Runs (calls 0 self_loop) (λ c. ⊥) (new_proof 1) []
unfolding new_proof
run_calls-Runs_example =
    run_calls-Runs (calls 0 self_loop) (new_proof 1) [] (new_proof-Reflects 1) self_loop-ReadyAll
      (rw (total_creates-calls self_loop 0 self_loop-IsClosed) (omega arith))
