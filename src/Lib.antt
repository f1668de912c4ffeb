-- ===== src/Lib.antt =====
-- The check of the global trace condition in Cyclist.
--
-- A cyclic proof is sound when along each infinite path some trace of tags progresses infinitely
-- often. Cyclist decides this with two Buechi automata over one alphabet. `class Proof`
-- (src/generic/proof.hpp, src/generic/proof.c) holds the graph: vertices, successors, the tags of
-- each vertex, and the trace and progress pairs along edges. `class ProofAutomaton`
-- (src/generic/proof_aut.hpp, src/generic/proof_aut.c) accepts the words that spell a path of the
-- graph, and `class TraceAutomaton` (src/generic/trace.hpp, src/generic/trace.c) those on which it
-- can follow a trace that progresses. src/generic/soundness.c exports the operations to OCaml over
-- two static variables and asks Spot whether the second language contains the first.
-- src/generic/soundcheck.ml drives it: its inner `check_proof` fills the graph from an abstract
-- proof, a map from numbers to nodes with their tags and premises. Its outer `check_proof` tests the
-- map by `valid`, shrinks it, and keeps the answers in a cache.
--
-- Files:
--   Base      the containers of the C++ standard library, as lists; assertions, as `Option`
--   Bdd       the decision diagrams, as a parameter with laws; Bdd/Trees is an instance of it
--   Proof     class Proof; its children: the numbering of vertices by bits, the invariant, and its
--             preservation by each method
--   Automaton the interface `spot::twa`, runs and accepted words
--   ProofAut  class ProofAutomaton with its states and iterators, and its language
--   Trace     class TraceAutomaton with its states and iterators, the table of its states, and its
--             language
--   Soundness the functions of soundness.c, and what the answer of `check_soundness` means
--   Soundcheck the abstract proofs of soundcheck.ml, `valid`, and the calls that `check_proof` makes;
--             its children: what the graph reflects after some calls, when a call returns, and what
--             the answer means for the abstract proof
--   Minimize  the shrinking of abstract proofs in soundcheck.ml: dead nodes are removed, and nodes with
--             one premise are fused with their child; its children: lists, sets and maps, one round
--             of each loop as a map over the nodes, and paths before and after a round
--   Checker   the outer `check_proof` of soundcheck.ml, with its cache of answers
--   ProofTree the proofs that the prover builds (src/generic/proof.ml, src/generic/proofnode.ml), over
--             the sequents of a logic as a parameter (src/generic/sequent.mli), and their check; its
--             children: what the constructors return, the invariants they keep, the walks over a
--             proof, the tag pairs it holds, and the abstract proof it becomes (`mk_abs_node` of
--             soundcheck.ml)
--   ProofFile the abstract proofs that `mk_prf` of src/generic/checkproof.ml makes of the lines it
--             reads, why they pass `valid`, and when their check passes its assertions
--   Programs  the C programs of benchmarks/slmc/programs on which heaps are model checked: so far the
--             stack of aplas-stack.c and the marking of schorr_waite.c, over a heap that maps
--             addresses to structs
--   Tests     concrete runs
--
-- State and operations: a method of a class is a function from the record of the class to the new
-- record, under the method's name in lower case; `none` is a failed assertion, a null pointer or a
-- read out of range. A hash set is a list with no repeated element and a hash map an association
-- list. The order in which they iterate is left open by the standard library, and no result
-- depends on it. A vertex is a decision diagram: the conjunction that spells its number in binary.
-- A letter of a word is a truth value for each proposition. An iterator is the list of positions
-- that are left, and Spot's loop over it takes as fuel their number. A set or a map of OCaml is the
-- list of its elements or bindings; the traversals of `check_proof` are the sequence of the calls
-- they make. The number of bits that `check_proof` asks for is one more than a logarithm computed
-- with floats, which is a parameter; the sum is enough when two to its power exceeds the number of
-- nodes. Two premises of a node that are one node have their pairs merged, since the graph keeps
-- pairs by vertices. The loops of the shrinking run on fuel: each round removes a node, so one more
-- than there are nodes is enough. The keys of the cache are compared by a parameter, since OCaml may
-- tell apart two balanced trees with the same bindings. The walks over a proof run on fuel: parents
-- have smaller and premises greater numbers, so the number of nodes is enough.
--
-- In the benchmark programs each kind of struct has its own heap, since the programs never use a
-- block as two kinds; `malloc` is a parameter that gives a block with what lies there, or a null
-- pointer, and is taken to give new blocks; `none` is `abort`, a fault, or an `int` that overflows.
-- Loops run on fuel: one more than the number of cells is enough for the stack, and one more than
-- three times the number of nodes for the marking.
--
-- Not modelled: the conversion of OCaml values, reference counting of Spot's states, the hash
-- functions of the C++ tables, `build_proof` of soundcheck.ml, which makes an abstract proof from a
-- parsed list, `add_subprf` and `extract_subproof` of proof.ml, which copy parts of proofs, the search
-- for proofs, the parser of checkproof.ml, the logics, and Spot and BuDDy themselves. What the code
-- relies on of these two is stated where it is used: a decision diagram has the truth value of the formula that it
-- stands for, two diagrams with one root are equal, `make_twa_graph` keeps the language, and
-- `contains` decides inclusion for the automata at hand. An `int` is a natural number: vertex
-- numbers stay below the bound that `create_vertex` asserts, and tags are never negative. The shifts of
-- an `int` in `create_vertex` are powers of two and divisions, as they are below 31 bits; from there on
-- the shift of C is undefined, and the model says nothing of the code. A tag is a number from the
-- start, so that `Tags.to_ints`, `Tags.Elt.to_int` and `Node.Var.to_int`, which are injective, are left
-- out. The equality of decision diagrams is the library's: equal roots.
--
-- `check_proof` spares a dead node 0 rather than a dead initial node. So what is said of it, of the
-- shrinking and of the lines asks for an initial node that is 0 or starts an infinite path, and for
-- different premises at each node; `mk_prf` and the constructors of proof.ml give the latter. The tag
-- pairs given to the constructors of proof.ml come from the rules of a logic, which are not modelled;
-- that each call is given pairs that fit its sequents is a condition, and `check` fails an assertion
-- when the pairs of the proof do not.
pub mod Base
pub mod Bdd
pub mod Proof
pub mod Automaton
pub mod ProofAut
pub mod Trace
pub mod Soundness
pub mod Soundcheck
pub mod Minimize
pub mod Checker
pub mod ProofTree
pub mod ProofFile
pub mod Programs
mod Tests
