-- ===== src/Proof.antt =====
-- class Proof (src/generic/proof.hpp, src/generic/proof.c): the graph of a cyclic proof with the
-- tags of its nodes and the pairs of tags along its edges. `none` is a failed assertion.
-- An `int` is a natural number here; a tag is never negative.
pub mod Vertices
pub mod Invariant
pub mod Filling
pub mod Pairs
pub mod Creation
pub mod Letters
pub mod Reachable
use cyclist.Base.{
  ℕ, zero, suc, ◌+◌, ◌/◌, ◌%◌, ◌^◌, Bool, ◌&&◌, Option, none, some, List, [], ◌∷◌, ◌==◌,
  if◌then◌else◌, ◌>>=◌, ◌>>◌, assert, Eq, nat_eq, contains, insert, lookup, assign, touch, at,
  insert_at, max, get_elem?, ◌≡◌, ◌↔◌, true, ==_iff, arith,
}
use cyclist.Bdd.{BddLibrary, Vertex, no_vertex, vertex_eq, vertex_beq, vertex_beq_iff}

abbrev pub Tag : Type 0
Tag = ℕ

abbrev pub no_tag : Tag
no_tag = 0

-- The text that `<<` writes for a number, as the codes of its digits.
decimal_from : ℕ → ℕ → List ℕ → List ℕ
decimal_from zero n text = text
decimal_from (suc fuel) n text =
    let text' = (b'0' + n % 10) ∷ text in
    let rest = decimal_from fuel (n / 10) text' in if n / 10 == 0 then text' else rest

unfoldable pub to_decimal : ℕ → List ℕ
unfolding decimal_from
to_decimal n = decimal_from (suc n) n []

module _ ⦃B : BddLibrary⦄ where
  pub record Quad : Type 0 where
    pub source : Vertex
    pub target : Vertex
    pub source_tag : Tag
    pub target_tag : Tag

  abbrev pub quad_beq : Quad → Quad → Bool
  quad_beq p q =
      vertex_beq p.source q.source
      && vertex_beq p.target q.target
      && (p.source_tag == q.source_tag && p.target_tag == q.target_tag)

  pub quad_beq_iff : (p q : Quad) → (quad_beq p q ≡ true) ↔ (p ≡ q)
  quad_beq_iff p q = ground (
    arith,
    vertex_beq_iff p.source q.source,
    vertex_beq_iff p.target q.target,
    ==_iff p.source_tag q.source_tag,
    ==_iff p.target_tag q.target_tag,
  )

  abbrev pub quad_eq : Eq Quad
  quad_eq = record { beq = quad_beq; beq_iff = quad_beq_iff }

  pub record Proof : Type 0 where
    pub max_vertices_log2 : ℕ
    pub max_tag : Tag
    pub last_vertex : ℕ
    pub initial_vertex : Vertex
    pub propositions : List Vertex
    pub vertices : List Vertex
    pub trans_map : List (Vertex × List Vertex)
    pub tag_map : List (Vertex × List Tag)
    pub vertex_names : List (Vertex × List ℕ)
    pub trace_pairs : List Quad
    pub progress_pairs : List Quad

  -- The loop of the constructor, from proposition `i` on.
  get_props : ℕ → ℕ → List Vertex
  get_props zero i = []
  get_props (suc n) i = B.get_prop i ∷ get_props n (suc i)

  unfoldable pub new_proof : ℕ → Proof
  unfolding get_props
  new_proof maxv_l2 = record {
    max_vertices_log2 = maxv_l2;
    max_tag = 0;
    last_vertex = 0;
    initial_vertex = no_vertex;
    propositions = get_props maxv_l2 0;
    vertices = [];
    trans_map = [];
    tag_map = [];
    vertex_names = [];
    trace_pairs = [];
    progress_pairs = [];
  }

  unfoldable pub get_tags_of_vertex : Proof → Vertex → Option (List Tag)
  get_tags_of_vertex p v = lookup v p.tag_map

  unfoldable pub get_successors : Proof → Vertex → Option (List Vertex)
  get_successors p v = lookup v p.trans_map

  unfoldable pub get_vertex_name : Proof → Vertex → Option (List ℕ)
  get_vertex_name p v = lookup v p.vertex_names

  -- The loop of `create_vertex`: `n` rounds are left, `i` is the counter and `l` what is left of
  -- the number. A read past the end of `propositions` is a fault.
  unfoldable pub encode : ℕ → ℕ → ℕ → List Vertex → Vertex → Option Vertex
  encode zero i l props v = some v
  encode (suc n) i l props v = do
    b ← get_elem? props i
    encode n (suc i) (l / 2) props (B.bdd_and v (if l % 2 == 1 then b else B.bdd_not b))

  -- The shifts of an `int` are powers of two and divisions, as below 31 bits.
  unfoldable pub create_vertex : Proof → Option (Vertex × Proof)
  create_vertex p = do
    let last = p.last_vertex + 1
    assert (last / 2 ^ p.max_vertices_log2 == 0)
    v ← encode p.max_vertices_log2 0 last p.propositions B.bddtrue
    some (
      v,
      record p {
        last_vertex = last;
        vertices = insert v p.vertices;
        tag_map = touch v p.tag_map;
        trans_map = touch v p.trans_map;
        vertex_names = assign v (to_decimal last) p.vertex_names;
      },
    )

  unfoldable pub tag_vertex : Proof → Vertex → Tag → Option Proof
  tag_vertex p v t = do
    assert (contains v p.vertices)
    some (record p { max_tag = max p.max_tag t; tag_map = insert_at ⦃f = nat_eq⦄ v t p.tag_map })

  unfoldable pub set_initial_vertex : Proof → Vertex → Option Proof
  set_initial_vertex p v = do assert (contains v p.vertices); some (record p { initial_vertex = v })

  unfoldable pub set_successor : Proof → Vertex → Vertex → Option Proof
  set_successor p v1 v2 = do
    assert (contains v1 p.vertices)
    assert (contains v2 p.vertices)
    some (record p { trans_map = insert_at v1 v2 p.trans_map })

  -- The assertions that `set_trace_pair` and `set_progress_pair` share; `tag_map[v]` in an
  -- assertion adds a missing key.
  unfoldable pub check_pair : Proof → Quad → Option Proof
  check_pair p q = do
    assert (contains q.source p.vertices)
    assert (contains q.target p.vertices)
    let m1 = touch q.source p.tag_map
    assert (contains ⦃e = nat_eq⦄ q.source_tag (at m1 q.source))
    let m2 = touch q.target m1
    assert (contains ⦃e = nat_eq⦄ q.target_tag (at m2 q.target))
    some (record p { tag_map = m2 })

  unfoldable pub set_trace_pair : Proof → Quad → Option Proof
  set_trace_pair p q = do
    p' ← check_pair p q
    some (record p' { trace_pairs = insert ⦃e = quad_eq⦄ q p'.trace_pairs })

  unfoldable pub set_progress_pair : Proof → Quad → Option Proof
  set_progress_pair p q = do
    p' ← check_pair p q
    some (record p' { progress_pairs = insert ⦃e = quad_eq⦄ q p'.progress_pairs })

  unfoldable pub trace_pair : Proof → Quad → Bool
  trace_pair p q = contains ⦃e = quad_eq⦄ q p.trace_pairs

  unfoldable pub progress_pair : Proof → Quad → Bool
  progress_pair p q = contains ⦃e = quad_eq⦄ q p.progress_pairs
