-- ===== src/Soundcheck/Run.antt =====
-- A run of calls, each made when it is ready.
use cyclist.Base.{
  ℕ, ◌+◌, ◌^◌, ◌<◌, some, List, [], ◌∷◌, ◌++◌, Memᴰ, ◌≡◌, ◌↔◌, ◌⊎◌, refl, inl, inr, arith,
}
use mathlib.Core.List.Memᴰ
use cyclist.Bdd.{BddLibrary, Vertex}
use cyclist.Proof.{Proof}
use cyclist.Soundcheck.{
  Call, create_vertex, tag_vertex, set_successor, set_initial_vertex, set_trace_pair,
  set_progress_pair, run_calls,
}
use cyclist.Soundcheck.Reflects.{Adds, Reflects}
use cyclist.Soundcheck.Calls.{Ready, creates, globals, call-Returns}

abbrev pub ReadyAll : (Call → Type 0) → List Call → Type 0
ReadyAll D [] = Unit {0}
ReadyAll D (c ∷ cs) = Ready D c × ReadyAll (Adds c D) cs

abbrev pub After : List Call → (Call → Type 0) → Call → Type 0
After [] D = D
After (c ∷ cs) D = After cs (Adds c D)

pub After-iff : (cs : List Call) (D : Call → Type 0) (x : Call) → After cs D x ↔ (Memᴰ x cs ⊎ D x)
After-iff [] D x = (inr, elim [ inl m ↦ absurd (Memᴰ.not-nil m) | inr d ↦ d ])
After-iff (c ∷ cs) D x =
    let ih = After-iff cs (Adds c D) x in
    (
      λ a. elim (ih.0 a) [
        | inl m ↦ inl (Memᴰ.tail m)
        | inr (inl e) ↦ inl (Memᴰ.head e)
        | inr (inr d) ↦ inr d
      ],
      elim [
        | inl m ↦ elim (Memᴰ.cases_cons m) [ inl e ↦ ih.1 (inr (inl e)) | inr k ↦ ih.1 (inl k) ]
        | inr d ↦ ih.1 (inr (inr d))
      ],
    )

abbrev pub total_creates : List Call → ℕ
total_creates [] = 0
total_creates (c ∷ cs) = creates c + total_creates cs

pub ReadyAll-append :
    (xs ys : List Call) (D : Call → Type 0)
    → ReadyAll D xs
    → ReadyAll (After xs D) ys
    → ReadyAll D (xs ++ ys)
ReadyAll-append [] ys D r s = s
ReadyAll-append (x ∷ xs) ys D r s = (r.0, ReadyAll-append xs ys (Adds x D) r.1 s)

-- A call that fills the graph.
abbrev pub Fills : Call → Type 0
Fills (create_vertex i) = ⊥
Fills _ = Unit {0}

Ready-mono :
    (D E : Call → Type 0) → ((x : Call) → D x → E x) → (c : Call) → Fills c → Ready D c → Ready E c
Ready-mono D E sub (create_vertex i) f r = absurd f
Ready-mono D E sub (tag_vertex i t) f r = sub _ r
Ready-mono D E sub (set_successor i j) f r = (sub _ r.0, sub _ r.1)
Ready-mono D E sub (set_initial_vertex i) f r = sub _ r
Ready-mono D E sub (set_trace_pair i j k l) f r = (sub _ r.0, sub _ r.1)
Ready-mono D E sub (set_progress_pair i j k l) f r = (sub _ r.0, sub _ r.1)

-- Calls that fill and are ready at the start stay ready.
pub ReadyAll-Fills :
    (D E : Call → Type 0) (cs : List Call)
    → ((x : Call) → D x → E x)
    → ((c : Call) → Memᴰ c cs → Fills c × Ready D c)
    → ReadyAll E cs
ReadyAll-Fills D E [] sub h = tt
ReadyAll-Fills D E (c ∷ cs) sub h = (
  let (f, r) = h c (Memᴰ.head refl) in Ready-mono D E sub c f r,
  ReadyAll-Fills D (Adds c E) cs (λ x d. inr (sub x d)) (λ x m. h x (Memᴰ.tail m)),
)

module _ ⦃B : BddLibrary⦄ where
  -- The run returns, and the graph reflects all of it.
  pub record Runs (cs : List Call) (D : Call → Type 0) (p : Proof) (m : List (ℕ × Vertex))
      : Type 0 where
    pub graph : Proof
    pub vertex_map : List (ℕ × Vertex)
    pub returns : run_calls cs (globals p m) ≡ some (globals graph vertex_map)
    pub reflects : Reflects (After cs D) graph vertex_map

  -- A sequence of calls, each ready when its turn comes, with numbers left for all vertices it
  -- creates, runs to its end, and then the graph reflects all of it.
  pub run_calls-Runs :
      (cs : List Call) {D : Call → Type 0} (p : Proof) (m : List (ℕ × Vertex))
      → Reflects D p m
      → ReadyAll D cs
      → p.last_vertex + total_creates cs < 2 ^ p.max_vertices_log2
      → Runs cs D p m
  unfolding run_calls
  run_calls-Runs [] p m r ready room = record {
    graph = p;
    vertex_map = m;
    returns = refl;
    reflects = r;
  }
  run_calls-Runs (c ∷ cs) p m r ready room =
      let one = call-Returns p m r c ready.0 (omega arith) in
      let room' : one.graph.last_vertex + total_creates cs < 2 ^ one.graph.max_vertices_log2 =
        rw (one.same_bits, one.counted) (omega arith) in
      let rest = run_calls-Runs cs one.graph one.vertex_map one.reflects ready.1 room' in
      record {
        graph = rest.graph;
        vertex_map = rest.vertex_map;
        returns = rw one.returns rest.returns;
        reflects = rest.reflects;
      }
