-- ===== src/Minimize/Steps.antt =====
-- One round of each loop of src/generic/soundcheck.ml as one function on abstract proofs.
use cyclist.Base.{
  ℕ, true, some, List, [], ◌∷◌, ◌++◌, Memᴰ, ◌≡◌, refl, ap, subst, ◌∙◌, ◌==◌, Bool-cases, inl, inr,
  arith, ==_iff, assign, nat_eq, Option,
}
use mathlib.Core.List.{append_assoc}
use mathlib.Core.List.Memᴰ
use cyclist.Proof.{Tag}
use cyclist.Soundcheck.{AbstractProof, AbstractNode, Premise}
use cyclist.Soundcheck.Meaning.{IsNode}
use cyclist.Soundcheck.Ready.{IsMap}
use cyclist.Minimize.Blist.{exists}
use cyclist.Minimize.Maps.{iter, remove}
use cyclist.Minimize.{
  with_subg, fewer_premises, in_children, index_of_child, drop_premise, remove_dead_node, bypass,
  lead_past, fuse_node,
}
use cyclist.Minimize.Bindings.{map_premises, remove-IsMap}
use cyclist.Minimize.Premises.{leads_to}
use cyclist.Minimize.First.{
  exists-Found, find_index-Found, replace_nth-Found, without_first, map_first,
  without_first-eq_self, map_first-eq_self,
}

assign-append :
    (done rest : AbstractProof) (i : ℕ) (n v : AbstractNode)
    → ¬ IsNode done i
    → assign ⦃e = nat_eq⦄ i v (done ++ (i, n) ∷ rest) ≡ (done ++ (i, v) ∷ rest)
unfolding assign
assign-append [] rest i n v other = let same = (==_iff i i).1 refl in rw same refl
assign-append ((j, w) ∷ done) rest i n v other = elim (Bool-cases (i == j)) [
  | inl same ↦ let e = (==_iff i j).0 same in absurd (other (w, Memᴰ.head (λ k. (e k, w))))
  | inr differs ↦
      rw differs
        (ap (λ r. (j, w) ∷ r) (assign-append done rest i n v (λ (w', m). other (w', Memᴰ.tail m))))
]

-- An iteration that changes the binding it is called with changes each binding.
iter-map_premises :
    (f : ℕ → AbstractNode → AbstractProof → Option AbstractProof) (g : List Premise → List Premise)
    → ((done rest : AbstractProof) (i : ℕ) (n : AbstractNode)
        → ¬ IsNode done i
        → f i n (done ++ (i, n) ∷ rest) ≡ some (done ++ (i, with_subg n (g n.subg)) ∷ rest))
    → (done rest : AbstractProof) → IsMap rest
    → ((i : ℕ) → IsNode rest i → ¬ IsNode done i)
    → iter f rest (done ++ rest) ≡ some (done ++ map_premises g rest)
unfolding iter
iter-map_premises f g step done [] d apart = refl
iter-map_premises f g step done ((i, n) ∷ rest) d apart =
    let n' = with_subg n (g n.subg) in
    let ih = iter-map_premises f g step (done ++ (i, n') ∷ []) rest d.1 λ j (w, m) (w', m').
      elim (Memᴰ.append_cases done m') [
        | inl old ↦ apart j (w, Memᴰ.tail m) (w', old)
        | inr new ↦
            let e = ap (λ (q : ℕ × AbstractNode). q.0) (Memᴰ.eq_of_singleton new) in
            d.0 (w, subst (λ q. Memᴰ (q, w) rest) e m)
      ] in
    let left = append_assoc done ((i, n') ∷ []) rest in
    let right = append_assoc done ((i, n') ∷ []) (map_premises g rest) in
    rw (step done rest i n (apart i (n, Memᴰ.head refl))) (
      subst (λ q. iter f rest q ≡ some (done ++ (i, n') ∷ map_premises g rest)) left
        (ih ∙ ap (λ q. some q) right))

fewer_premises-Found :
    (child : ℕ) (tags : List Tag) (subg : List Premise)
    → exists (leads_to child) subg ≡ true
    → fewer_premises child (record { tags = tags; subg = subg })
      ≡ some (without_first (leads_to child) subg)
unfolding fewer_premises exists index_of_child
fewer_premises-Found child tags [] h = cc
fewer_premises-Found child tags (s ∷ []) h =
    let hit : leads_to child s ≡ true = ground arith in rw hit refl
fewer_premises-Found child tags (s ∷ t ∷ ss) h =
    let found = exists-Found (leads_to child) (s ∷ t ∷ ss) h in
    rw (find_index-Found (leads_to child) (s ∷ t ∷ ss) found) found.removed

drop_premise-append :
    (child : ℕ) (done rest : AbstractProof) (i : ℕ) (n : AbstractNode)
    → ¬ IsNode done i
    → drop_premise child i n (done ++ (i, n) ∷ rest)
      ≡ some (done ++ (i, with_subg n (without_first (leads_to child) n.subg)) ∷ rest)
unfolding drop_premise in_children
drop_premise-append child done rest i n other = elim (Bool-cases (exists (leads_to child) n.subg)) [
  | inl has ↦
      rw (has, fewer_premises-Found child n.tags n.subg has)
        (ap (λ q. some q) (assign-append done rest i n _ other))
  | inr lacks ↦ rw (lacks, without_first-eq_self (leads_to child) n.subg lacks) refl
]

lead_past-append :
    (child : ℕ) (s : Premise) (done rest : AbstractProof) (i : ℕ) (n : AbstractNode)
    → ¬ IsNode done i
    → lead_past child s i n (done ++ (i, n) ∷ rest)
      ≡ some (done ++ (i, with_subg n (map_first (leads_to child) (bypass s) n.subg)) ∷ rest)
unfolding lead_past in_children index_of_child
lead_past-append child s done rest i n other = elim (Bool-cases (exists (leads_to child) n.subg)) [
  | inl has ↦
      let found = exists-Found (leads_to child) n.subg has in
      rw
        (
          has,
          find_index-Found (leads_to child) n.subg found,
          found.is_there,
          replace_nth-Found (leads_to child) n.subg found (bypass s),
        )
        (ap (λ q. some q) (assign-append done rest i n _ other))
  | inr lacks ↦ rw (lacks, map_first-eq_self (leads_to child) (bypass s) n.subg lacks) refl
]

-- In a map, `remove_dead_node` returns the map without the node, where each other node is without
-- its first premise that is this node.
pub remove_dead_node-eq :
    (idx : ℕ) (p : AbstractProof)
    → IsMap p
    → remove_dead_node idx p ≡ some (map_premises (without_first (leads_to idx)) (remove idx p))
unfolding remove_dead_node
remove_dead_node-eq idx p d =
    iter-map_premises (drop_premise idx) (without_first (leads_to idx)) (drop_premise-append idx) []
      (remove idx p) (remove-IsMap idx p d) (λ i k (n, m). absurd (Memᴰ.not-nil m))

-- In a map, `fuse_node` on a node with one premise returns the map without the node, where each
-- other node has its first premise that was this node led past it, with the composed pairs.
pub fuse_node-eq :
    (idx : ℕ) (tags : List Tag) (s : Premise) (p : AbstractProof)
    → IsMap p
    → fuse_node idx (record { tags = tags; subg = s ∷ [] }) p
      ≡ some (remove idx (map_premises (map_first (leads_to idx) (bypass s)) p))
unfolding fuse_node
fuse_node-eq idx tags s p d =
    rw
      (iter-map_premises (lead_past idx s) (map_first (leads_to idx) (bypass s))
        (lead_past-append idx s) [] p d (λ i k (n, m). absurd (Memᴰ.not-nil m)))
      refl
