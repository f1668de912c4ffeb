-- ===== src/ProofFile/Abstract.antt =====
-- The abstract proof that is made of the map of entries (src/generic/checkproof.ml).
use cyclist.Base.{
  ℕ, none, some, List, [], ◌∷◌, Memᴰ, ◌≡◌, ◌↔◌, inl, inr, refl, sym, ap, ◌∙◌, subst, ◌==◌, ==_iff,
  Bool-cases, nat_eq, lookup, arith,
}
use mathlib.Core.List.Memᴰ
use cyclist.Proof.{Tag}
use cyclist.Soundcheck.{AbstractProof, AbstractNode, Premise}
use cyclist.Soundcheck.Ready.{IsMap}
use cyclist.Minimize.{TagPairs}
use cyclist.Minimize.Premises.{DistinctChildren}
use cyclist.ProofTree.Proofnode.{map2, mk_abs_node}
use cyclist.ProofFile.{Entry, NodeMap, abstract_nodes}
use cyclist.ProofFile.Entries.{get, PairFits, EntryFits, UniqueKeys, Has}

-- The premise of `mk_abs_node`.
abbrev premise : ℕ → TagPairs × TagPairs → Premise
premise i t = record { child = i; tag_pairs = t.0; progress = t.1 }

-- The premises of an entry, as `mk_abs_node` makes them.
pub record Zipped (m : NodeMap) (ts : List Tag) (js : List ℕ) (tps : List (TagPairs × TagPairs))
    (subg : List Premise) : Type 0 where
  pub distinct : DistinctChildren subg
  pub children : (s : Premise) → Memᴰ s subg → Memᴰ s.child js
  pub fit : (s : Premise) → Memᴰ s subg → PairFits m ts s.child (s.tag_pairs, s.progress)
  pub exactly : (s : Premise) → Memᴰ s subg ↔ Has js tps s.child (s.tag_pairs, s.progress)

zips :
    (m : NodeMap) (ts : List Tag) (js : List ℕ) (tps : List (TagPairs × TagPairs))
    → EntryFits m ts js tps
    → (subg : List Premise) × (map2 premise js tps ≡ some subg) × Zipped m ts js tps subg
unfolding map2
zips m ts [] [] f = (
  [],
  refl,
  record {
    distinct = tt;
    children = λ s k. absurd (Memᴰ.not-nil k);
    fit = λ s k. absurd (Memᴰ.not-nil k);
    exactly = λ s. (λ k. absurd (Memᴰ.not-nil k), λ k. absurd k);
  },
)
zips m ts [] (t ∷ tps) f = absurd f
zips m ts (j ∷ js) [] f = absurd f
zips m ts (j ∷ js) (t ∷ tps) (new, fits, rest) =
    let (subg, runs, z) = zips m ts js tps rest in
    (
      premise j t ∷ subg,
      rw runs refl,
      record {
        distinct = ((λ s k e. new (subst (λ (i : ℕ). Memᴰ i js) e (z.children s k))), z.distinct);
        children = λ s k. elim (Memᴰ.cases_cons k) [
          | inl here ↦ Memᴰ.head (ap (λ (x : Premise). x.child) here)
          | inr later ↦ Memᴰ.tail (z.children s later)
        ];
        fit = λ s k. elim (Memᴰ.cases_cons k) [
          | inl here ↦
              subst (λ (x : Premise). PairFits m ts x.child (x.tag_pairs, x.progress)) (sym here)
                fits
          | inr later ↦ z.fit s later
        ];
        exactly = λ s. (
          λ k. elim (Memᴰ.cases_cons k) [
            | inl here ↦ inl (
              ap (λ (x : Premise). x.child) here,
              ap (λ (x : Premise). (x.tag_pairs, x.progress)) here,
            )
            | inr later ↦ inr ((z.exactly s).0 later)
          ],
          elim [
            | inl (a, b) ↦ Memᴰ.head (λ i. premise (a i) (b i))
            | inr later ↦ Memᴰ.tail ((z.exactly s).1 later)
          ],
        );
      },
    )

-- A node of the abstract proof, and the entry it is made of.
pub record Comes (m n : NodeMap) (i : ℕ) (b : AbstractNode) : Type 0 where
  pub entry : Entry
  pub bound : Memᴰ (i, entry) n
  pub same_tags : b.tags ≡ entry.tags
  pub zipped : Zipped m entry.tags entry.premises entry.tps b.subg

pub record IsAbstraction (m n : NodeMap) (p : AbstractProof) : Type 0 where
  pub comes : (i : ℕ) (b : AbstractNode) → Memᴰ (i, b) p → Comes m n i b
  pub covers :
      (i : ℕ) (e : Entry) → Memᴰ (i, e) n → (b : AbstractNode) × Memᴰ (i, b) p × (b.tags ≡ e.tags)
  pub one_each : UniqueKeys n → IsMap p

-- A missing key is in no binding.
missing : (n : NodeMap) (i : ℕ) (e : Entry) → get n i ≡ none → ¬ Memᴰ (i, e) n
unfolding lookup
missing [] i e h k = Memᴰ.not-nil k
missing ((j, x) ∷ n) i e h k = elim (Bool-cases (i == j)) [
  | inl same ↦ ground (arith, same)
  | inr other ↦ elim (Memᴰ.cases_cons k) [
    | inl here ↦ cc (other, (==_iff i j).1 (ap (λ (q : ℕ × Entry). q.0) here))
    | inr later ↦ missing n i e (ground (arith, other)) later
  ]
]

pub mem-get : (n : NodeMap) (i : ℕ) (e : Entry) → UniqueKeys n → Memᴰ (i, e) n → get n i ≡ some e
unfolding lookup
mem-get [] i e u k = absurd (Memᴰ.not-nil k)
mem-get ((j, x) ∷ n) i e u k = elim (Memᴰ.cases_cons k) [
  | inl here ↦
      rw ((==_iff i j).1 (ap (λ (q : ℕ × Entry). q.0) here))
        (ap (λ (q : ℕ × Entry). some q.1) (sym here))
  | inr later ↦ elim (Bool-cases (i == j)) [
    | inl same ↦ absurd (missing n i e (ap (get n) ((==_iff i j).0 same) ∙ u.0) later)
    | inr other ↦ rw other (mem-get n i e u.1 later)
  ]
]

pub get-mem : (n : NodeMap) (i : ℕ) (e : Entry) → get n i ≡ some e → Memᴰ (i, e) n
unfolding lookup
get-mem [] i e h = cc
get-mem ((j, x) ∷ n) i e h = elim (Bool-cases (i == j)) [
  | inl same ↦
      let a = (==_iff i j).0 same in
      let b : e ≡ x = ground (arith, same) in Memᴰ.head (λ k. (a k, b k))
  | inr other ↦ Memᴰ.tail (get-mem n i e (ground (arith, other)))
]

pub abstract_nodes-IsAbstraction :
    (m n : NodeMap)
    → ((i : ℕ) (e : Entry) → Memᴰ (i, e) n → EntryFits m e.tags e.premises e.tps)
    → (p : AbstractProof) × (abstract_nodes n ≡ some p) × IsAbstraction m n p
unfolding abstract_nodes mk_abs_node
abstract_nodes-IsAbstraction m [] fits = (
  [],
  refl,
  record {
    comes = λ i b k. absurd (Memᴰ.not-nil k);
    covers = λ i e k. absurd (Memᴰ.not-nil k);
    one_each = λ u. tt;
  },
)
abstract_nodes-IsAbstraction m ((i, e) ∷ n) fits =
    let (p, runs, rest) = abstract_nodes-IsAbstraction m n (λ j x k. fits j x (Memᴰ.tail k)) in
    let (subg, makes, z) = zips m e.tags e.premises e.tps (fits i e (Memᴰ.head refl)) in
    let node : AbstractNode = record { tags = e.tags; subg = subg } in
    (
      (i, node) ∷ p,
      rw (makes, runs) refl,
      record {
        comes = λ j b k. elim (Memᴰ.cases_cons k) [
          | inl here ↦ record {
            entry = e;
            bound = Memᴰ.head (ap (λ (x : ℕ × AbstractNode). (x.0, e)) here);
            same_tags = ap (λ (x : ℕ × AbstractNode). x.1.tags) here;
            zipped =
                subst (λ (x : AbstractNode). Zipped m e.tags e.premises e.tps x.subg)
                  (sym (ap (λ (x : ℕ × AbstractNode). x.1) here)) z;
          }
          | inr later ↦
              let old = rest.comes j b later in
              record {
                entry = old.entry;
                bound = Memᴰ.tail old.bound;
                same_tags = old.same_tags;
                zipped = old.zipped;
              }
        ];
        covers = λ j x k. elim (Memᴰ.cases_cons k) [
          | inl here ↦ (
            node,
            Memᴰ.head (ap (λ (y : ℕ × Entry). (y.0, node)) here),
            ap (λ (y : ℕ × Entry). y.1.tags) (sym here),
          )
          | inr later ↦ let (b, k', same) = rest.covers j x later in (b, Memᴰ.tail k', same)
        ];
        one_each = λ u. (
          λ (b, k). let c = rest.comes i b k in missing n i c.entry u.0 c.bound,
          rest.one_each u.1,
        );
      },
    )
