-- ===== src/ProofFile/Bindings.antt =====
-- The new bindings that a line makes (src/generic/checkproof.ml).
use cyclist.Base.{
  ℕ, true, Option, none, some, List, Memᴰ, ◌≡◌, ◌≢◌, ◌↔◌, ◌⊎◌, inl, inr, refl, sym, ap, ◌∙◌, subst,
  ◌==◌, ==_iff, Bool-cases, some_injective, nat_eq, contains_iff, arith,
}
use mathlib.Core.List.Memᴰ
use cyclist.Proof.{Tag}
use cyclist.Minimize.{TagPairs}
use cyclist.ProofFile.{Line, Entry, NodeMap, projectl, all_pairs, with_premise, with_tags, is_new}
use cyclist.ProofFile.Entries.{
  get, put, mem-union_tags, mem-projectl, PairFits, EntryFits, get-put_same, get-put_other, Has,
  Holds,
}

-- The old premises and tags of a binding that may be missing.
abbrev Keeps : Option Entry → Entry → Type 0
Keeps old v = (e : Entry) → old ≡ some e → (t : Tag) → Memᴰ t e.tags → Memᴰ t v.tags

pub with_premise-Keeps : (line : Line) (old : Option Entry) → Keeps old (with_premise line old)
unfolding with_premise
with_premise-Keeps line none e h t m = cc
with_premise-Keeps line (some x) e h t m =
    mem-union_tags (projectl (all_pairs line)) x.tags t
      (inr (subst (λ (y : Entry). Memᴰ t y.tags) (sym (some_injective h)) m))

pub with_tags-Keeps : (ts : List Tag) (old : Option Entry) → Keeps old (with_tags ts old)
unfolding with_tags
with_tags-Keeps ts none e h t m = cc
with_tags-Keeps ts (some x) e h t m =
    mem-union_tags ts x.tags t
      (inr (subst (λ (y : Entry). Memᴰ t y.tags) (sym (some_injective h)) m))

pub with_tags-new :
    (ts : List Tag) (old : Option Entry) (t : Tag) → Memᴰ t ts → Memᴰ t (with_tags ts old).tags
unfolding with_tags
with_tags-new ts none t m = m
with_tags-new ts (some x) t m = mem-union_tags ts x.tags t (inl m)

pub with_premise-new :
    (line : Line) (old : Option Entry) (k l : Tag)
    → Memᴰ (k, l) (all_pairs line)
    → Memᴰ k (with_premise line old).tags
unfolding with_premise
with_premise-new line none k l m = mem-projectl (all_pairs line) k l m
with_premise-new line (some x) k l m =
    mem-union_tags (projectl (all_pairs line)) x.tags k (inl (mem-projectl (all_pairs line) k l m))

pub with_premise-EntryFits :
    (m' : NodeMap) (line : Line) (old : Option Entry)
    → is_new line.dest old ≡ true
    → PairFits m' (with_premise line old).tags line.dest (all_pairs line, line.prog)
    → ((e : Entry) → old ≡ some e → EntryFits m' (with_premise line old).tags e.premises e.tps)
    → EntryFits m'
        (with_premise line old).tags
        (with_premise line old).premises
        (with_premise line old).tps
unfolding with_premise
with_premise-EntryFits m' line none new fits rest = ((λ m. Memᴰ.not-nil m), fits, tt)
with_premise-EntryFits m' line (some e) new fits rest = (
  λ m. ground (arith, new, (contains_iff ⦃e = nat_eq⦄ line.dest e.premises).1 m),
  fits,
  rest e refl,
)

pub with_tags-EntryFits :
    (m' : NodeMap) (ts : List Tag) (old : Option Entry)
    → ((e : Entry) → old ≡ some e → EntryFits m' (with_tags ts old).tags e.premises e.tps)
    → EntryFits m' (with_tags ts old).tags (with_tags ts old).premises (with_tags ts old).tps
unfolding with_tags
with_tags-EntryFits m' ts none rest = tt
with_tags-EntryFits m' ts (some e) rest = rest e refl

pub with_premise-premises :
    (line : Line) (old : Option Entry) (j : ℕ)
    → Memᴰ j (with_premise line old).premises
    → (j ≡ line.dest) ⊎ ((e : Entry) × (old ≡ some e) × Memᴰ j e.premises)
unfolding with_premise
with_premise-premises line none j q = inl (Memᴰ.eq_of_singleton q)
with_premise-premises line (some e) j q = elim (Memᴰ.cases_cons q) [
  | inl here ↦ inl here
  | inr later ↦ inr (e, refl, later)
]

pub with_tags-premises :
    (ts : List Tag) (old : Option Entry) (j : ℕ)
    → Memᴰ j (with_tags ts old).premises
    → (e : Entry) × (old ≡ some e) × Memᴰ j e.premises
unfolding with_tags
with_tags-premises ts none j q = absurd (Memᴰ.not-nil q)
with_tags-premises ts (some e) j q = (e, refl, q)

pub with_premise-Has :
    (line : Line) (old : Option Entry) (j : ℕ) (u : TagPairs × TagPairs)
    → Has (with_premise line old).premises (with_premise line old).tps j u ↔ (
        ((j ≡ line.dest) × (u ≡ (all_pairs line, line.prog)))
        ⊎ ((e : Entry) × (old ≡ some e) × Has e.premises e.tps j u))
unfolding with_premise
with_premise-Has line none j u =
    (elim [ inl h ↦ inl h | inr h ↦ absurd h ], elim [ inl h ↦ inl h | inr (e, h, _) ↦ cc ])
with_premise-Has line (some x) j u = (
  elim [ inl h ↦ inl h | inr h ↦ inr (x, refl, h) ],
  elim [
    | inl h ↦ inl h
    | inr (e, h, k) ↦
        inr (subst (λ (y : Entry). Has y.premises y.tps j u) (sym (some_injective h)) k)
  ],
)

pub with_tags-Has :
    (ts : List Tag) (old : Option Entry) (j : ℕ) (u : TagPairs × TagPairs)
    → Has (with_tags ts old).premises (with_tags ts old).tps j u
      ↔ ((e : Entry) × (old ≡ some e) × Has e.premises e.tps j u)
unfolding with_tags
with_tags-Has ts none j u = (λ h. absurd h, λ (e, h, _). cc)
with_tags-Has ts (some x) j u = (
  λ h. (x, refl, h),
  λ (e, h, k). subst (λ (y : Entry). Has y.premises y.tps j u) (sym (some_injective h)) k,
)

-- A binding that is written over.
pub Holds-put :
    (k : ℕ) (v : Entry) (m : NodeMap) (i j : ℕ) (u : TagPairs × TagPairs)
    → Holds (put k v m) i j u ↔ (((i ≡ k) × Has v.premises v.tps j u) ⊎ ((i ≢ k) × Holds m i j u))
Holds-put k v m i j u = elim (Bool-cases (i == k)) [
  | inl same ↦
      let e' = (==_iff i k).0 same in
      (
        λ (e, h, q).
            let is_v : e ≡ v =
              some_injective (sym h ∙ ap (get (put k v m)) e' ∙ get-put_same k v m) in
            inl (e', subst (λ (y : Entry). Has y.premises y.tps j u) is_v q),
        elim [
          | inl (_, q) ↦ (v, ap (get (put k v m)) e' ∙ get-put_same k v m, q)
          | inr (differs, _) ↦ absurd (differs e')
        ],
      )
  | inr other ↦
      let e' = get-put_other i k v m other in
      (
        λ (e, h, q). inr ((λ same. cc (other, (==_iff i k).1 same)), (e, sym e' ∙ h, q)),
        elim [
          | inl (same, _) ↦ cc (other, (==_iff i k).1 same)
          | inr (_, (e, h, q)) ↦ (e, e' ∙ h, q)
        ],
      )
]
