-- ===== src/ProofFile/Entries.antt =====
-- The map of entries, line by line (src/generic/checkproof.ml).
use cyclist.Base.{
  ℕ, false, Option, none, some, List, [], ◌∷◌, Memᴰ, ◌≡◌, ◌↔◌, ◌⊎◌, inl, inr, refl, sym, ap, ◌∙◌,
  ◌==◌, ==_iff, Bool-cases, nat_eq, insert, mem-insert, lookup, assign, lookup-assign,
}
use cyclist.Proof.{Tag}
use cyclist.Soundcheck.{pair_eq}
use cyclist.Minimize.{TagPairs, add_pair}
use cyclist.Minimize.Pairs.{mem-fold}
use cyclist.ProofFile.{Line, Entry, NodeMap, union_tags, union_pairs, projectl, projectr, all_pairs}

abbrev pub get : NodeMap → ℕ → Option Entry
get m i = lookup ⦃e = nat_eq⦄ i m

abbrev pub put : ℕ → Entry → NodeMap → NodeMap
put k e m = assign ⦃e = nat_eq⦄ k e m

pub mem-union_tags :
    (xs ys : List Tag) (k : Tag) → Memᴰ k xs ⊎ Memᴰ k ys → Memᴰ k (union_tags xs ys)
unfolding union_tags
mem-union_tags xs ys k h =
    (mem-fold (λ x s. insert ⦃e = nat_eq⦄ x s) (λ x y. y ≡ x)
        (λ x a y. mem-insert ⦃e = nat_eq⦄ y x a) xs ys k).1
      (elim h [ inl m ↦ inl (k, m, refl) | inr m ↦ inr m ])

pub mem-union_pairs : (xs ys : TagPairs) (x : Tag × Tag) → Memᴰ x ys → Memᴰ x (union_pairs xs ys)
unfolding union_pairs
mem-union_pairs xs ys x h =
    (mem-fold add_pair (λ z y. y ≡ z) (λ z a y. mem-insert ⦃e = pair_eq⦄ y z a) xs ys x).1 (inr h)

pub mem-projectl : (tps : TagPairs) (k l : Tag) → Memᴰ (k, l) tps → Memᴰ k (projectl tps)
unfolding projectl
mem-projectl tps k l h =
    (mem-fold (λ (x : Tag × Tag) s. insert ⦃e = nat_eq⦄ x.0 s) (λ x y. y ≡ x.0)
        (λ x a y. mem-insert ⦃e = nat_eq⦄ y x.0 a) tps [] k).1
      (inl ((k, l), h, refl))

pub mem-projectr : (tps : TagPairs) (k l : Tag) → Memᴰ (k, l) tps → Memᴰ l (projectr tps)
unfolding projectr
mem-projectr tps k l h =
    (mem-fold (λ (x : Tag × Tag) s. insert ⦃e = nat_eq⦄ x.1 s) (λ x y. y ≡ x.1)
        (λ x a y. mem-insert ⦃e = nat_eq⦄ y x.1 a) tps [] l).1
      (inl ((k, l), h, refl))

-- The pairs of a premise lie in the tags of its two nodes.
pub record PairFits (m : NodeMap) (ts : List Tag) (j : ℕ) (t : TagPairs × TagPairs) : Type 0 where
  pub progress_in : (x : Tag × Tag) → Memᴰ x t.1 → Memᴰ x t.0
  pub target : Entry
  pub bound : get m j ≡ some target
  pub inside : (k l : Tag) → Memᴰ (k, l) t.0 → Memᴰ k ts × Memᴰ l target.tags

-- The premises are different and each has its pairs.
abbrev pub EntryFits : NodeMap → List Tag → List ℕ → List (TagPairs × TagPairs) → Type 0
EntryFits m ts [] [] = Unit {0}
EntryFits m ts [] (t ∷ tps) = ⊥
EntryFits m ts (j ∷ js) [] = ⊥
EntryFits m ts (j ∷ js) (t ∷ tps) = (¬ Memᴰ j js) × PairFits m ts j t × EntryFits m ts js tps

-- No binding or tag is lost.
abbrev pub Extends : NodeMap → NodeMap → Type 0
Extends m m' =
    (i : ℕ) (e : Entry)
    → get m i ≡ some e
    → (e' : Entry) × (get m' i ≡ some e') × ((k : Tag) → Memᴰ k e.tags → Memᴰ k e'.tags)

pub EntryFits-Extends :
    (m m' : NodeMap) (ts ts' : List Tag) (js : List ℕ) (tps : List (TagPairs × TagPairs))
    → Extends m m'
    → ((k : Tag) → Memᴰ k ts → Memᴰ k ts')
    → EntryFits m ts js tps
    → EntryFits m' ts' js tps
EntryFits-Extends m m' ts ts' [] [] more tags f = tt
EntryFits-Extends m m' ts ts' [] (t ∷ tps) more tags f = f
EntryFits-Extends m m' ts ts' (j ∷ js) [] more tags f = f
EntryFits-Extends m m' ts ts' (j ∷ js) (t ∷ tps) more tags (new, fits, rest) =
    let (e', found, kept) = more j fits.target fits.bound in
    (
      new,
      record {
        progress_in = fits.progress_in;
        target = e';
        bound = found;
        inside = λ k l m. let (left, right) = fits.inside k l m in (tags k left, kept l right);
      },
      EntryFits-Extends m m' ts ts' js tps more tags rest,
    )

pub get-put_same : (k : ℕ) (v : Entry) (m : NodeMap) → get (put k v m) k ≡ some v
get-put_same k v m = rw (lookup-assign ⦃e = nat_eq⦄ k k v m, (==_iff k k).1 refl) refl

pub get-put_other :
    (i k : ℕ) (v : Entry) (m : NodeMap) → (i == k) ≡ false → get (put k v m) i ≡ get m i
get-put_other i k v m h = rw (lookup-assign ⦃e = nat_eq⦄ i k v m, h) refl

pub Extends-put :
    (k : ℕ) (v : Entry) (m : NodeMap)
    → ((e : Entry) → get m k ≡ some e → (t : Tag) → Memᴰ t e.tags → Memᴰ t v.tags)
    → Extends m (put k v m)
Extends-put k v m kept i e h = elim (Bool-cases (i == k)) [
  | inl same ↦
      let e' = (==_iff i k).0 same in
      (v, rw e' (get-put_same k v m), kept e (ap (get m) (sym e') ∙ h))
  | inr other ↦ (e, get-put_other i k v m other ∙ h, λ t q. q)
]

-- Each key is bound once.
abbrev pub UniqueKeys : NodeMap → Type 0
UniqueKeys [] = Unit {0}
UniqueKeys ((i, e) ∷ m) = (get m i ≡ none) × UniqueKeys m

pub UniqueKeys-put : (k : ℕ) (v : Entry) (m : NodeMap) → UniqueKeys m → UniqueKeys (put k v m)
unfolding assign lookup
UniqueKeys-put k v [] u = (refl, tt)
UniqueKeys-put k v ((j, e) ∷ m) u = elim (Bool-cases (k == j)) [
  | inl same ↦ rw same (ap (get m) ((==_iff k j).0 same) ∙ u.0, u.1)
  | inr other ↦
      let swapped : (j == k) ≡ false = elim (Bool-cases (j == k)) [
        | inl hit ↦ cc (other, (==_iff k j).1 (sym ((==_iff j k).0 hit)))
        | inr miss ↦ miss
      ] in
      rw other (get-put_other j k v m swapped ∙ u.0, UniqueKeys-put k v m u.1)
]

-- The premise `j` with the pairs `u`.
abbrev pub Has : List ℕ → List (TagPairs × TagPairs) → ℕ → TagPairs × TagPairs → Type 0
Has [] tps j u = ⊥
Has (i ∷ js) [] j u = ⊥
Has (i ∷ js) (t ∷ tps) j u = ((j ≡ i) × (u ≡ t)) ⊎ Has js tps j u

abbrev pub Holds : NodeMap → ℕ → ℕ → TagPairs × TagPairs → Type 0
Holds m i j u = (e : Entry) × (get m i ≡ some e) × Has e.premises e.tps j u

-- A line gives a premise and its pairs.
abbrev pub Given : List Line → ℕ → ℕ → TagPairs × TagPairs → Type 0
Given lines i j u =
    (line : Line) × Memᴰ line lines
    × (line.src ≡ i)
    × (line.dest ≡ j)
    × (u ≡ (all_pairs line, line.prog))

pub record IsNodeMap (m : NodeMap) (done : List Line) : Type 0 where
  pub keys : UniqueKeys m
  pub fits : (i : ℕ) (e : Entry) → get m i ≡ some e → EntryFits m e.tags e.premises e.tps
  pub seen :
      (i : ℕ) (e : Entry) (j : ℕ)
      → get m i ≡ some e
      → Memᴰ j e.premises
      → (line : Line) × Memᴰ line done × (line.src ≡ i) × (line.dest ≡ j)
  pub exact : (i j : ℕ) (u : TagPairs × TagPairs) → Holds m i j u ↔ Given done i j u
