-- ===== src/ProofFile/Reading.antt =====
-- Lines that do not repeat a source and a target are all added (src/generic/checkproof.ml).
use cyclist.Base.{
  true, some, List, [], ◌∷◌, Memᴰ, ◌≡◌, ◌≢◌, ◌↔◌, ◌⊎◌, inl, inr, refl, sym, ap, ◌∙◌, Bool-cases,
  Option-cases, nat_eq, contains, contains_iff,
}
use mathlib.Core.List.Memᴰ
use cyclist.ProofFile.{Line, NodeMap, is_new, added, add_entry, add_entries}
use cyclist.ProofFile.Entries.{get, Extends, IsNodeMap}
use cyclist.ProofFile.Adding.{added-IsNodeMap, added-Extends}

-- A new source and target is no premise yet.
pub is_new-fresh :
    (m : NodeMap) (done : List Line) (line : Line)
    → IsNodeMap m done
    → ((l : Line) → Memᴰ l done → l.src ≡ line.src → l.dest ≢ line.dest)
    → is_new line.dest (get m line.src) ≡ true
is_new-fresh m done line good fresh = elim (Option-cases (get m line.src)) [
  | inl missing ↦ rw missing refl
  | inr (e, found) ↦ elim (Bool-cases (contains ⦃e = nat_eq⦄ line.dest e.premises)) [
    | inl old ↦
        let (l, k, a, b) =
          good.seen line.src e line.dest found
            ((contains_iff ⦃e = nat_eq⦄ line.dest e.premises).0 old) in
        absurd (fresh l k a b)
    | inr new ↦ rw (found, new) refl
  ]
]

-- No two lines have the same source and target.
abbrev pub AreDistinct : List Line → Type 0
AreDistinct [] = Unit {0}
AreDistinct (line ∷ lines) =
    ((l : Line) → Memᴰ l lines → l.src ≡ line.src → l.dest ≢ line.dest) × AreDistinct lines

-- The lines read so far differ from those to come.
abbrev AreApart : List Line → List Line → Type 0
AreApart done lines = (x y : Line) → Memᴰ x done → Memᴰ y lines → x.src ≡ y.src → x.dest ≢ y.dest

pub add_entries-IsNodeMap :
    (lines done : List Line) (m : NodeMap)
    → IsNodeMap m done
    → AreDistinct lines
    → AreApart done lines
    → (m' : NodeMap) × (all : List Line) × (add_entries lines m ≡ some m')
      × IsNodeMap m' all
      × Extends m m'
      × ((l : Line) → Memᴰ l all ↔ (Memᴰ l done ⊎ Memᴰ l lines))
unfolding add_entries add_entry
add_entries-IsNodeMap [] done m good distinct apart = (
  m,
  done,
  refl,
  good,
  (λ i e h. (e, h, λ k q. q)),
  λ l. (inl, elim [ inl k ↦ k | inr k ↦ absurd (Memᴰ.not-nil k) ]),
)
add_entries-IsNodeMap (line ∷ lines) done m good distinct apart =
    let new = is_new-fresh m done line good (λ l k. apart l line k (Memᴰ.head refl)) in
    let good' = added-IsNodeMap m done line good new in
    let (m', all, runs, good'', more, read) =
      add_entries-IsNodeMap lines (line ∷ done) (added m line) good' distinct.1 (λ x y k q a b.
        elim (Memᴰ.cases_cons k) [
          | inl here ↦
              let same_src = ap (λ (l : Line). l.src) here in
              let same_dest = ap (λ (l : Line). l.dest) here in
              distinct.0 y q (sym a ∙ same_src) (sym b ∙ same_dest)
          | inr old ↦ apart x y old (Memᴰ.tail q) a b
        ]) in
    (
      m',
      all,
      rw new runs,
      good'',
      (λ i e h.
          let (e', h', kept) = added-Extends m done line good new i e h in
          let (e'', h'', kept') = more i e' h' in (e'', h'', λ k q. kept' k (kept k q))),
      λ l. (
        λ k. elim ((read l).0 k) [
          | inl old ↦ elim (Memᴰ.cases_cons old) [
            | inl here ↦ inr (Memᴰ.head here)
            | inr older ↦ inl older
          ]
          | inr later ↦ inr (Memᴰ.tail later)
        ],
        elim [
          | inl old ↦ (read l).1 (inl (Memᴰ.tail old))
          | inr k ↦ elim (Memᴰ.cases_cons k) [
            | inl here ↦ (read l).1 (inl (Memᴰ.head here))
            | inr later ↦ (read l).1 (inr later)
          ]
        ],
      ),
    )
