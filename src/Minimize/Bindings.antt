-- ===== src/Minimize/Bindings.antt =====
-- The bindings of an abstract proof from which a node was removed, or whose premises were changed
-- (src/generic/soundcheck.ml).
use cyclist.Base.{
  ℕ, suc, ◌≤◌, List, [], ◌∷◌, Memᴰ, ◌≡◌, ◌≢◌, ◌↔◌, refl, sym, ap, subst, ◌∙◌, ◌==◌, Bool-cases, inl,
  inr, ==_iff, length, arith,
}
use mathlib.Core.List.Memᴰ
use cyclist.Soundcheck.{AbstractProof, AbstractNode, Premise}
use cyclist.Soundcheck.Meaning.{IsNode}
use cyclist.Soundcheck.Ready.{IsMap}
use cyclist.Minimize.{with_subg}
use cyclist.Minimize.Maps.{remove}

-- Each node with its premises changed.
abbrev pub map_premises : (List Premise → List Premise) → AbstractProof → AbstractProof
map_premises g [] = []
map_premises g ((i, n) ∷ p) = (i, with_subg n (g n.subg)) ∷ map_premises g p

pub mem-remove :
    (k : ℕ) (p : AbstractProof) (i : ℕ) (n : AbstractNode)
    → Memᴰ (i, n) (remove k p) ↔ (Memᴰ (i, n) p × (i ≢ k))
unfolding remove
mem-remove k [] i n = (λ m. absurd (Memᴰ.not-nil m), λ (m, _). m)
mem-remove k ((j, w) ∷ p) i n =
    let ih = mem-remove k p i n in
    elim (Bool-cases (k == j)) [
      | inl same ↦
          let e = (==_iff k j).0 same in
          rw same (
            λ m. (Memᴰ.tail (ih.0 m).0, (ih.0 m).1),
            λ (m, other). elim (Memᴰ.cases_cons m) [
              | inl here ↦ absurd (other (ap (λ (q : ℕ × AbstractNode). q.0) here ∙ sym e))
              | inr later ↦ ih.1 (later, other)
            ],
          )
      | inr differs ↦ rw differs (
        λ m. elim (Memᴰ.cases_cons m) [
          | inl here ↦ (
            Memᴰ.head here,
            λ e. cc (differs, (==_iff k j).1 (sym e ∙ ap (λ (q : ℕ × AbstractNode). q.0) here)),
          )
          | inr later ↦ (Memᴰ.tail (ih.0 later).0, (ih.0 later).1)
        ],
        λ (m, other). elim (Memᴰ.cases_cons m) [
          | inl here ↦ Memᴰ.head here
          | inr later ↦ Memᴰ.tail (ih.1 (later, other))
        ],
      )
    ]

pub mem-map_premises :
    (g : List Premise → List Premise) (p : AbstractProof) (i : ℕ) (n : AbstractNode)
    → Memᴰ (i, n) (map_premises g p)
      ↔ ((w : AbstractNode) × Memᴰ (i, w) p × (n ≡ with_subg w (g w.subg)))
mem-map_premises g [] i n = (λ m. absurd (Memᴰ.not-nil m), λ (w, m, _). absurd (Memᴰ.not-nil m))
mem-map_premises g ((j, w) ∷ p) i n =
    let ih = mem-map_premises g p i n in
    (
      λ m. elim (Memᴰ.cases_cons m) [
        | inl here ↦ (
          w,
          Memᴰ.head (λ k. (ap (λ (q : ℕ × AbstractNode). q.0) here k, w)),
          ap (λ (q : ℕ × AbstractNode). q.1) here,
        )
        | inr later ↦ let (w', k, e) = ih.0 later in (w', Memᴰ.tail k, e)
      ],
      λ (w', m, e). elim (Memᴰ.cases_cons m) [
        | inl here ↦
            let same : w' ≡ w = ap (λ (q : ℕ × AbstractNode). q.1) here in
            let e' : n ≡ with_subg w (g w.subg) =
              subst (λ (q : AbstractNode). n ≡ with_subg q (g q.subg)) same e in
            Memᴰ.head (λ k. (ap (λ (q : ℕ × AbstractNode). q.0) here k, e' k))
        | inr later ↦ Memᴰ.tail (ih.1 (w', later, e))
      ],
    )

pub remove-IsMap : (k : ℕ) (p : AbstractProof) → IsMap p → IsMap (remove k p)
unfolding remove
remove-IsMap k [] d = tt
remove-IsMap k ((j, w) ∷ p) d = elim (Bool-cases (k == j)) [
  | inl same ↦ rw same (remove-IsMap k p d.1)
  | inr differs ↦
      rw differs ((λ (n, m). d.0 (n, ((mem-remove k p j n).0 m).0)), remove-IsMap k p d.1)
]

pub map_premises-IsMap :
    (g : List Premise → List Premise) (p : AbstractProof) → IsMap p → IsMap (map_premises g p)
map_premises-IsMap g [] d = tt
map_premises-IsMap g ((j, w) ∷ p) d = (
  λ (n, m). let (w', k, _) = (mem-map_premises g p j n).0 m in d.0 (w', k),
  map_premises-IsMap g p d.1,
)

-- A number is bound to one node.
pub IsMap-unique :
    (p : AbstractProof) (i : ℕ) (n w : AbstractNode)
    → IsMap p
    → Memᴰ (i, n) p
    → Memᴰ (i, w) p
    → n ≡ w
IsMap-unique [] i n w d m k = absurd (Memᴰ.not-nil m)
IsMap-unique ((j, v) ∷ p) i n w d m k = elim (Memᴰ.cases_cons m) [
  | inl here ↦ elim (Memᴰ.cases_cons k) [
    | inl here' ↦
        cc (ap (λ (q : ℕ × AbstractNode). q.1) here, ap (λ (q : ℕ × AbstractNode). q.1) here')
    | inr later ↦
        absurd (d.0 (w, subst (λ q. Memᴰ (q, w) p) (ap (λ (q : ℕ × AbstractNode). q.0) here) later))
  ]
  | inr later ↦ elim (Memᴰ.cases_cons k) [
    | inl here ↦
        absurd (d.0 (n, subst (λ q. Memᴰ (q, n) p) (ap (λ (q : ℕ × AbstractNode). q.0) here) later))
    | inr later' ↦ IsMap-unique p i n w d.1 later later'
  ]
]

pub length-map_premises :
    (g : List Premise → List Premise) (p : AbstractProof) → length (map_premises g p) ≡ length p
length-map_premises g [] = refl
length-map_premises g (x ∷ p) = ap suc (length-map_premises g p)

-- Removing a node makes the map smaller.
length-remove-le : (k : ℕ) (p : AbstractProof) → length (remove k p) ≤ length p
unfolding remove
length-remove-le k [] = omega arith
length-remove-le k ((j, w) ∷ p) = ground (arith, length-remove-le k p)

pub length-remove-lt :
    (k : ℕ) (p : AbstractProof) → IsNode p k → suc (length (remove k p)) ≤ length p
unfolding remove
length-remove-lt k [] (n, m) = absurd (Memᴰ.not-nil m)
length-remove-lt k ((j, w) ∷ p) (n, m) = elim (Bool-cases (k == j)) [
  | inl same ↦ let le = length-remove-le k p in rw same (omega arith)
  | inr differs ↦ elim (Memᴰ.cases_cons m) [
    | inl here ↦ cc (differs, (==_iff k j).1 (ap (λ (q : ℕ × AbstractNode). q.0) here))
    | inr later ↦ let ih = length-remove-lt k p (n, later) in rw differs (omega arith)
  ]
]
