-- ===== src/ProofFile/Valid.antt =====
-- The abstract proof of the lines passes the tests of `valid` (src/generic/checkproof.ml).
use cyclist.Base.{
  ℕ, true, some, List, [], ◌∷◌, Memᴰ, ◌≡◌, ◌↔◌, inl, inr, refl, sym, ap, ◌∙◌, subst, some_injective,
  nat_eq, lookup,
}
use mathlib.Core.List.Memᴰ
use cyclist.Proof.{Tag}
use cyclist.Soundcheck.{AbstractProof, AbstractNode, Premise, valid}
use cyclist.Soundcheck.Valid.{HasPremise, IsClosed}
use cyclist.Soundcheck.Accepted.{IsClosed-valid}
use cyclist.Soundcheck.Ready.{IsMap}
use cyclist.Minimize.Premises.{DistinctChildren}
use cyclist.ProofFile.{Line, Entry, NodeMap, added, add_entry, add_entries, mk_prf}
use cyclist.ProofFile.Entries.{get, IsNodeMap, Has, Holds, Given}
use cyclist.ProofFile.Adding.{added-IsNodeMap, added-source}
use cyclist.ProofFile.Reading.{AreDistinct, is_new-fresh, add_entries-IsNodeMap}
use cyclist.ProofFile.Abstract.{IsAbstraction, mem-get, get-mem, abstract_nodes-IsAbstraction}

module _ (m : NodeMap) (all : List Line) (good : IsNodeMap m all) (p : AbstractProof)
    (abs : IsAbstraction m m p) (init : ℕ) (first : (e : Entry) × (get m init ≡ some e)) where
  abstract-IsClosed : IsClosed p init
  abstract-IsClosed = record {
    start = let (e, h) = first in let (b, k, _) = abs.covers init e (get-mem m init e h) in (b, k);
    child = λ i b s (k, q).
        let c = abs.comes i b k in
        let fits = c.zipped.fit s q in
        let (b', k', same') =
          abs.covers s.child fits.target (get-mem m s.child fits.target fits.bound) in
        (
          b',
          k',
          λ x y pair.
              let (left, right) = fits.inside x y pair in
              (
                subst (λ (ts : List Tag). Memᴰ x ts) (sym c.same_tags) left,
                subst (λ (ts : List Tag). Memᴰ y ts) (sym same') right,
              ),
        );
    progress_in = λ i b s (k, q). let c = abs.comes i b k in (c.zipped.fit s q).progress_in;
  }

  abstract-Holds :
      (i : ℕ) (s : Premise)
      → ((n : AbstractNode) × HasPremise p i n s) ↔ Holds m i s.child (s.tag_pairs, s.progress)
  abstract-Holds i s = (
    λ (n, (k, q)).
        let c = abs.comes i n k in
        (c.entry, mem-get m i c.entry good.keys c.bound, (c.zipped.exactly s).0 q),
    λ (e, h, q).
        let (b, k, _) = abs.covers i e (get-mem m i e h) in
        let c = abs.comes i b k in
        let same : e ≡ c.entry = some_injective (sym h ∙ mem-get m i c.entry good.keys c.bound) in
        (
          b,
          (
            k,
            (c.zipped.exactly s).1 (
                subst (λ (x : Entry). Has x.premises x.tps s.child (s.tag_pairs, s.progress)) same
                  q),
          ),
        ),
  )

  -- The premises are those of the lines `lines` with the elements of `all`.
  abstract-Given :
      (lines : List Line)
      → ((l : Line) → Memᴰ l all ↔ Memᴰ l lines)
      → (i : ℕ) (s : Premise)
      → ((n : AbstractNode) × HasPremise p i n s) ↔ Given lines i s.child (s.tag_pairs, s.progress)
  abstract-Given lines same i s =
      let held = abstract-Holds i s in
      let given = good.exact i s.child (s.tag_pairs, s.progress) in
      (
        λ h. let (l, k, a, b, c) = given.0 (held.0 h) in (l, (same l).0 k, a, b, c),
        λ (l, k, a, b, c). held.1 (given.1 (l, (same l).1 k, a, b, c)),
      )

empty-IsNodeMap : IsNodeMap [] []
unfolding lookup
empty-IsNodeMap = record {
  keys = tt;
  fits = λ i e h. cc;
  seen = λ i e j h. cc;
  exact = λ i j u. (λ (e, h, q). cc, λ (l, k, a, b, c). absurd (Memᴰ.not-nil k));
}

-- The abstract proof passes `valid`, binds each number once, has different premises at each node,
-- and its premises are those of the lines. The outer `check_proof` asks more of an initial node
-- that is not 0: see `IsKept`.
pub record IsListing (p : AbstractProof) (init : ℕ) (lines : List Line) : Type 0 where
  pub passes : valid p init ≡ true
  pub is_map : IsMap p
  pub distinct : (i : ℕ) (n : AbstractNode) → Memᴰ (i, n) p → DistinctChildren n.subg
  pub from_lines :
      (i : ℕ) (s : Premise)
      → ((n : AbstractNode) × HasPremise p i n s) ↔ Given lines i s.child (s.tag_pairs, s.progress)

-- On lines of which no two have the same source and target, and of which there is one, `mk_prf`
-- returns an abstract proof that passes `valid` for the source of the first line, binds each
-- number once, and has different premises at each node. A node has a premise exactly when a line
-- leads from the node to it with its pairs, where the progressing pairs count as valid.
pub mk_prf-IsListing :
    (line : Line) (lines : List Line)
    → AreDistinct (line ∷ lines)
    → (p : AbstractProof) × (mk_prf (line ∷ lines) ≡ some (p, line.src))
      × IsListing p line.src (line ∷ lines)
unfolding mk_prf add_entries add_entry
mk_prf-IsListing line lines distinct =
    let new = is_new-fresh [] [] line empty-IsNodeMap (λ l k. absurd (Memᴰ.not-nil k)) in
    let good = added-IsNodeMap [] [] line empty-IsNodeMap new in
    let (m, all, runs, good', more, read) =
      add_entries-IsNodeMap lines (line ∷ []) (added [] line) good distinct.1 (λ x y k q a b.
        let here = Memᴰ.eq_of_singleton k in
        distinct.0 y q (sym a ∙ ap (λ (l : Line). l.src) here)
          (sym b ∙ ap (λ (l : Line). l.dest) here)) in
    let (e, h) = added-source [] [] line empty-IsNodeMap new in
    let same_lines : (l : Line) → Memᴰ l all ↔ Memᴰ l (line ∷ lines) = λ l. (
      λ k. elim ((read l).0 k) [
        | inl first ↦ Memᴰ.head (Memᴰ.eq_of_singleton first)
        | inr later ↦ Memᴰ.tail later
      ],
      λ k.
          (read l).1
            (elim (Memᴰ.cases_cons k) [ inl here ↦ inl (Memᴰ.head here) | inr later ↦ inr later ]),
    ) in
    let (e', h', _) = more line.src e h in
    let (p, makes, abs) =
      abstract_nodes-IsAbstraction m m (λ i x k. good'.fits i x (mem-get m i x good'.keys k)) in
    let is_map = abs.one_each good'.keys in
    let closed = abstract-IsClosed m all good' p abs line.src (e', h') in
    (
      p,
      rw (new, runs, makes) refl,
      record {
        passes = IsClosed-valid p line.src is_map closed;
        is_map = is_map;
        distinct = λ i n k. (abs.comes i n k).zipped.distinct;
        from_lines = abstract-Given m all good' p abs line.src (e', h') (line ∷ lines) same_lines;
      },
    )
