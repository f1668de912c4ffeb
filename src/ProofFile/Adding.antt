-- ===== src/ProofFile/Adding.antt =====
-- One more line keeps the map of entries right (src/generic/checkproof.ml).
use cyclist.Base.{
  ℕ, true, some, List, ◌∷◌, Memᴰ, ◌≡◌, ◌↔◌, ◌⊎◌, inl, inr, refl, sym, ap, ◌∙◌, subst, ◌==◌, ==_iff,
  Bool-cases, some_injective, nat_eq,
}
use mathlib.Core.List.Memᴰ
use cyclist.Minimize.{TagPairs}
use cyclist.ProofFile.{
  Line, Entry, NodeMap, projectr, all_pairs, with_premise, with_tags, is_new, added,
}
use cyclist.ProofFile.Entries.{
  get, put, mem-union_pairs, mem-projectr, PairFits, EntryFits, Extends, EntryFits-Extends,
  get-put_same, get-put_other, Extends-put, UniqueKeys-put, IsNodeMap, Holds, Given,
}
use cyclist.ProofFile.Bindings.{
  with_premise-Keeps, with_tags-Keeps, with_tags-new, with_premise-new, with_premise-EntryFits,
  with_tags-EntryFits, with_premise-premises, with_tags-premises, with_premise-Has, with_tags-Has,
  Holds-put,
}

module _ (m : NodeMap) (done : List Line) (line : Line) (good : IsNodeMap m done)
    (new : is_new line.dest (get m line.src) ≡ true) where
  abbrev source_entry : Entry
  source_entry = with_premise line (get m line.src)

  abbrev halfway : NodeMap
  halfway = put line.src source_entry m

  abbrev target_entry : Entry
  target_entry = with_tags (projectr (all_pairs line)) (get halfway line.dest)

  added-parts : added m line ≡ put line.dest target_entry halfway
  unfolding added
  added-parts = refl

  abbrev whole : NodeMap
  whole = put line.dest target_entry halfway

  first_half : Extends m halfway
  first_half = Extends-put line.src source_entry m (with_premise-Keeps line (get m line.src))

  second_half : Extends halfway whole
  second_half =
      Extends-put line.dest target_entry halfway
        (with_tags-Keeps (projectr (all_pairs line)) (get halfway line.dest))

  both_halves : Extends m whole
  both_halves i e h =
      let (e', found, kept) = first_half i e h in
      let (e'', found', kept') = second_half i e' found in (e'', found', λ k q. kept' k (kept k q))

  new-PairFits : PairFits whole source_entry.tags line.dest (all_pairs line, line.prog)
  new-PairFits = record {
    progress_in = λ x q. mem-union_pairs line.nonprog line.prog x q;
    target = target_entry;
    bound = get-put_same line.dest target_entry halfway;
    inside = λ k l q. (
      with_premise-new line (get m line.src) k l q,
      with_tags-new (projectr (all_pairs line)) (get halfway line.dest) l
          (mem-projectr (all_pairs line) k l q),
    );
  }

  halfway-EntryFits :
      (i : ℕ) (e : Entry) → get halfway i ≡ some e → EntryFits whole e.tags e.premises e.tps
  halfway-EntryFits i e h = elim (Bool-cases (i == line.src)) [
    | inl same ↦
        let is_source : source_entry ≡ e = some_injective (
          sym (get-put_same line.src source_entry m)
          ∙ ap (get halfway) (sym ((==_iff i line.src).0 same))
          ∙ h) in
        subst (λ (x : Entry). EntryFits whole x.tags x.premises x.tps) is_source
          (with_premise-EntryFits whole line (get m line.src) new new-PairFits (λ x old.
            EntryFits-Extends m whole x.tags source_entry.tags x.premises x.tps both_halves
              (with_premise-Keeps line (get m line.src) x old) (good.fits line.src x old)))
    | inr other ↦
        let was = sym (get-put_other i line.src source_entry m other) ∙ h in
        EntryFits-Extends m whole e.tags e.tags e.premises e.tps both_halves (λ k q. q)
          (good.fits i e was)
  ]

  whole-EntryFits :
      (i : ℕ) (e : Entry) → get whole i ≡ some e → EntryFits whole e.tags e.premises e.tps
  whole-EntryFits i e h = elim (Bool-cases (i == line.dest)) [
    | inl same ↦
        let is_target : target_entry ≡ e = some_injective (
          sym (get-put_same line.dest target_entry halfway)
          ∙ ap (get whole) (sym ((==_iff i line.dest).0 same))
          ∙ h) in
        subst (λ (x : Entry). EntryFits whole x.tags x.premises x.tps) is_target
          (with_tags-EntryFits whole (projectr (all_pairs line)) (get halfway line.dest) (λ x old.
            EntryFits-Extends whole whole x.tags target_entry.tags x.premises x.tps
              (λ i' e' h'. (e', h', λ k q. q))
              (with_tags-Keeps (projectr (all_pairs line)) (get halfway line.dest) x old)
              (halfway-EntryFits line.dest x old)))
    | inr other ↦
        halfway-EntryFits i e (sym (get-put_other i line.dest target_entry halfway other) ∙ h)
  ]

  -- The premise of an entry, and the line that it is from.
  abbrev Seen : List Line → ℕ → ℕ → Type 0
  Seen lines i j = (l : Line) × Memᴰ l lines × (l.src ≡ i) × (l.dest ≡ j)

  halfway-Seen :
      (i : ℕ) (e : Entry) (j : ℕ)
      → get halfway i ≡ some e
      → Memᴰ j e.premises
      → Seen (line ∷ done) i j
  halfway-Seen i e j h q = elim (Bool-cases (i == line.src)) [
    | inl same ↦
        let e' = (==_iff i line.src).0 same in
        let is_source : e ≡ source_entry =
          some_injective (sym h ∙ ap (get halfway) e' ∙ get-put_same line.src source_entry m) in
        elim (with_premise-premises line (get m line.src) j
          (subst (λ (x : Entry). Memᴰ j x.premises) is_source q)) [
            | inl here ↦ (line, Memᴰ.head refl, sym e', sym here)
            | inr (x, old, k) ↦
                let (l, k', a, b) = good.seen line.src x j old k in (l, Memᴰ.tail k', a ∙ sym e', b)
          ]
    | inr other ↦
        let was = sym (get-put_other i line.src source_entry m other) ∙ h in
        let (l, k, a, b) = good.seen i e j was q in (l, Memᴰ.tail k, a, b)
  ]

  whole-Seen :
      (i : ℕ) (e : Entry) (j : ℕ)
      → get whole i ≡ some e
      → Memᴰ j e.premises
      → Seen (line ∷ done) i j
  whole-Seen i e j h q = elim (Bool-cases (i == line.dest)) [
    | inl same ↦
        let e' = (==_iff i line.dest).0 same in
        let is_target : e ≡ target_entry =
          some_injective
            (sym h ∙ ap (get whole) e' ∙ get-put_same line.dest target_entry halfway) in
        let (x, old, k) =
          with_tags-premises (projectr (all_pairs line)) (get halfway line.dest) j
            (subst (λ (y : Entry). Memᴰ j y.premises) is_target q) in
        halfway-Seen i x j (ap (get halfway) e' ∙ old) k
    | inr other ↦
        halfway-Seen i e j (sym (get-put_other i line.dest target_entry halfway other) ∙ h) q
  ]

  halfway-Holds :
      (i j : ℕ) (u : TagPairs × TagPairs)
      → Holds halfway i j u
        ↔ (((i ≡ line.src) × (j ≡ line.dest) × (u ≡ (all_pairs line, line.prog))) ⊎ Holds m i j u)
  halfway-Holds i j u =
      let over = Holds-put line.src source_entry m i j u in
      let parts = with_premise-Has line (get m line.src) j u in
      (
        λ h. elim (over.0 h) [
          | inl (same, q) ↦ elim (parts.0 q) [
            | inl here ↦ inl (same, here.0, here.1)
            | inr (e, old, k) ↦ inr (e, ap (get m) same ∙ old, k)
          ]
          | inr (_, k) ↦ inr k
        ],
        elim [
          | inl (same, a, b) ↦ over.1 (inl (same, parts.1 (inl (a, b))))
          | inr (e, old, k) ↦ elim (Bool-cases (i == line.src)) [
            | inl same ↦
                let e' = (==_iff i line.src).0 same in
                over.1 (inl (e', parts.1 (inr (e, ap (get m) (sym e') ∙ old, k))))
            | inr other ↦
                over.1 (inr ((λ same. cc (other, (==_iff i line.src).1 same)), (e, old, k)))
          ]
        ],
      )

  whole-Holds : (i j : ℕ) (u : TagPairs × TagPairs) → Holds whole i j u ↔ Holds halfway i j u
  whole-Holds i j u =
      let over = Holds-put line.dest target_entry halfway i j u in
      let parts = with_tags-Has (projectr (all_pairs line)) (get halfway line.dest) j u in
      (
        λ h. elim (over.0 h) [
          | inl (same, q) ↦ let (e, old, k) = parts.0 q in (e, ap (get halfway) same ∙ old, k)
          | inr (_, k) ↦ k
        ],
        λ (e, old, k). elim (Bool-cases (i == line.dest)) [
          | inl same ↦
              let e' = (==_iff i line.dest).0 same in
              over.1 (inl (e', parts.1 (e, ap (get halfway) (sym e') ∙ old, k)))
          | inr other ↦
              over.1 (inr ((λ same. cc (other, (==_iff i line.dest).1 same)), (e, old, k)))
        ],
      )

  whole-exact : (i j : ℕ) (u : TagPairs × TagPairs) → Holds whole i j u ↔ Given (line ∷ done) i j u
  whole-exact i j u =
      let half = halfway-Holds i j u in
      let full = whole-Holds i j u in
      let before = good.exact i j u in
      (
        λ h. elim (half.0 (full.0 h)) [
          | inl (a, b, c) ↦ (line, Memᴰ.head refl, sym a, sym b, c)
          | inr old ↦ let (l, k, a, b, c) = before.0 old in (l, Memᴰ.tail k, a, b, c)
        ],
        λ (l, k, a, b, c). full.1 (
            half.1 (elim (Memᴰ.cases_cons k) [
              | inl here ↦ inl (
                sym a ∙ ap (λ (x : Line). x.src) here,
                sym b ∙ ap (λ (x : Line). x.dest) here,
                c ∙ ap (λ (x : Line). (all_pairs x, x.prog)) here,
              )
              | inr later ↦ inr (before.1 (l, later, a, b, c))
            ])),
      )

  pub added-IsNodeMap : IsNodeMap (added m line) (line ∷ done)
  unfolding added
  added-IsNodeMap = record {
    keys =
        UniqueKeys-put line.dest target_entry halfway
          (UniqueKeys-put line.src source_entry m good.keys);
    fits = whole-EntryFits;
    seen = whole-Seen;
    exact = whole-exact;
  }

  pub added-Extends : Extends m (added m line)
  unfolding added
  added-Extends = both_halves

  pub added-source : (e : Entry) × (get (added m line) line.src ≡ some e)
  unfolding added
  added-source =
      let (e, h, _) = second_half line.src source_entry (get-put_same line.src source_entry m) in
      (e, h)
