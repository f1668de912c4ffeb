-- ===== src/Minimize/First.antt =====
-- The first element that passes a test, by index and by recursion (src/lib/blist.ml).
use cyclist.Base.{
  ℕ, suc, ◌+◌, ◌<◌, Bool, true, false, some, List, [], ◌∷◌, ◌≡◌, refl, ap, ◌∙◌, subst, ◌==◌,
  if◌then◌else◌, Bool-cases, inl, inr, arith, ==_iff,
}
use cyclist.Minimize.Blist.{
  exists, find_from, find_index, remove_nth, replace_from, replace_nth, nth,
}

abbrev pub without_first : {A : Type 0} → (A → Bool) → List A → List A
without_first p [] = []
without_first p (x ∷ xs) = if p x then xs else x ∷ without_first p xs

abbrev pub map_first : {A : Type 0} → (A → Bool) → (A → A) → List A → List A
map_first p f [] = []
map_first p f (x ∷ xs) = if p x then f x ∷ xs else x ∷ map_first p f xs

replace_from-past :
    {A : Type 0} (z : A) (n m : ℕ) (xs : List A) → n < m → replace_from z n m xs ≡ xs
unfolding replace_from
replace_from-past z n m [] lt = refl
replace_from-past z n m (x ∷ xs) lt = elim (Bool-cases (n == m)) [
  | inl same ↦ let e = (==_iff n m).0 same in absurd (omega arith)
  | inr differs ↦ rw differs (ap (λ r. x ∷ r) (replace_from-past z n (suc m) xs (omega arith)))
]

module _ {A : Type 0} (p : A → Bool) where
  -- The place of the first element that passes, and what the list functions do there.
  pub record Found (xs : List A) : Type 0 where
    pub place : ℕ
    pub value : A
    pub is_first : (n : ℕ) → find_from p n xs ≡ some (n + place)
    pub is_there : nth xs place ≡ some value
    pub removed : remove_nth place xs ≡ some (without_first p xs)
    pub replaced : (f : A → A) (n : ℕ) → replace_from (f value) (n + place) n xs ≡ map_first p f xs

  pub exists-Found : (xs : List A) → exists p xs ≡ true → Found xs
  unfolding exists find_from nth remove_nth replace_from
  exists-Found [] h = cc
  exists-Found (x ∷ xs) h = elim (Bool-cases (p x)) [
    | inl hit ↦ record {
      place = 0;
      value = x;
      is_first = λ n. rw hit (ap (λ q. some q) (let e : n ≡ n + 0 = omega arith in e));
      is_there = refl;
      removed = rw hit;
      replaced = λ f n.
          let same : (n + 0 == n) ≡ true = ground arith in
          rw (hit, same)
            (ap (λ r. f x ∷ r) (replace_from-past (f x) (n + 0) (suc n) xs (omega arith)));
    }
    | inr miss ↦
        let rest = exists-Found xs (ground (arith, miss)) in
        record {
          place = suc rest.place;
          value = rest.value;
          is_first = λ n.
              let e : suc n + rest.place ≡ n + suc rest.place = omega arith in
              rw miss (rest.is_first (suc n) ∙ ap (λ q. some q) e);
          is_there = rest.is_there;
          removed = rw (miss, rest.removed);
          replaced = λ f n.
              let e : suc n + rest.place ≡ n + suc rest.place = omega arith in
              let apart : (n + suc rest.place == n) ≡ false = ground arith in
              rw (miss, apart)
                (ap (λ r. x ∷ r)
                  (subst (λ q. replace_from (f rest.value) q (suc n) xs ≡ map_first p f xs) e
                    (rest.replaced f (suc n))));
        }
  ]

  pub without_first-eq_self : (xs : List A) → exists p xs ≡ false → without_first p xs ≡ xs
  unfolding exists
  without_first-eq_self [] h = refl
  without_first-eq_self (x ∷ xs) h = elim (Bool-cases (p x)) [
    | inl hit ↦ ground (arith, hit)
    | inr miss ↦ rw miss (ap (λ r. x ∷ r) (without_first-eq_self xs (ground (arith, miss))))
  ]

  pub map_first-eq_self : (f : A → A) (xs : List A) → exists p xs ≡ false → map_first p f xs ≡ xs
  unfolding exists
  map_first-eq_self f [] h = refl
  map_first-eq_self f (x ∷ xs) h = elim (Bool-cases (p x)) [
    | inl hit ↦ ground (arith, hit)
    | inr miss ↦ rw miss (ap (λ r. x ∷ r) (map_first-eq_self f xs (ground (arith, miss))))
  ]

  module _ (xs : List A) (found : Found xs) where
    pub find_index-Found : find_index p xs ≡ some found.place
    unfolding find_index
    find_index-Found =
        let e : 0 + found.place ≡ found.place = omega arith in found.is_first 0 ∙ ap (λ q. some q) e

    pub replace_nth-Found :
        (f : A → A) → replace_nth (f found.value) found.place xs ≡ map_first p f xs
    unfolding replace_nth
    replace_nth-Found f =
        let e : 0 + found.place ≡ found.place = omega arith in
        subst (λ q. replace_from (f found.value) q 0 xs ≡ map_first p f xs) e (found.replaced f 0)
