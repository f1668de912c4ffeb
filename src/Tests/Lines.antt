-- ===== src/Tests/Lines.antt =====
-- An abstract proof of two lines (src/generic/checkproof.ml).
use cyclist.Base.{◌≡◌, ap, some, refl, [], ◌∷◌, lookup, assign, insert, contains, arith}
use mathlib.Core.List.Memᴰ
use cyclist.Soundcheck.{AbstractProof}
use cyclist.Minimize.Maps.{fold}
use cyclist.ProofTree.Proofnode.{map2, mk_abs_node}
use cyclist.ProofFile.{
  Line, added, add_entry, add_entries, abstract_nodes, mk_prf, with_premise, with_tags, projectl,
  projectr, union_pairs, union_tags,
}
use cyclist.ProofFile.Reading.{AreDistinct}
use cyclist.ProofFile.Valid.{IsListing, mk_prf-IsListing}
use cyclist.ProofFile.{check_input}
use cyclist.Base.{ℕ, zero, suc, none, Memᴰ, false, ap}
use cyclist.Soundcheck.{for_all, valid}
use cyclist.Minimize.Blist.{
  exists, find_from, find_index, remove_nth, replace_from, replace_nth, nth,
}
use cyclist.Minimize.Maps.{iter, remove, find_map}
use cyclist.Minimize.{
  extend, compose, union_of_list, in_children, index_of_child, is_single_node, fathers,
  fathers_grandchild, fewer_premises, drop_premise, remove_dead_node, remove_dead_nodes, bypass,
  lead_past, fuse_node, is_fusible, fuse_single_nodes, minimize_abs_proof,
}
use cyclist.Checker.{check_proof, check_shrunk}
use cyclist.Tests.{spot_yes}
use cyclist.Tests.Loop.{formulas}
use cyclist.Tests.Shrinking.{fresh}

abbrev there : Line
there = record { src = 0; dest = 1; prog = (1, 1) ∷ []; nonprog = [] }

abbrev back : Line
back = record { src = 1; dest = 0; prog = []; nonprog = (1, 1) ∷ [] }

-- The two lines, with the pairs that progress counted among the valid ones.
two_lines-mk_prf :
    mk_prf (there ∷ back ∷ [])
    ≡ some (
      (
        0,
        record {
          tags = 1 ∷ [];
          subg = record { child = 1; tag_pairs = (1, 1) ∷ []; progress = (1, 1) ∷ [] } ∷ [];
        },
      )
          ∷ (
            1,
            record {
              tags = 1 ∷ [];
              subg = record { child = 0; tag_pairs = (1, 1) ∷ []; progress = [] } ∷ [];
            },
          )
          ∷ [],
      0,
    )
unfolding mk_prf add_entries add_entry added with_premise with_tags projectl projectr union_pairs
    union_tags fold abstract_nodes mk_abs_node map2 lookup assign insert contains
two_lines-mk_prf = refl

two_lines-AreDistinct : AreDistinct (there ∷ back ∷ [])
two_lines-AreDistinct = (
  λ l k e. let same = ap (λ (x : Line). x.src) (Memᴰ.eq_of_singleton k) in absurd (omega arith),
  ((λ l k. absurd (Memᴰ.not-nil k)), tt),
)

mk_prf-IsListing_example :
    (p : AbstractProof) × (mk_prf (there ∷ back ∷ []) ≡ some (p, 0))
    × IsListing p 0 (there ∷ back ∷ [])
mk_prf-IsListing_example = mk_prf-IsListing there (back ∷ []) two_lines-AreDistinct

-- The same from the node 1: the first source is not 0.
abbrev out : Line
out = record { src = 1; dest = 2; prog = (1, 1) ∷ []; nonprog = [] }

abbrev home : Line
home = record { src = 2; dest = 1; prog = []; nonprog = (1, 1) ∷ [] }

abbrev listed : AbstractProof
listed =
    (
      1,
      record {
        tags = 1 ∷ [];
        subg = record { child = 2; tag_pairs = (1, 1) ∷ []; progress = (1, 1) ∷ [] } ∷ [];
      },
    )
    ∷ (
      2,
      record {
        tags = 1 ∷ [];
        subg = record { child = 1; tag_pairs = (1, 1) ∷ []; progress = [] } ∷ [];
      },
    )
    ∷ []

-- The path goes to and fro.
abbrev turn : ℕ → ℕ
turn zero = 1
turn (suc zero) = 2
turn (suc (suc i)) = turn i

-- From a first source that is not 0 and leads nowhere the check fails an assertion.
abbrev astray : Line
astray = record { src = 3; dest = 3; prog = []; nonprog = [] }

leaves_initial : check_input spot_yes (λ size. 0) (λ x y. false) (out ∷ astray ∷ []) fresh ≡ none
unfolding check_input check_proof check_shrunk valid for_all mk_prf add_entries add_entry added
    with_premise with_tags projectl projectr union_pairs union_tags abstract_nodes mk_abs_node map2
    minimize_abs_proof remove_dead_nodes remove_dead_node drop_premise fewer_premises in_children
    index_of_child fuse_single_nodes is_fusible is_single_node fathers_grandchild fathers fuse_node
    lead_past bypass compose extend union_of_list exists find_index find_from remove_nth replace_nth
    replace_from nth fold iter remove find_map lookup assign insert contains
leaves_initial = refl
