-- ===== src/Templates/Validate/Names.antt =====
-- The nodes that a validation selects, and how many of them have no result.
use fence_agents_remediation.Prelude.{
  ℕ, zero, suc, ℤ, pos, negsuc, ◌+◌, ◌≤◌, ◌<◌, String, ◌≡◌, refl, ap, some, List, [], ◌∷◌, ◌++◌,
  length, arith, subst,
}
use fence_agents_remediation.Prelude.Dict.{Dict, has}
use fence_agents_remediation.Api.{FenceAgentsRemediationTemplate}
use fence_agents_remediation.Templates.Sample.{
  or_empty, sort_strings, insert_sorted, select_nodes, first_names,
}
use fence_agents_remediation.Templates.Validate.Progress.{remaining, remaining_in, Keeps}

length-insert_sorted :
    (s : String) (ts : List String) → length (insert_sorted s ts) ≡ suc (length ts)
unfolding insert_sorted
length-insert_sorted s [] = refl
length-insert_sorted s (t ∷ ts) = ground (arith, length-insert_sorted s ts)

pub length-sort_strings : (ss : List String) → length (sort_strings ss) ≡ length ss
unfolding sort_strings
length-sort_strings [] = refl
length-sort_strings (s ∷ ss) =
    omega (arith, length-insert_sorted s (sort_strings ss), length-sort_strings ss)

-- The selected nodes come first among the sorted ones.
first_names-prefix :
    (n : ℕ) (names : List String) → (rest : List String) × (names ≡ first_names n names ++ rest)
unfolding first_names
first_names-prefix zero names = (names, refl)
first_names-prefix (suc n) [] = ([], refl)
first_names-prefix (suc n) (s ∷ ss) =
    let (rest, same) = first_names-prefix n ss in (rest, ap (λ r. s ∷ r) same)

pub select_nodes-prefix :
    (size : ℤ) (names selected : List String)
    → select_nodes size names ≡ some selected
    → (rest : List String) × (names ≡ selected ++ rest)
unfolding select_nodes
select_nodes-prefix (pos n) names selected h =
    let same : first_names n names ≡ selected = cc in
    subst (λ (o : List String). (rest : List String) × (names ≡ o ++ rest)) same
      (first_names-prefix n names)
select_nodes-prefix (negsuc n) names selected h = absurd (ground (arith, h))

remaining-append :
    (failed passed : Dict String) (xs ys : List String)
    → remaining failed passed (xs ++ ys) ≡ remaining failed passed xs + remaining failed passed ys
remaining-append failed passed [] ys = omega arith
remaining-append failed passed (x ∷ xs) ys = ground (arith, remaining-append failed passed xs ys)

pub remaining_le :
    (failed passed : Dict String) (xs : List String) → remaining failed passed xs ≤ length xs
remaining_le failed passed [] = ground arith
remaining_le failed passed (x ∷ xs) = ground (arith, remaining_le failed passed xs)

remaining-Keeps :
    (failed passed : Dict String) (b : FenceAgentsRemediationTemplate) (xs : List String)
    → Keeps failed passed b
    → remaining_in b xs ≤ remaining failed passed xs
remaining-Keeps failed passed b [] keeps = ground arith
remaining-Keeps failed passed b (x ∷ xs) keeps =
    ground (arith, keeps x, remaining-Keeps failed passed b xs keeps)

pub fresh-Keeps : (b : FenceAgentsRemediationTemplate) → Keeps [] [] b
unfolding has
fresh-Keeps b k t = ground (arith, t)

-- A result for a selected node is one for a node of the template.
pub remaining-prefix :
    (failed passed : Dict String) (b : FenceAgentsRemediationTemplate) (xs ys : List String)
    → Keeps failed passed b
    → remaining_in b xs < remaining failed passed xs
    → remaining_in b (xs ++ ys) < remaining failed passed (xs ++ ys)
remaining-prefix failed passed b xs ys keeps less = omega (
  arith,
  remaining-append failed passed xs ys,
  remaining-append (or_empty b.status.validation_failed) (or_empty b.status.validation_passed) xs
      ys,
  remaining-Keeps failed passed b ys keeps,
)
