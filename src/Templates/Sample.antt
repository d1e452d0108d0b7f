-- ===== src/Templates/Sample.antt =====
-- The nodes of a template that are validated: GetNodeNamesFromSpec of
-- api/v1alpha1/fenceagentsremediation_params.go, and calculateSampleSize of
-- internal/controller/fenceagentsremediationtemplate_controller.go.
use Prim.Native.String.{compare}
use text.Mathlib.Text.{is_le}
use fence_agents_remediation.Prelude.{
  ℕ, zero, suc, ℤ, pos, negsuc, String, ◌^^◌, Bool, true, false, Option, none, some, List, [], ◌∷◌,
  eqb, ltb, if◌then◌else◌,
}
use fence_agents_remediation.Prelude.Dict.{Dict, put, keys}
use fence_agents_remediation.Errors.{Result, ok, err}
use fence_agents_remediation.Libraries.Client.{Client, warning}
use fence_agents_remediation.Libraries.Text.{TextApi}
use fence_agents_remediation.Api.{FenceAgentsRemediationSpec, FenceAgentsRemediationTemplate}

-- The loops of GetNodeNamesFromSpec over `nodeNamesMap`.
unfoldable pub add_names {ℓ} : {V : Type ℓ} → Dict V → Dict Bool → Dict Bool
add_names [] names = names
add_names ((name, _) ∷ m) names = add_names m (put names name true)

unfoldable pub add_all_names : Dict (Dict String) → Dict Bool → Dict Bool
add_all_names [] names = names
add_all_names ((_, m) ∷ ms) names = add_all_names ms (add_names m names)

abbrev pub or_empty {ℓ} : {V : Type ℓ} → Option (Dict V) → Dict V
or_empty none = []
or_empty (some m) = m

-- GetNodeNamesFromSpec
unfoldable pub get_node_names_from_spec : FenceAgentsRemediationSpec → List String
unfolding add_names add_all_names
get_node_names_from_spec spec =
    keys (add_names (or_empty spec.node_secret_names) (add_all_names spec.node_parameters []))

-- sort.Strings
unfoldable pub insert_sorted : String → List String → List String
insert_sorted s [] = s ∷ []
insert_sorted s (t ∷ ts) = if is_le (compare s t) then s ∷ t ∷ ts else t ∷ insert_sorted s ts

unfoldable pub sort_strings : List String → List String
unfolding insert_sorted
sort_strings [] = []
sort_strings (s ∷ ss) = insert_sorted s (sort_strings ss)

abbrev pub exceeds : ℤ → ℕ → Bool
exceeds (pos n) total = ltb total n
exceeds (negsuc n) total = false

unfoldable pub first_names : ℕ → List String → List String
first_names zero names = []
first_names (suc n) [] = []
first_names (suc n) (s ∷ ss) = s ∷ first_names n ss

-- `nodeNames[:size]`, which panics at a negative size.
unfoldable pub select_nodes : ℤ → List String → Option (List String)
unfolding first_names
select_nodes (pos n) names = some (first_names n names)
select_nodes (negsuc n) names = none

abbrev pub is_zero : ℤ → Bool
is_zero (pos n) = eqb n 0
is_zero (negsuc n) = false

module _ {W : Type 0} ⦃tx : TextApi⦄ ⦃c : Client W⦄ where
  -- calculateSampleSize
  unfoldable pub calculate_sample_size : ℕ → FenceAgentsRemediationTemplate → W → Result ℤ × W
  calculate_sample_size total fart w = elim fart.spec.status_validation_sample [
    | none ↦ (ok (pos 0), w)
    | some sample ↦ elim (tx.scaled_value sample total true) [
      | err e ↦ (err e, w)
      | ok scaled ↦
          if exceeds scaled total
          then (
            ok (pos total),
            c.event warning fart.meta.name "StatusValidationSampleExceedsNodes"
                ("StatusValidationSample value exceeds number of nodes, capped to total nodes: requested "
                  ^^ (tx.sample_text (some sample)
                      ^^ (", capped to " ^^ (tx.decimal total ^^ " nodes"))))
                w,
          )
          else (ok scaled, w)
    ]
  ]
