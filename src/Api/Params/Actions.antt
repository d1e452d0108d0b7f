-- ===== src/Api/Params/Actions.antt =====
-- The action that a fence agent is called with.
use fence_agents_remediation.Prelude.{
  String, ◌≡◌, Bool, true, false, not, ◌||◌, none, some, [], ◌∷◌, ◌==◌, arith, eq_iff, subst,
  Bool-cases, Option-cases, inl, inr,
}
use text.Mathlib.Text.{find?}
use fence_agents_remediation.Prelude.Dict.{Dict, get, put, get-put}
use fence_agents_remediation.Errors.{ok, ok-injective}
use fence_agents_remediation.Libraries.Template.{TemplateEngine}
use fence_agents_remediation.Api.{FenceAgentsRemediation}
use fence_agents_remediation.Api.Params.{
  SecretParams, get_node_name, is_action, is_allowed, validate_fence_action, add_shared, add_node,
  add_secret, validate_fence_agent_params, parameter_reboot_action_value,
  parameter_off_action_value,
}
use fence_agents_remediation.Api.Params.Precedence.{stages, add_shared_cons}
use fence_agents_remediation.Template.{render_parameter_template}

-- No parameter that names the action has a value other than the empty one, `reboot` and `off`.
abbrev pub HasAllowedActions : Dict String → Type 0
HasAllowedActions d = (k v : String) → get d k ≡ some v → is_action k ≡ true → is_allowed v ≡ true

allowed_of_validate_fence_action :
    (k v : String) → validate_fence_action k v ≡ none → is_action k ≡ true → is_allowed v ≡ true
unfolding validate_fence_action
allowed_of_validate_fence_action k v h a = ground arith

pub put-HasAllowedActions :
    (d : Dict String) (j v : String)
    → HasAllowedActions d
    → (is_action j ≡ true → is_allowed v ≡ true)
    → HasAllowedActions (put d j v)
put-HasAllowedActions d j v h allowed k u e a = elim (Bool-cases (j == k)) [
  | inl same ↦
      let found : some v ≡ some u = ground (arith, get-put d j k v) in
      let kept : v ≡ u = cc in
      subst (λ x. is_allowed x ≡ true) kept (allowed (rw ((eq_iff j k).0 same) a))
  | inr other ↦ h k u (ground (arith, get-put d j k v)) a
]

plain_of_allowed : (v : String) → is_allowed v ≡ true → find? v "{{" ≡ none
plain_of_allowed v a = elim (Bool-cases (v == "")) [
  | inl e ↦ rw ((eq_iff v "").0 e)
  | inr ne ↦ elim (Bool-cases (v == parameter_reboot_action_value)) [
    | inl e ↦ rw ((eq_iff v parameter_reboot_action_value).0 e)
    | inr ne1 ↦ rw ((eq_iff v parameter_off_action_value).0 (ground arith))
  ]
]

-- An allowed value is a plain text, which renders as itself.
render_allowed :
    ⦃t : TemplateEngine⦄ (v v' node : String)
    → is_allowed v ≡ true
    → render_parameter_template v node ≡ ok v'
    → v' ≡ v
unfolding render_parameter_template
render_allowed ⦃t⦄ v v' node a h =
    let plain = plain_of_allowed v a in
    ground (arith, t.parse_plain v plain, t.execute_plain v node plain)

module _ ⦃t : TemplateEngine⦄ where
  add_shared-HasAllowedActions :
      (node : String) (shared acc : Dict String) (b : Bool) (r : Dict String × Bool)
      → HasAllowedActions acc
      → add_shared node shared (acc, b) ≡ ok r
      → HasAllowedActions r.0
  unfolding add_shared
  add_shared-HasAllowedActions node [] acc b r h e = rw (← ok-injective e) h
  add_shared-HasAllowedActions node ((j, v) ∷ rest) acc b r h e =
      let (v', fine, _, rendered, later) = add_shared_cons node j v rest acc b r e in
      let allowed = allowed_of_validate_fence_action j v fine in
      add_shared-HasAllowedActions node rest (put acc j v') (b || not (v == v')) r
        (put-HasAllowedActions acc j v' h
          (λ a. rw (render_allowed v v' node (allowed a) rendered) (allowed a)))
        later

add_node-HasAllowedActions :
    (node : String) (nps : Dict (Dict String)) (acc r : Dict String)
    → HasAllowedActions acc
    → add_node node nps acc ≡ ok r
    → HasAllowedActions r
unfolding add_node
add_node-HasAllowedActions node [] acc r h e = rw (← ok-injective e) h
add_node-HasAllowedActions node ((j, vs) ∷ rest) acc r h e = elim (Option-cases (get vs node)) [
  | inl absent ↦ add_node-HasAllowedActions node rest acc r h (ground arith)
  | inr (v, found) ↦
      add_node-HasAllowedActions node rest (put acc j v) r
        (put-HasAllowedActions acc j v h (allowed_of_validate_fence_action j v (ground arith)))
        (ground arith)
]

add_secret-HasAllowedActions :
    (secrets acc r : Dict String)
    → HasAllowedActions acc
    → add_secret secrets acc ≡ ok r
    → HasAllowedActions r
unfolding add_secret
add_secret-HasAllowedActions [] acc r h e = rw (← ok-injective e) h
add_secret-HasAllowedActions ((j, v) ∷ rest) acc r h e =
    add_secret-HasAllowedActions rest (put acc j v) r
      (put-HasAllowedActions acc j v h (allowed_of_validate_fence_action j v (ground arith)))
      (ground arith)

module _ ⦃t : TemplateEngine⦄ where
  -- In every map of parameters that passes the validation, a parameter named `action` or
  -- `--action` has one of the values "", `reboot` and `off`, also after its template is rendered.
  pub validate_fence_agent_params-HasAllowedActions :
      (far : FenceAgentsRemediation) (secrets : SecretParams) (r : Dict String)
      → validate_fence_agent_params far secrets ≡ ok r
      → HasAllowedActions r
  unfolding get
  validate_fence_agent_params-HasAllowedActions far secrets r h =
      let node = get_node_name far in
      let (shared, params, e1, e2, e3) = stages far secrets r h in
      add_secret-HasAllowedActions secrets.params params r
        (add_node-HasAllowedActions node far.spec.node_parameters shared.0 params
          (add_shared-HasAllowedActions node far.spec.shared_parameters [] false shared
            (λ k v e _. cc) e1)
          e2)
        e3
