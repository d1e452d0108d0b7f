-- ===== src/Api/Params/Precedence.antt =====
-- Where each value of a validated map of parameters comes from.
use fence_agents_remediation.Prelude.{
  String, ◌≡◌, refl, ◌≢◌, Bool, false, not, ◌||◌, Option, none, some, [], ◌∷◌, ◌==◌, arith, eq_iff,
  Option-cases, inl, inr,
}
use fence_agents_remediation.Prelude.Dict.{Dict, get, has, put, IsMap, get-put, has-eq-false}
use fence_agents_remediation.Errors.{Result, ok, err, Result-cases}
use fence_agents_remediation.Libraries.Template.{TemplateEngine}
use fence_agents_remediation.Api.{FenceAgentsRemediation}
use fence_agents_remediation.Api.Params.{
  SecretParams, get_node_name, validate_fence_action, add_shared, add_node, add_secret,
  validate_fence_agent_params,
}
use fence_agents_remediation.Template.{render_parameter_template}

-- The first of two values that is there.
abbrev pub first_of_two : Option String → Option String → Option String
first_of_two none o = o
first_of_two (some v) o = some v

abbrev pub value_of : Result String → Option String
value_of (ok v) = some v
value_of (err e) = none

-- `nodeParameters[name][node]`
abbrev pub node_value : Dict (Dict String) → String → String → Option String
node_value nps node name = elim (get nps name) [ none ↦ none | some values ↦ get values node ]

module _ ⦃t : TemplateEngine⦄ where
  -- The shared parameter of a name, rendered for the node.
  abbrev pub shared_value : Dict String → String → String → Option String
  shared_value shared node name = elim (get shared name) [
    | none ↦ none
    | some v ↦ value_of (render_parameter_template v node)
  ]

  -- A round of the loop over the shared parameters that was gone through.
  pub add_shared_cons :
      (node j v : String) (rest acc : Dict String) (b : Bool) (r : Dict String × Bool)
      → add_shared node ((j, v) ∷ rest) (acc, b) ≡ ok r
      → (v' : String) × (validate_fence_action j v ≡ none)
        × (has acc j ≡ false)
        × (render_parameter_template v node ≡ ok v')
        × (add_shared node rest (put acc j v', b || not (v == v')) ≡ ok r)
  unfolding add_shared
  add_shared_cons node j v rest acc b r h = elim (Result-cases (render_parameter_template v node)) [
    | inl (v', e) ↦ (v', ground arith, ground arith, e, ground arith)
    | inr (x, e) ↦ absurd (ground arith)
  ]

  get-add_shared :
      (node : String) (shared acc : Dict String) (b : Bool) (k : String) (r : Dict String × Bool)
      → IsMap shared
      → add_shared node shared (acc, b) ≡ ok r
      → get r.0 k ≡ first_of_two (shared_value shared node k) (get acc k)
  unfolding add_shared get
  get-add_shared node [] acc b k r m h = ground arith
  get-add_shared node ((j, v) ∷ rest) acc b k r (fresh, m) h =
      let (v', _, _, e, later) = add_shared_cons node j v rest acc b r h in
      ground (
        arith,
        get-add_shared node rest (put acc j v') (b || not (v == v')) k r m later,
        get-put acc j k v',
        eq_iff j k,
      )

get-add_node :
    (node : String) (nps : Dict (Dict String)) (acc : Dict String) (k : String) (r : Dict String)
    → IsMap nps
    → add_node node nps acc ≡ ok r
    → get r k ≡ first_of_two (node_value nps node k) (get acc k)
unfolding add_node get
get-add_node node [] acc k r m h = ground arith
get-add_node node ((j, vs) ∷ rest) acc k r (fresh, m) h = elim (Option-cases (get vs node)) [
  | inl absent ↦ ground (arith, get-add_node node rest acc k r m, eq_iff j k)
  | inr (v, found) ↦
      ground (arith, get-add_node node rest (put acc j v) k r m, get-put acc j k v, eq_iff j k)
]

get-add_secret :
    (secrets acc : Dict String) (k : String) (r : Dict String)
    → IsMap secrets
    → add_secret secrets acc ≡ ok r
    → get r k ≡ first_of_two (get secrets k) (get acc k)
unfolding add_secret get
get-add_secret [] acc k r m h = ground arith
get-add_secret ((j, v) ∷ rest) acc k r (fresh, m) h =
    ground (arith, get-add_secret rest (put acc j v) k r m, get-put acc j k v, eq_iff j k)

-- A secret's parameter is nowhere else.
disjoint-add_secret :
    (secrets acc : Dict String) (k : String) (r : Dict String)
    → add_secret secrets acc ≡ ok r
    → get secrets k ≢ none
    → get acc k ≡ none
unfolding add_secret get
disjoint-add_secret [] acc k r h ne = absurd (ne refl)
disjoint-add_secret ((j, v) ∷ rest) acc k r h ne = ground (
  arith,
  disjoint-add_secret rest (put acc j v) k r,
  get-put acc j k v,
  eq_iff j k,
  has-eq-false acc j,
)

layers :
    (r p s own common sec : Option String)
    → r ≡ first_of_two sec p
    → p ≡ first_of_two own s
    → s ≡ first_of_two common (get [] "")
    → (sec ≢ none → p ≡ none)
    → (r ≡ first_of_two sec (first_of_two own common))
      × (sec ≢ none → (own ≡ none) × (common ≡ none))
unfolding get
layers r p s own common sec e1 e2 e3 apart = ground arith

module _ ⦃t : TemplateEngine⦄ where
  -- The stages of a validation that succeeded.
  pub stages :
      (far : FenceAgentsRemediation) (secrets : SecretParams) (r : Dict String)
      → validate_fence_agent_params far secrets ≡ ok r
      → (shared : Dict String × Bool) × (params : Dict String) × (add_shared
            (get_node_name far)
            far.spec.shared_parameters
            ([], false)
          ≡ ok shared)
        × (add_node (get_node_name far) far.spec.node_parameters shared.0 ≡ ok params)
        × (add_secret secrets.params params ≡ ok r)
  unfolding validate_fence_agent_params
  stages far secrets r h =
      let node = get_node_name far in
      elim (Result-cases (add_shared node far.spec.shared_parameters ([], false))) [
        | inr (x, e) ↦ absurd (ground arith)
        | inl (shared, e) ↦ elim (Result-cases (add_node node far.spec.node_parameters shared.0)) [
          | inr (x, e1) ↦ absurd (ground arith)
          | inl (params, e1) ↦ (shared, params, e, e1, ground arith)
        ]
      ]

  -- A validation that succeeds gives every parameter the value of its secret if a secret has it,
  -- else that of the node's own parameters, else that of the shared parameters with its template
  -- rendered for the node, whatever the order in which Go visits the three maps; and no parameter
  -- of a secret is among the others.
  pub get-validate_fence_agent_params :
      (far : FenceAgentsRemediation) (secrets : SecretParams) (r : Dict String)
      → IsMap far.spec.shared_parameters
      → IsMap far.spec.node_parameters
      → IsMap secrets.params
      → validate_fence_agent_params far secrets ≡ ok r
      → (k : String)
      → let node = get_node_name far in
        let own = node_value far.spec.node_parameters node k in
        let common = shared_value far.spec.shared_parameters node k in
        (get r k ≡ first_of_two (get secrets.params k) (first_of_two own common))
        × (get secrets.params k ≢ none → (own ≡ none) × (common ≡ none))
  unfolding get
  get-validate_fence_agent_params far secrets r ms mn mx h k =
      let node = get_node_name far in
      let (shared, params, e1, e2, e3) = stages far secrets r h in
      layers (get r k) (get params k) (get shared.0 k) (node_value far.spec.node_parameters node k)
        (shared_value far.spec.shared_parameters node k) (get secrets.params k)
        (get-add_secret secrets.params params k r mx e3)
        (get-add_node node far.spec.node_parameters shared.0 k params mn e2)
        (get-add_shared node far.spec.shared_parameters [] false k shared ms e1)
        (disjoint-add_secret secrets.params params k r e3)
