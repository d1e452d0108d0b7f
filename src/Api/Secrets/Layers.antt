-- ===== src/Api/Secrets/Layers.antt =====
-- Where each parameter of the two secrets comes from.
use fence_agents_remediation.Prelude.{
  String, ◌≡◌, refl, Bool, false, not, ◌||◌, Option, none, some, [], ◌∷◌, ◌==◌, arith, eq_iff, inl,
  inr, ◌∙◌, subst,
}
use fence_agents_remediation.Prelude.Dict.{
  Dict, get, put, copy, IsMap, get-put, get-copy, IsMap-put, IsMap-copy,
}
use fence_agents_remediation.Errors.{ok, err, Result-cases, ok-injective}
use fence_agents_remediation.Libraries.Failures.{FailureApi}
use fence_agents_remediation.Libraries.Client.{Client}
use fence_agents_remediation.Libraries.Template.{TemplateEngine}
use fence_agents_remediation.Api.{FenceAgentsRemediation}
use fence_agents_remediation.Objects.{Secret}
use fence_agents_remediation.Api.Params.{SecretParams, get_node_name, get_nilable}
use fence_agents_remediation.Api.Params.Precedence.{shared_value, first_of_two}
use fence_agents_remediation.Api.Secrets.{
  add_shared_secret, collect_node_secret_params, collect_shared_secret_params,
  collect_all_secret_params, collect_secret_params, fill,
}
use fence_agents_remediation.Template.{render_parameter_template}

get-fill : (m : Dict String) (k : String) → IsMap m → get (copy [] m) k ≡ get m k
unfolding get
get-fill m k h = ground (arith, get-copy [] m k h)

IsMap-add_shared_secret :
    ⦃t : TemplateEngine⦄ (node : String) (shared acc : Dict String) (b : Bool)
    (r : Dict String × Bool)
    → IsMap acc
    → add_shared_secret node shared (acc, b) ≡ ok r
    → IsMap r.0
unfolding add_shared_secret
IsMap-add_shared_secret node [] acc b r m h = rw (← ok-injective h) m
IsMap-add_shared_secret node ((j, v) ∷ rest) acc b r m h =
    elim (Result-cases (render_parameter_template v node)) [
      | inr (x, e) ↦ absurd (ground arith)
      | inl (v', e) ↦
          IsMap-add_shared_secret node rest (put acc j v') (b || not (v' == v)) r
            (IsMap-put acc j v' m) (ground arith)
    ]

module _ ⦃t : TemplateEngine⦄ where
  get-add_shared_secret :
      (node : String) (shared acc : Dict String) (b : Bool) (k : String) (r : Dict String × Bool)
      → IsMap shared
      → add_shared_secret node shared (acc, b) ≡ ok r
      → get r.0 k ≡ first_of_two (shared_value shared node k) (get acc k)
  unfolding add_shared_secret get
  get-add_shared_secret node [] acc b k r m h = ground arith
  get-add_shared_secret node ((j, v) ∷ rest) acc b k r (fresh, m) h =
      elim (Result-cases (render_parameter_template v node)) [
        | inr (x, e) ↦ absurd (ground arith)
        | inl (v', e) ↦ ground (
          arith,
          get-add_shared_secret node rest (put acc j v') (b || not (v' == v)) k r m,
          get-put acc j k v',
          eq_iff j k,
        )
      ]

-- The data of every secret that is read is a map.
abbrev pub SecretsAreMaps : {W : Type 0} → Client W → Type 0
SecretsAreMaps {W} c =
    (name namespace : String) (w : W) (s : Secret)
    → (c.get_secret name namespace w).0 ≡ ok s
    → IsMap s.contents

module _ {W : Type 0} (c : Client W) where
  -- A value of the secret that a node has for itself.
  abbrev pub node_secret_value : Option String → String → W → String → Option String
  node_secret_value none namespace w k = none
  node_secret_value (some name) namespace w k = elim (c.get_secret name namespace w).0 [
    | err e ↦ none
    | ok s ↦ get s.contents k
  ]

  -- A value of the shared secret, rendered for the node.
  abbrev pub shared_secret_value :
      ⦃t : TemplateEngine⦄ → Option String → String → String → W → String → Option String
  shared_secret_value none namespace node w k = none
  shared_secret_value (some name) namespace node w k = elim (c.get_secret name namespace w).0 [
    | err e ↦ none
    | ok s ↦ shared_value s.contents node k
  ]

module _ {W : Type 0} ⦃f : FailureApi⦄ ⦃c : Client W⦄ where
  get-collect_secret_params :
      (name namespace : String) (w : W) (r : Dict String)
      → (collect_secret_params name namespace w).0 ≡ ok r
      → (s : Secret) × ((c.get_secret name namespace w).0 ≡ ok s) × (r ≡ fill s.contents)
  unfolding collect_secret_params
  get-collect_secret_params name namespace w r h =
      elim (Result-cases (c.get_secret name namespace w).0) [
        | inr (x, e) ↦ absurd (ground arith)
        | inl (s, e) ↦ (s, e, ground arith)
      ]

  get-collect_node_secret_params :
      SecretsAreMaps c
      → (name : Option String) (namespace : String) (params : Dict String) (b : Bool) (w : W)
        (s : SecretParams) (k : String)
      → (collect_node_secret_params name namespace (params, b) w).0 ≡ ok s
      → get s.params k ≡ first_of_two (node_secret_value c name namespace w k) (get params k)
  unfolding collect_node_secret_params
  get-collect_node_secret_params maps none namespace params b w s k h = ground arith
  get-collect_node_secret_params maps (some name) namespace params b w s k h =
      elim (Result-cases (collect_secret_params name namespace w).0) [
        | inr (x, e) ↦ absurd (ground arith)
        | inl (own, e) ↦
            let (secret, read, filled) = get-collect_secret_params name namespace w own e in
            let m = maps name namespace w secret read in
            ground (
              arith,
              get-fill secret.contents k m,
              get-copy params (fill secret.contents) k (IsMap-copy [] secret.contents tt),
            )
      ]

  IsMap-collect_node_secret_params :
      (name : Option String) (namespace : String) (params : Dict String) (b : Bool) (w : W)
      (s : SecretParams)
      → IsMap params
      → (collect_node_secret_params name namespace (params, b) w).0 ≡ ok s
      → IsMap s.params
  unfolding collect_node_secret_params
  IsMap-collect_node_secret_params none namespace params b w s m h = rw (← ok-injective h) m
  IsMap-collect_node_secret_params (some name) namespace params b w s m h =
      elim (Result-cases (collect_secret_params name namespace w).0) [
        | inr (x, e) ↦ absurd (ground arith)
        | inl (own, e) ↦
            subst (λ q. IsMap q.params) (ok-injective (rw e at h)) (IsMap-copy params own m)
      ]

  get-collect_shared_secret_params :
      ⦃t : TemplateEngine⦄
      → SecretsAreMaps c
      → (name : Option String) (namespace node : String) (w : W) (r : Dict String × Bool)
        (k : String)
      → (collect_shared_secret_params name namespace node w).0 ≡ ok r
      → (get r.0 k ≡ shared_secret_value c name namespace node w k) × IsMap r.0
  unfolding collect_shared_secret_params get
  get-collect_shared_secret_params maps none namespace node w r k h =
      rw (← ok-injective h) (refl, tt)
  get-collect_shared_secret_params maps (some name) namespace node w r k h =
      elim (Result-cases (collect_secret_params name namespace w).0) [
        | inr (x, e) ↦ absurd (ground arith)
        | inl (own, e) ↦
            let (secret, read, filled) = get-collect_secret_params name namespace w own e in
            let m = maps name namespace w secret read in
            let own_map = IsMap-copy [] secret.contents tt in
            let done : add_shared_secret node (fill secret.contents) ([], false) ≡ ok r =
              ground arith in
            (
              ground (
                arith,
                get-fill secret.contents k m,
                get-add_shared_secret node (fill secret.contents) [] false k r own_map done,
              ),
              IsMap-add_shared_secret node (fill secret.contents) [] false r tt done,
            )
      ]

  module _ ⦃t : TemplateEngine⦄ where
    -- The value of a parameter in the two secrets of a resource, the second of which is read in the
    -- cluster that the first read leaves.
    abbrev pub secrets_value : FenceAgentsRemediation → W → String → Option String
    secrets_value far w k =
        let node = get_node_name far in
        let namespace = far.meta.namespace in
        let w1 = (collect_shared_secret_params far.spec.shared_secret_name namespace node w).1 in
        first_of_two
          (node_secret_value c (get_nilable far.spec.node_secret_names node) namespace w1 k)
          (shared_secret_value c far.spec.shared_secret_name namespace node w k)

    pub get-collect_all_secret_params :
        SecretsAreMaps c
        → (far : FenceAgentsRemediation) (w : W) (s : SecretParams) (k : String)
        → (collect_all_secret_params far (get_node_name far) w).0 ≡ ok s
        → (get s.params k ≡ secrets_value far w k) × IsMap s.params
    unfolding collect_all_secret_params
    get-collect_all_secret_params maps far w s k h =
        let node = get_node_name far in
        let namespace = far.meta.namespace in
        let name = far.spec.shared_secret_name in
        elim (Result-cases (collect_shared_secret_params name namespace node w).0) [
          | inr (x, e) ↦ absurd (ground arith)
          | inl (shared, e) ↦
              let (value, m) =
                get-collect_shared_secret_params maps name namespace node w shared k e in
              let own = get_nilable far.spec.node_secret_names node in
              let w1 = (collect_shared_secret_params name namespace node w).1 in
              let done : (collect_node_secret_params own namespace shared w1).0 ≡ ok s =
                ground arith in
              (
                get-collect_node_secret_params maps own namespace shared.0 shared.1 w1 s k done
                    ∙ rw value,
                IsMap-collect_node_secret_params own namespace shared.0 shared.1 w1 s m done,
              )
        ]
