-- ===== src/Utils/Taints/Effects.antt =====
-- The nodes of a quiet cluster after AppendTaint and RemoveTaint, as lists of taints.
use fence_agents_remediation.Prelude.{
  ℕ, String, ◌≡◌, ◌≢◌, refl, ◌∙◌, sym, true, false, Option, none, some, List, [], ◌∷◌, ◌++◌, arith,
  eq_iff, if◌then◌else◌, ◌==◌, Bool-cases, inl, inr,
}
use mathlib.Core.List.{append-nil}
use fence_agents_remediation.Errors.{Error, Result, ok, err}
use fence_agents_remediation.Objects.{Taint, Node}
use fence_agents_remediation.Libraries.Failures.{FailureApi}
use fence_agents_remediation.Libraries.Marks.{MarkApi}
use fence_agents_remediation.Libraries.Client.{Client, QuietNodes}
use fence_agents_remediation.Utils.Nodes.{found_or_nil, get_node_with_name}
use fence_agents_remediation.Utils.Taints.{
  taint_exists, delete_taint, append_taint, append_taint_to, append_taint_after, remove_taint,
  remove_taint_from, remove_taint_after,
}
use fence_agents_remediation.Utils.Taints.Lists.{
  taint_exists-append, others, others-append, others_of_match, delete_taint-others,
  others_of_absent, match_taint_refl,
}

abbrev pub with_taints : (List Taint → List Taint) → Option Node → Option Node
with_taints f none = none
with_taints f (some x) = some (record x { taints = f x.taints })

module _ ⦃m : MarkApi⦄ where
  -- The list after AppendTaint at the time `now`.
  abbrev pub appended : ℕ → Taint → List Taint → List Taint
  appended now t ts =
      if taint_exists ts t then ts else ts ++ (record t { time_added = some now }) ∷ []

  pub matches_stamped :
      (now : ℕ) (t : Taint) → m.match_taint t (record t { time_added = some now }) ≡ true
  matches_stamped now t =
      let u = record t { time_added = some now } in
      ground (arith, m.match_taint_lem t u, m.match_taint_lem t t, match_taint_refl t)

  pub taint_exists_stamped :
      (now : ℕ) (t s : Taint)
      → taint_exists ((record t { time_added = some now }) ∷ []) s ≡ m.match_taint t s
  unfolding taint_exists
  taint_exists_stamped now t s =
      let u = record t { time_added = some now } in
      ground (arith, m.match_taint_lem u s, m.match_taint_lem t s)

  pub taint_exists-appended :
      (now : ℕ) (t : Taint) (ts : List Taint) → taint_exists (appended now t ts) t ≡ true
  taint_exists-appended now t ts =
      let u = record t { time_added = some now } in
      ground
        (arith, taint_exists-append ts (u ∷ []) t, taint_exists_stamped now t t, match_taint_refl t)

  pub appended-frame :
      (now : ℕ) (t s : Taint) (ts : List Taint)
      → m.match_taint t s ≡ false
      → taint_exists (appended now t ts) s ≡ taint_exists ts s
  appended-frame now t s ts other =
      let u = record t { time_added = some now } in
      ground (arith, taint_exists-append ts (u ∷ []) s, taint_exists_stamped now t s)

  pub others-appended :
      (now : ℕ) (t : Taint) (ts : List Taint)
      → taint_exists ts t ≡ false
      → others (appended now t ts) t ≡ ts
  others-appended now t ts fresh =
      let u = record t { time_added = some now } in
      rw fresh (
        others-append ts (u ∷ []) t
        ∙ rw (others_of_absent ts t fresh, others_of_match t u (matches_stamped now t), append-nil))

pub if_ne {ℓ} :
    {A : Type ℓ} (name k : String) (x y : A) → k ≢ name → (if name == k then x else y) ≡ y
if_ne name k x y ne = elim (Bool-cases (name == k)) [
  | inl e ↦ absurd (ne (sym ((eq_iff name k).0 e)))
  | inr e ↦ rw e
]

module _ {W : Type 0} ⦃f : FailureApi⦄ ⦃m : MarkApi⦄ ⦃c : Client W⦄ (q : QuietNodes f c) where
  open q use {node_at}

  -- What a read that gave no error has found.
  abbrev Found : String → Result (Option Node) → W → Type 0
  Found name (err e) w = Unit
  Found name (ok none) w = node_at w name ≡ none
  Found name (ok (some x)) w = (node_at w name ≡ some x) × (x.name ≡ name)

  Found-found_or_nil :
      (name : String) (r : Result Node) (w w1 : W)
      → r ≡ (c.get_node name w).0
      → node_at w1 name ≡ node_at w name
      → Found name (found_or_nil r) w1
  unfolding found_or_nil
  Found-found_or_nil name (ok x) w w1 e k = rw k (q.get_ok name w x (sym e))
  Found-found_or_nil name (err x) w w1 e k = elim (Bool-cases (f.is_not_found x)) [
    | inl gone ↦ rw (gone, k) (q.get_not_found name w x (sym e) gone)
    | inr other ↦ rw other tt
  ]

  Found-get_node_with_name :
      (name : String) (w : W)
      → Found name (get_node_with_name name w).0 (get_node_with_name name w).1
  unfolding get_node_with_name
  Found-get_node_with_name name w = Found-found_or_nil name _ w _ refl (q.get-node_at name name w)

  node_at-get_node_with_name :
      (name k : String) (w : W) → node_at (get_node_with_name name w).1 k ≡ node_at w k
  unfolding get_node_with_name
  node_at-get_node_with_name name k w = q.get-node_at name k w

  append_taint_to-node_at :
      (name : String) (x : Node) (t : Taint) (w : W) (k : String)
      → x.name ≡ name
      → node_at w name ≡ some x
      → (append_taint_to x t w).0.1 ≡ none
      → node_at (append_taint_to x t w).1 k
        ≡ (if name == k then with_taints (appended (c.now w).0 t) (node_at w name) else node_at w k)
  unfolding append_taint_to
  append_taint_to-node_at name x t w k same found h = ground (
    arith,
    q.now-node_at w k,
    q.update_ok
        (record x { taints = x.taints ++ (record t { time_added = some (c.now w).0 }) ∷ [] })
        (c.now w).1 k,
    eq_iff x.name k,
    eq_iff name k,
  )

  remove_taint_from-node_at :
      (name : String) (x : Node) (t : Taint) (w : W) (k : String)
      → x.name ≡ name
      → node_at w name ≡ some x
      → (remove_taint_from x t w).0 ≡ none
      → node_at (remove_taint_from x t w).1 k
        ≡ (if name == k then with_taints (λ ts. others ts t) (node_at w name) else node_at w k)
  unfolding remove_taint_from
  remove_taint_from-node_at name x t w k same found h = ground (
    arith,
    delete_taint-others x.taints t,
    others_of_absent x.taints t,
    q.update_ok (record x { taints = others x.taints t }) w k,
    eq_iff x.name k,
    eq_iff name k,
  )

  append_taint_after-node_at :
      (name : String) (t : Taint) (r : Result (Option Node)) (w : W) (k : String)
      → Found name r w
      → (append_taint_after t (r, w)).0.1 ≡ none
      → node_at (append_taint_after t (r, w)).1 k
        ≡ (if name == k then with_taints (appended (c.now w).0 t) (node_at w name) else node_at w k)
  unfolding append_taint_after
  append_taint_after-node_at name t (err e) w k found h = cc
  append_taint_after-node_at name t (ok none) w k found h = ground (arith, eq_iff name k)
  append_taint_after-node_at name t (ok (some x)) w k (found, same) h =
      append_taint_to-node_at name x t w k same found h

  remove_taint_after-node_at :
      (name : String) (t : Taint) (r : Result (Option Node)) (w : W) (k : String)
      → Found name r w
      → (remove_taint_after t (r, w)).0 ≡ none
      → node_at (remove_taint_after t (r, w)).1 k
        ≡ (if name == k then with_taints (λ ts. others ts t) (node_at w name) else node_at w k)
  unfolding remove_taint_after
  remove_taint_after-node_at name t (err e) w k found h = cc
  remove_taint_after-node_at name t (ok none) w k found h = ground (arith, eq_iff name k)
  remove_taint_after-node_at name t (ok (some x)) w k (found, same) h =
      remove_taint_from-node_at name x t w k same found h

  -- The effect of an AppendTaint that gives no error on every node.
  pub append_taint-node_at :
      (name : String) (t : Taint) (w : W) (k : String)
      → (append_taint name t w).0.1 ≡ none
      → node_at (append_taint name t w).1 k ≡ (
          if name == k
          then with_taints (appended (c.now (get_node_with_name name w).1).0 t) (node_at w name)
          else node_at w k)
  unfolding append_taint
  append_taint-node_at name t w k h =
      append_taint_after-node_at name t _ _ k (Found-get_node_with_name name w) h
      ∙ rw (node_at-get_node_with_name name name w, node_at-get_node_with_name name k w)

  -- The effect of a RemoveTaint that gives no error on every node.
  pub remove_taint-node_at :
      (name : String) (t : Taint) (w : W) (k : String)
      → (remove_taint name t w).0 ≡ none
      → node_at (remove_taint name t w).1 k
        ≡ (if name == k then with_taints (λ ts. others ts t) (node_at w name) else node_at w k)
  unfolding remove_taint
  remove_taint-node_at name t w k h =
      remove_taint_after-node_at name t _ _ k (Found-get_node_with_name name w) h
      ∙ rw (node_at-get_node_with_name name name w, node_at-get_node_with_name name k w)

  remove_taint_after-missing :
      (name : String) (t : Taint) (r : Result (Option Node)) (w : W) (e : Error)
      → Found name r w
      → ((x : Error) → r ≡ err x → f.is_not_found x ≡ false)
      → (remove_taint_after t (r, w)).0 ≡ some e
      → f.is_not_found e ≡ true
      → node_at w name ≡ none
  unfolding remove_taint_after remove_taint_from
  remove_taint_after-missing name t (err x) w e found known h gone = ground (arith, known x refl)
  remove_taint_after-missing name t (ok none) w e found known h gone = found
  remove_taint_after-missing name t (ok (some x)) w e (found, same) known h gone = ground (
    arith,
    q.update_not_found (record x { taints = (delete_taint x.taints t).0 }) w e,
    eq_iff x.name name,
  )

  known_found_or_nil :
      (r : Result Node) (x : Error) → found_or_nil r ≡ err x → f.is_not_found x ≡ false
  unfolding found_or_nil
  known_found_or_nil r x h = ground arith

  -- A RemoveTaint that gives a NotFound error has found no node.
  pub remove_taint-missing :
      (name : String) (t : Taint) (w : W) (e : Error)
      → (remove_taint name t w).0 ≡ some e
      → f.is_not_found e ≡ true
      → node_at w name ≡ none
  unfolding remove_taint get_node_with_name
  remove_taint-missing name t w e h gone =
      sym (node_at-get_node_with_name name name w)
      ∙ remove_taint_after-missing name t _ _ e (Found-get_node_with_name name w)
          (known_found_or_nil (c.get_node name w).0) h gone
