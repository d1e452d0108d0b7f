-- ===== src/Remediation/OutOfService/Calls.antt =====
-- What AppendTaint and RemoveTaint do to the out-of-service taints.
use fence_agents_remediation.Prelude.{
  ℕ, String, ◌≡◌, sym, ◌∙◌, true, Option, some, List, [], ◌∷◌, ◌++◌, ◌⊎◌, inl, inr, if-both, arith,
  subst,
}
use fence_agents_remediation.Errors.{Error, Result, ok, Result-cases}
use fence_agents_remediation.Objects.{Node, Taint}
use fence_agents_remediation.Libraries.Failures.{FailureApi}
use fence_agents_remediation.Libraries.Marks.{MarkApi}
use fence_agents_remediation.Libraries.Client.{Client}
use fence_agents_remediation.Utils.Nodes.{get_node_with_name, found_or_nil}
use fence_agents_remediation.Utils.Taints.{
  append_taint, append_taint_after, append_taint_to, remove_taint, remove_taint_after,
  remove_taint_from, delete_taint, taint_exists, create_remediation_taint,
  create_out_of_service_taint,
}
use fence_agents_remediation.Utils.Taints.Lists.{
  delete_taint-others, taint_exists-append, taint_exists-others,
}
use fence_agents_remediation.Remediation.Calls.{append_taint_to-world}
use fence_agents_remediation.Remediation.OutOfService.{is_out_of_service, TaintHistory}

module _ ⦃mk : MarkApi⦄ where
  -- The taint of a remediation is not the out-of-service taint.
  is_out_of_service-append :
      (taints : List Taint) (t : Option ℕ)
      → is_out_of_service (taints ++ record create_remediation_taint { time_added = t } ∷ [])
        ≡ is_out_of_service taints
  unfolding create_remediation_taint create_out_of_service_taint taint_exists
  is_out_of_service-append taints t = ground (
    arith,
    taint_exists-append taints (record create_remediation_taint { time_added = t } ∷ [])
        (create_out_of_service_taint 0),
    mk.match_taint_lem (record create_remediation_taint { time_added = t })
        (create_out_of_service_taint 0),
  )

  is_out_of_service-delete :
      (taints : List Taint) (t : Taint)
      → is_out_of_service (delete_taint taints t).0 ≡ true
      → is_out_of_service taints ≡ true
  is_out_of_service-delete taints t h = ground (
    arith,
    delete_taint-others taints t,
    taint_exists-others taints t (create_out_of_service_taint 0),
  )

module _ {W : Type 0} ⦃f : FailureApi⦄ ⦃mk : MarkApi⦄ (c : Client W) (h : TaintHistory c) where
  open h use {tainted, frame}

  -- An update of a node that was read, which does not add the out-of-service taint.
  update_node-tainted :
      (n k : String) (w v : W) (x : Node) (taints : List Taint)
      → (c.get_node n w).0 ≡ ok x
      → (is_out_of_service taints ≡ true → is_out_of_service x.taints ≡ true)
      → (tainted v k → tainted (c.get_node n w).1 k)
      → tainted (c.update_node (record x { taints = taints }) v).1 k
      → tainted w k
  update_node-tainted n k w v x taints found same back now =
      elim (h.updated (record x { taints = taints }) v k now) [
        | inl old ↦ frame.get_node n w k (back old)
        | inr (name, added) ↦
            let known = frame.get_node n w n (h.read n w x found (same added)) in
            subst (tainted w) (sym (h.named n w x found) ∙ name) known
      ]

  append_taint_to-marked :
      (n k : String) (w : W) (x : Node)
      → (c.get_node n w).0 ≡ ok x
      → tainted (append_taint_to ⦃c = c⦄ x create_remediation_taint (c.get_node n w).1).1 k
      → tainted w k
  append_taint_to-marked n k w x found =
      let w1 = (c.get_node n w).1 in
      let stamped = record create_remediation_taint { time_added = some (c.now w1).0 } in
      rw (append_taint_to-world c x create_remediation_taint w1) (
        if-both (λ (v : W). tainted v k → tainted w k)
          (taint_exists x.taints create_remediation_taint) (λ _. frame.get_node n w k)
          (λ _.
            update_node-tainted n k w (c.now w1).1 x (x.taints ++ stamped ∷ []) found
              (λ added. sym (is_out_of_service-append x.taints _) ∙ added) (frame.now w1 k)))

  -- The taint of a remediation leaves the out-of-service taints as they are.
  pub append_taint-marked :
      (n : String) (w : W) (k : String)
      → tainted (append_taint ⦃c = c⦄ n create_remediation_taint w).1 k
      → tainted w k
  unfolding append_taint append_taint_after get_node_with_name found_or_nil
  append_taint-marked n w k = elim (Result-cases (c.get_node n w).0) [
    | inl (x, found) ↦ rw found (append_taint_to-marked n k w x found)
    | inr (e, failed) ↦ rw failed (
        if-both
          (λ (r : Result (Option Node)).
            tainted (append_taint_after ⦃c = c⦄ create_remediation_taint (r, (c.get_node n w).1)).1
              k
            → tainted w k)
          (f.is_not_found e) (λ _. frame.get_node n w k) (λ _. frame.get_node n w k))
  ]

  remove_taint_from-tainted :
      (n k : String) (t : Taint) (w : W) (x : Node)
      → (c.get_node n w).0 ≡ ok x
      → tainted (remove_taint_from ⦃c = c⦄ x t (c.get_node n w).1).1 k
      → tainted w k
  unfolding remove_taint_from
  remove_taint_from-tainted n k t w x found =
      let P : Option Error × W → Type 0 = λ r. tainted r.1 k → tainted w k in
      if-both P (taint_exists x.taints t)
        (λ _.
          if-both P (delete_taint x.taints t).1
            (λ _.
              update_node-tainted n k w (c.get_node n w).1 x (delete_taint x.taints t).0 found
                (is_out_of_service-delete x.taints t) (λ v. v))
            (λ _. frame.get_node n w k))
        (λ _. frame.get_node n w k)

  pub remove_taint-tainted :
      (n : String) (t : Taint) (w : W) (k : String)
      → tainted (remove_taint ⦃c = c⦄ n t w).1 k
      → tainted w k
  unfolding remove_taint remove_taint_after get_node_with_name found_or_nil
  remove_taint-tainted n t w k = elim (Result-cases (c.get_node n w).0) [
    | inl (x, found) ↦ rw found (remove_taint_from-tainted n k t w x found)
    | inr (e, failed) ↦ rw failed (
        if-both
          (λ (r : Result (Option Node)).
            tainted (remove_taint_after ⦃c = c⦄ t (r, (c.get_node n w).1)).1 k → tainted w k)
          (f.is_not_found e) (λ _. frame.get_node n w k) (λ _. frame.get_node n w k))
  ]

  append_taint_to-named :
      (n k : String) (t : Taint) (w : W) (x : Node)
      → (c.get_node n w).0 ≡ ok x
      → tainted (append_taint_to ⦃c = c⦄ x t (c.get_node n w).1).1 k
      → tainted w k ⊎ (k ≡ n)
  append_taint_to-named n k t w x found =
      let w1 = (c.get_node n w).1 in
      let stamped = record t { time_added = some (c.now w1).0 } in
      rw (append_taint_to-world c x t w1) (
        if-both (λ (v : W). tainted v k → tainted w k ⊎ (k ≡ n)) (taint_exists x.taints t)
          (λ _ old. inl (frame.get_node n w k old))
          (λ _ now.
            elim (h.updated (record x { taints = x.taints ++ stamped ∷ [] }) (c.now w1).1 k now) [
              | inl old ↦ inl (frame.get_node n w k (frame.now w1 k old))
              | inr (name, added) ↦ inr (sym name ∙ h.named n w x found)
            ]))

  -- AppendTaint taints the named node only.
  pub append_taint-named :
      (n : String) (t : Taint) (w : W) (k : String)
      → tainted (append_taint ⦃c = c⦄ n t w).1 k
      → tainted w k ⊎ (k ≡ n)
  unfolding append_taint append_taint_after get_node_with_name found_or_nil
  append_taint-named n t w k = elim (Result-cases (c.get_node n w).0) [
    | inl (x, found) ↦ rw found (append_taint_to-named n k t w x found)
    | inr (e, failed) ↦ rw failed (
        if-both
          (λ (r : Result (Option Node)).
            tainted (append_taint_after ⦃c = c⦄ t (r, (c.get_node n w).1)).1 k
            → tainted w k ⊎ (k ≡ n))
          (f.is_not_found e) (λ _ old. inl (frame.get_node n w k old))
          (λ _ old. inl (frame.get_node n w k old)))
  ]
