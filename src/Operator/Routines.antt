-- ===== src/Operator/Routines.antt =====
-- What a ledger records is kept by the goroutine of a fence agent, if the resource may say that its
-- node is fenced whenever the goroutine says so.
use fence_agents_remediation.Prelude.{
  ℤ, String, ◌≡◌, refl, sym, ap, false, Option, none, some, List, [], ◌∷◌, ◌==◌, eq_iff, inl, inr,
  arith, if-both, if◌then◌else◌, subst, All, pos_part, Bool-cases,
}
use fence_agents_remediation.Errors.{Error, message, Result, ok, err, Outcome, returned, panicked}
use fence_agents_remediation.Libraries.Meta.{MetaApi}
use fence_agents_remediation.Libraries.Failures.{FailureApi}
use fence_agents_remediation.Libraries.Client.{Client, normal}
use fence_agents_remediation.Libraries.Wait.{WaitApi, backoff_rounds-invariant}
use fence_agents_remediation.Api.{FenceAgentsRemediation}
use fence_agents_remediation.Utils.Conditions.{fence_agent_succeeded, update_conditions}
use fence_agents_remediation.Utils.Conditions.Fenced.{update_conditions-fenced}
use fence_agents_remediation.Utils.Conditions.Identity.{update_conditions-meta}
use fence_agents_remediation.Cli.Executer.{
  Ctx, Machine, Run, Attempt, run_once, run_with_retry, reason_of, find_uid, select_uid,
  get_fence_agents_remediation_by_uid, send_status, update_status, poll_of_status, try_found,
  try_update_status, update_status_with_retry, is_success,
}
use fence_agents_remediation.Operator.Ledger.{Kept, Kept-trans, Honest, Ledger}

module _ {W : Type 0} (I : W → Type 0) (B : W → String → Type 0) where
  -- Running a command and waiting keep what the ledger records.
  pub record Runs (mc : Machine W) : Type 0 where
    pub runner :
        (ctx : Ctx W) (timeout : ℤ) (command : List String) (w : W)
        → Kept I B w (mc.runner ctx timeout command w).1
    pub sleep : (interval : ℤ) (w : W) → Kept I B w (mc.sleep interval w)
    pub default_pause : (w : W) → Kept I B w (mc.default_pause w)

  Kept-refl : (w : W) → Kept I B w w
  Kept-refl w = ((λ i. i), (λ u b. b))

  module _ ⦃f : FailureApi⦄ ⦃wt : WaitApi f⦄ ⦃mc : Machine W⦄ (rs : Runs mc) where
    pub run_with_retry-Kept :
        (ctx : Ctx W) (command : List String) (retry_count retry_interval timeout : ℤ) (w : W)
        → Kept I B w (run_with_retry ctx command retry_count retry_interval timeout w).1
    unfolding run_with_retry run_once
    run_with_retry-Kept ctx [] retry_count retry_interval timeout w = Kept-refl w
    run_with_retry-Kept ctx (agent ∷ args) retry_count retry_interval timeout w =
        subst (λ (r : Option Error × Run W). Kept I B w r.1.world)
          (sym (wt.exponential_backoff_lem _ _ retry_count _ _))
          (backoff_rounds-invariant (λ (st : Run W). ctx st.world)
            (λ (st : Run W). record st { world = mc.sleep retry_interval st.world }) f.wait_timeout
            (λ (st : Run W). Kept I B w st.world)
            (λ st k. Kept-trans I B _ _ _ k (rs.sleep retry_interval st.world))
            (run_once ctx (agent ∷ args) timeout) (pos_part retry_count)
            (record { world = w; stdout = ""; stderr = ""; fa_err = none })
            (λ st k. Kept-trans I B _ _ _ k (rs.runner ctx timeout (agent ∷ args) st.world))
            (Kept-refl w))

some-injective : {A : Type 0} {a b : A} → some a ≡ some b → a ≡ b
some-injective e = cc

module _ {W : Type 0} (I : W → Type 0) (B : W → String → Type 0) ⦃m : MetaApi⦄ where
  -- What the lookup by UID gives.
  abbrev Known : W → String → FenceAgentsRemediation → Type 0
  Known w uid far = Honest I B w far × (far.meta.uid ≡ uid)

  find_uid-Known :
      (w : W) (fars : List FenceAgentsRemediation) (uid : String) {far : FenceAgentsRemediation}
      → All (Honest I B w) fars
      → find_uid fars uid ≡ some far
      → Known w uid far
  unfolding find_uid
  find_uid-Known w [] uid h e = cc
  find_uid-Known w (x ∷ fars) uid {far} (h, hs) e = elim (Bool-cases (x.meta.uid == uid)) [
    | inl same ↦
        let found : some x ≡ some far = rw same at e in
        subst (Known w uid) (some-injective found) (h, (eq_iff x.meta.uid uid).0 same)
    | inr other ↦ find_uid-Known w fars uid hs (rw other at e)
  ]

  found_some :
      (o : Option FenceAgentsRemediation) {far : FenceAgentsRemediation}
      → (elim o [
        | some found ↦ ok (some found)
        | none ↦ err (message "could not find any FAR matching the UID")
      ])
        ≡ ok (some far)
      → o ≡ some far
  found_some o e = ground arith

  select_uid-Known :
      (w : W) (r : Result (List FenceAgentsRemediation)) (uid : String)
      {far : FenceAgentsRemediation}
      → ((fars : List FenceAgentsRemediation) → r ≡ ok fars → All (Honest I B w) fars)
      → select_uid r uid ≡ ok (some far)
      → Known w uid far
  unfolding select_uid
  select_uid-Known w (err x) uid h e = cc
  select_uid-Known w (ok []) uid h e = cc
  select_uid-Known w (ok (x ∷ fars)) uid {far} h e =
      find_uid-Known w (x ∷ fars) uid (h (x ∷ fars) refl) (found_some (find_uid (x ∷ fars) uid) e)

module _ {W : Type 0} (I : W → Type 0) (B : W → String → Type 0) ⦃m : MetaApi⦄ (c : Client W)
    (l : Ledger I B c) ⦃f : FailureApi⦄ where
  send_status-Kept :
      (o : Option FenceAgentsRemediation) (w : W)
      → ((far : FenceAgentsRemediation) → o ≡ some far → Honest I B w far)
      → Kept I B w (send_status ⦃c = c⦄ o w).1
  unfolding send_status
  send_status-Kept none w honest = Kept-refl I B w
  send_status-Kept (some far) w honest = l.status_written far w (honest far refl)

  module _ (uid : String) (failure : Option Error) where
    announced-Kept :
        (far : FenceAgentsRemediation) (w : W)
        → Kept I B w (
            if is_success failure
            then c.event normal far.meta.name "FenceAgentSucceeded" "Fence agent was succeeded" w
            else w)
    announced-Kept far w =
        if-both (Kept I B w) (is_success failure) (λ _. l.frame.event _ _ _ _ w)
          (λ _. Kept-refl I B w)

    update_status-Kept :
        (o : Option FenceAgentsRemediation) (w : W)
        → ((far : FenceAgentsRemediation) → o ≡ some far → Known I B w uid far)
        → (reason_of failure ≡ fence_agent_succeeded → B w uid)
        → Kept I B w (update_status ⦃c = c⦄ o failure w).1
    unfolding update_status
    update_status-Kept none w known fenced = Kept-refl I B w
    update_status-Kept (some far) w known fenced =
        let w1 =
          if is_success failure
          then c.event normal far.meta.name "FenceAgentSucceeded" "Fence agent was succeeded" w
          else w in
        let (now, w2) = c.now w1 in
        let (honest, same) = known far refl in
        let before : Kept I B w w2 = Kept-trans I B _ _ _ (announced-Kept far w) (l.frame.now w1) in
        Kept-trans I B _ _ _ before (
          send_status-Kept (update_conditions now (reason_of failure) far) w2 (λ far' e true_after.
            subst (B w2) (sym (ap (λ x. x.uid) (update_conditions-meta now _ far far' e))) (
              before.1 _ (elim (update_conditions-fenced now _ far e true_after) [
                | inl success ↦ subst (B w) (sym same) (fenced success)
                | inr already ↦ honest already
              ]))))

    poll_of_status-world :
        (r : Outcome (Option Error) × W) → (poll_of_status ⦃c = c⦄ r).1.world ≡ r.1
    poll_of_status-world (panicked, w) = refl
    poll_of_status-world (returned none, w) = refl
    poll_of_status-world (returned (some e), w) = refl

    try_found-Kept :
        (r : Result (Option FenceAgentsRemediation) × W)
        → ((far : FenceAgentsRemediation) → r.0 ≡ ok (some far) → Known I B r.1 uid far)
        → (reason_of failure ≡ fence_agent_succeeded → B r.1 uid)
        → Kept I B r.1 (try_found ⦃c = c⦄ failure r).1.world
    unfolding try_found
    try_found-Kept (err e, w) known fenced = Kept-refl I B w
    try_found-Kept (ok o, w) known fenced =
        rw (poll_of_status-world (update_status ⦃c = c⦄ o failure w))
          (update_status-Kept o w (λ far e. known far (ap ok e)) fenced)

    abbrev pub Ready : W → Type 0
    Ready w = I w × (reason_of failure ≡ fence_agent_succeeded → B w uid)

    Ready-Kept : (w w' : W) → Kept I B w w' → Ready w → Ready w'
    Ready-Kept w w' (i, b) (h, fenced) = (i h, λ e. b uid (fenced e))

    try_update_status-Ready :
        (st : Attempt W) → Ready st.world → Ready (try_update_status ⦃c = c⦄ uid failure st).1.world
    unfolding try_update_status get_fence_agents_remediation_by_uid
    try_update_status-Ready st (i, fenced) =
        let w = st.world in
        let listed = c.list_fars w in
        let (li, lb) = l.list_fars w in
        Ready-Kept _ _
          (try_found-Kept (select_uid listed.0 uid, listed.1)
            (λ far e.
              let (honest, same) =
                select_uid-Known I B w listed.0 uid (λ fars. l.fars_listed w fars i) e in
              (λ t. lb _ (honest t), same))
            (λ e. lb uid (fenced e)))
          (li i, λ e. lb uid (fenced e))

    module _ ⦃wt : WaitApi f⦄ ⦃mc : Machine W⦄ (rs : Runs I B mc) where
      pub update_status_with_retry-Ready :
          (ctx : Ctx W) (w : W)
          → Ready w
          → Ready (update_status_with_retry ⦃c = c⦄ ctx uid failure w).1
      unfolding update_status_with_retry
      update_status_with_retry-Ready ctx w h =
          subst (λ (r : Option Error × Attempt W). Ready r.1.world)
            (sym (wt.exponential_backoff_lem _ _ wt.default_steps _ _))
            (backoff_rounds-invariant (λ (st : Attempt W). ctx st.world)
              (λ (st : Attempt W). record st { world = mc.default_pause st.world }) f.wait_timeout
              (λ (st : Attempt W). Ready st.world)
              (λ st k. Ready-Kept _ _ (rs.default_pause st.world) k)
              (try_update_status ⦃c = c⦄ uid failure) (pos_part wt.default_steps)
              (record { world = w; crashed = false }) (λ st k. try_update_status-Ready st k) h)
