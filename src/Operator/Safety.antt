-- ===== src/Operator/Safety.antt =====
-- The steps of the operator, and what holds after any sequence of them.
use fence_agents_remediation.Prelude.{
  ℤ, pos_part, String, ◌≡◌, ◌≢◌, refl, sym, Option, none, some, List, ◌∷◌, ◌⊎◌, inl, inr, subst,
}
use fence_agents_remediation.Errors.{Error, Result, ok, err, canceled, Result-cases}
use fence_agents_remediation.Objects.{Node}
use fence_agents_remediation.Libraries.Meta.{MetaApi}
use fence_agents_remediation.Libraries.Failures.{FailureApi}
use fence_agents_remediation.Libraries.Marks.{MarkApi}
use fence_agents_remediation.Libraries.Client.{Client, Workload}
use fence_agents_remediation.Libraries.Template.{TemplateEngine}
use fence_agents_remediation.Libraries.Wait.{WaitApi}
use fence_agents_remediation.Api.{FenceAgentsRemediation}
use fence_agents_remediation.Api.Params.{get_node_name}
use fence_agents_remediation.Cli.Routines.{Executer}
use fence_agents_remediation.Cli.Executer.{Ctx, Machine, fence_agent_routine}
use fence_agents_remediation.Remediation.Phases.{reconcile, reconcile_read}
use fence_agents_remediation.Remediation.Starts.{Change, kept, stopped, started, reconcile-Change}
use fence_agents_remediation.Remediation.Workload.{MayDelete, reconcile-seen}
use fence_agents_remediation.Remediation.OutOfService.{TaintHistory, MayTaint}
use fence_agents_remediation.Remediation.OutOfService.Reconciles.{reconcile-tainted}
use fence_agents_remediation.Operator.Reconciles.{reconcile-Kept}
use fence_agents_remediation.Operator.Ends.{fence_agent_routine-Kept}
use fence_agents_remediation.Operator.History.{
  Quiet, History, Started, remove_routine-Started, async_execute-Started,
}
use fence_agents_remediation.Operator.Covered.{Backed, Covered, history-Ledger, history-Runs, keep}

module _ {W : Type 0} ⦃m : MetaApi⦄ ⦃f : FailureApi⦄ ⦃mk : MarkApi⦄ ⦃te : TemplateEngine⦄
    ⦃wt : WaitApi f⦄ ⦃mc : Machine W⦄ (c : Client W) (h : History c mc) where
  -- A reconciliation of any request; the whole work of a goroutine that was started, with a positive
  -- number of attempts, whose context is not over at its start or has been canceled; and what others do,
  -- who do not make the condition of a fence action True. Of the state only the cluster and the
  -- executer outlive a step.
  pub data Step : W × Executer → W × Executer → Type 0 where
    reconciled :
        (namespace name : String) (w : W) (e : Executer)
        → Step (w, e) (reconcile ⦃c = c⦄ namespace name w e).1
    routine_ended :
        (ctx : Ctx W) (uid agent : String) (args : List String)
        (retry_count retry_interval timeout : ℤ) (w : W) (e : Executer)
        → Started e uid (agent ∷ args)
        → pos_part retry_count ≢ 0
        → (ctx w ≡ none) ⊎ (ctx w ≡ some canceled)
        → Step
            (w, e)
            (
              (fence_agent_routine ⦃c = c⦄ ctx uid
                  (agent ∷ args)
                  retry_count
                  retry_interval
                  timeout
                  w).1,
              e,
            )
    elsewhere : (w w' : W) (e : Executer) → Quiet h.fenced h.exited w w' → Step (w, e) (w', e)

  pub data Reach (s : W × Executer) : W × Executer → Type 0 where
    here : Reach s s
    next : {t u : W × Executer} → Reach s t → Step t u → Reach s u

  Change-Started :
      (far : FenceAgentsRemediation) {node : Result (Option Node)} (e after : Executer)
      (uid : String) (command : List String)
      → Change c far node e after
      → Started e uid command
      → Started after uid command
  Change-Started far e after uid command (kept same) s =
      subst (λ e. Started e uid command) (sym same) s
  Change-Started far e after uid command (stopped may same) s =
      subst (λ e. Started e uid command) (sym same)
        (remove_routine-Started e far.meta.uid uid command s)
  Change-Started far e after uid command (started n params retry w there may built same) s =
      subst (λ e. Started e uid command) (sym same)
        (async_execute-Started e far.meta.uid _ _ _ _ uid command s)

  -- A resource that is not read changes nothing of the executer.
  unread :
      (namespace name : String) (w : W) (e : Executer) (x : Error)
      → (c.get_far namespace name w).0 ≡ err x
      → (reconcile ⦃c = c⦄ namespace name w e).1.1 ≡ e
  unfolding reconcile reconcile_read
  unread namespace name w e x failed = rw failed refl

  reconcile-Started :
      (namespace name : String) (w : W) (e : Executer) (uid : String) (command : List String)
      → Started e uid command
      → Started (reconcile ⦃c = c⦄ namespace name w e).1.1 uid command
  reconcile-Started namespace name w e uid command s =
      elim (Result-cases (c.get_far namespace name w).0) [
        | inl (far, found) ↦
            Change-Started far e _ uid command (reconcile-Change c namespace name w e far found) s
        | inr (x, failed) ↦
            subst (λ e. Started e uid command) (sym (unread namespace name w e x failed)) s
      ]

  grown-Covered :
      (e e' : Executer) (w : W)
      → ((uid : String) (command : List String) → Started e uid command → Started e' uid command)
      → Covered h e w
      → Covered h e' w
  grown-Covered e e' w grow covered uid now =
      let (command, ran, exited) = covered uid now in (command, grow uid command ran, exited)

  Step-Covered : {s t : W × Executer} → Step s t → Covered h s.1 s.0 → Covered h t.1 t.0
  Step-Covered (reconciled namespace name w e) i =
      grown-Covered e (reconcile ⦃c = c⦄ namespace name w e).1.1 _
        (reconcile-Started namespace name w e)
        (reconcile-Kept (Covered h e) (Backed h e) c (history-Ledger h e) namespace name w e i)
  Step-Covered (routine_ended ctx uid agent args rc ri timeout w e ran positive alive) i =
      fence_agent_routine-Kept (Covered h e) (Backed h e) c (history-Ledger h e) (history-Runs h e)
        ctx uid agent args rc ri timeout w positive alive
        (λ t w1 out errors run.
          (agent ∷ args, ran, h.run_exited ctx timeout (agent ∷ args) t w1 out errors run))
        i
  Step-Covered (elsewhere w w' e quiet) i = (keep h e w w' quiet).0 i

  run-Covered : {s t : W × Executer} → Covered h s.1 s.0 → Reach s t → Covered h t.1 t.0
  run-Covered i here = i
  run-Covered i (next r st) = Step-Covered st (run-Covered i r)

  -- After any sequence of steps from a state in which no resource has been said to be fenced: if the
  -- condition FenceAgentActionSucceeded of a resource has been True, a goroutine of the resource was
  -- started with a command that has been run and has given no error.
  pub Reach-Covered :
      (w0 w : W) (e0 e : Executer)
      → ((uid : String) → h.fenced w0 uid → ⊥)
      → Reach (w0, e0) (w, e)
      → Covered h e w
  Reach-Covered w0 w e0 e nothing r = run-Covered (λ uid now. absurd (nothing uid now)) r

  -- After such a sequence, a Reconcile of a resource that it has read leaves the workload of the
  -- cluster as it is, or the resource may have its pods deleted and a goroutine of it was started with
  -- a command that has been run and has given no error.
  pub Reach-seen :
      {A : Type 0} (l : Workload c A) (w0 w : W) (e0 e : Executer) (namespace name : String)
      (far : FenceAgentsRemediation)
      → ((uid : String) → h.fenced w0 uid → ⊥)
      → Reach (w0, e0) (w, e)
      → (c.get_far namespace name w).0 ≡ ok far
      → (MayDelete far × Backed h e w far.meta.uid)
        ⊎ (l.seen (reconcile ⦃c = c⦄ namespace name w e).1.0 ≡ l.seen w)
  Reach-seen l w0 w e0 e namespace name far nothing r found =
      elim (reconcile-seen c l far namespace name w e found) [
        | inr same ↦ inr same
        | inl may ↦ inl (
          may,
          Reach-Covered w0 w e0 e nothing r far.meta.uid
              (h.far_read namespace name w far found may.ready.fenced),
        )
      ]

  -- After such a sequence and a Reconcile of a resource that it has read, a node has had the
  -- out-of-service taint only if it had it before, or it is the node of the resource, which may have it
  -- tainted, and a goroutine of it was started with a command that has been run and has given no error.
  pub Reach-tainted :
      (t : TaintHistory c) (w0 w : W) (e0 e : Executer) (namespace name node : String)
      (far : FenceAgentsRemediation)
      → ((uid : String) → h.fenced w0 uid → ⊥)
      → Reach (w0, e0) (w, e)
      → (c.get_far namespace name w).0 ≡ ok far
      → t.tainted (reconcile ⦃c = c⦄ namespace name w e).1.0 node
      → t.tainted w node ⊎ ((MayTaint far × (node ≡ get_node_name far)) × Backed h e w far.meta.uid)
  Reach-tainted t w0 w e0 e namespace name node far nothing r found now =
      elim (reconcile-tainted c t far namespace name w e node found now) [
        | inl old ↦ inl old
        | inr (may, same) ↦ inr (
          (may, same),
          Reach-Covered w0 w e0 e nothing r far.meta.uid
              (h.far_read namespace name w far found may.ready.fenced),
        )
      ]
