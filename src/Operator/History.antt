-- ===== src/Operator/History.antt =====
-- A history of the cluster and of the commands that have been run, and the resources that it covers.
use fence_agents_remediation.Prelude.{
  ℕ, ℤ, String, ◌≡◌, true, none, List, [], ◌∷◌, ◌⊎◌, inl, inr, All, Any, eqb, Bool-cases,
  Option-cases,
}
use fence_agents_remediation.Prelude.Dict.{get, has}
use fence_agents_remediation.Errors.{ok}
use fence_agents_remediation.Objects.{Node}
use fence_agents_remediation.Libraries.Meta.{MetaApi}
use fence_agents_remediation.Libraries.Client.{Client}
use fence_agents_remediation.Libraries.Frame.{Frame}
use fence_agents_remediation.Api.{FenceAgentsRemediation}
use fence_agents_remediation.Utils.Conditions.Fenced.{is_fenced}
use fence_agents_remediation.Cli.Routines.{
  Goroutine, Executer, async_execute, cancel, remove_routine,
}
use fence_agents_remediation.Cli.Executer.{Ctx, Machine}

-- `fenced` says that the API server has at some time held a resource with a UID whose condition
-- FenceAgentActionSucceeded was True; `exited`, that a command has been run and has given no error.
module _ {W : Type 0} (fenced : W → String → Type 0) (exited : W → List String → Type 0) where
  -- Nobody makes the condition True, and what has been run stays so.
  abbrev pub Quiet : W → W → Type 0
  Quiet w w' =
      ((uid : String) → fenced w' uid → fenced w uid)
      × ((command : List String) → exited w command → exited w' command)

-- Only Status().Update makes the condition True, and only for a resource that says so.
pub record History {W : Type 0} ⦃m : MetaApi⦄ (c : Client W) (mc : Machine W) : Type 1 where
  pub fenced : W → String → Type 0
  pub exited : W → List String → Type 0
  pub quiet : Frame c (Quiet fenced exited)
  pub update_node : (x : Node) (w : W) → Quiet fenced exited w (c.update_node x w).1
  pub delete_pods : (n : String) (w : W) → Quiet fenced exited w (c.delete_pods n w).1
  pub list_fars : (w : W) → Quiet fenced exited w (c.list_fars w).1
  pub runner :
      (ctx : Ctx W) (timeout : ℤ) (command : List String) (w : W)
      → Quiet fenced exited w (mc.runner ctx timeout command w).1
  pub sleep : (interval : ℤ) (w : W) → Quiet fenced exited w (mc.sleep interval w)
  pub default_pause : (w : W) → Quiet fenced exited w (mc.default_pause w)
  pub far_read :
      (ns n : String) (w : W) (far : FenceAgentsRemediation)
      → (c.get_far ns n w).0 ≡ ok far
      → is_fenced far ≡ true
      → fenced w far.meta.uid
  pub far_updated :
      (x : FenceAgentsRemediation) (w : W) (far : FenceAgentsRemediation)
      → (c.update_far x w).0 ≡ ok far
      → is_fenced far ≡ true
      → fenced w far.meta.uid
  pub fars_listed :
      (w : W) (fars : List FenceAgentsRemediation)
      → (c.list_fars w).0 ≡ ok fars
      → All (λ far. is_fenced far ≡ true → fenced w far.meta.uid) fars
  pub status_fenced :
      (x : FenceAgentsRemediation) (w : W) (uid : String)
      → fenced (c.update_far_status x w).1 uid
      → fenced w uid ⊎ ((x.meta.uid ≡ uid) × (is_fenced x ≡ true))
  pub status_exited :
      (x : FenceAgentsRemediation) (w : W) (command : List String)
      → exited w command
      → exited (c.update_far_status x w).1 command
  pub run_exited :
      (ctx : Ctx W) (timeout : ℤ) (command : List String) (t w : W) (out errors : String)
      → mc.runner ctx timeout command t ≡ ((out, errors, none), w)
      → exited w command

-- A goroutine of the resource was started with the command.
abbrev pub Started : Executer → String → List String → Type 0
Started e uid command = Any (λ g. (g.uid ≡ uid) × (g.command ≡ command)) e.goroutines

cancel-Started :
    (P : Goroutine → Type 0) (id : ℕ) (gs : List Goroutine)
    → ((g : Goroutine) → P g → P (record g { canceled = true }))
    → Any P gs
    → Any P (cancel id gs)
unfolding cancel
cancel-Started P id [] keep h = h
cancel-Started P id (g ∷ gs) keep h = elim (Bool-cases (eqb g.id id)) [
  | inl same ↦ rw same (elim h [ inl p ↦ inl (keep g p) | inr q ↦ inr q ])
  | inr other ↦ rw other (elim h [ inl p ↦ inl p | inr q ↦ inr (cancel-Started P id gs keep q) ])
]

pub remove_routine-Started :
    (e : Executer) (own uid : String) (command : List String)
    → Started e uid command
    → Started (remove_routine e own) uid command
unfolding remove_routine
remove_routine-Started e own uid command h = elim (Option-cases (get e.routines own)) [
  | inl absent ↦ rw (remove_routine, absent) h
  | inr (id, found) ↦
      rw (remove_routine, found)
        (cancel-Started (λ g. (g.uid ≡ uid) × (g.command ≡ command)) id e.goroutines (λ g p. p) h)
]

pub async_execute-Started :
    (e : Executer) (own : String) (run : List String) (retry_count retry_interval timeout : ℤ)
    (uid : String) (command : List String)
    → Started e uid command
    → Started (async_execute e own run retry_count retry_interval timeout) uid command
unfolding async_execute
async_execute-Started e own run retry_count retry_interval timeout uid command h =
    elim (Bool-cases (has e.routines own)) [
      | inl there ↦ rw there h
      | inr absent ↦ rw absent (inr h)
    ]
