-- ===== src/Operator/Covered.antt =====
-- A history, read as a ledger: each resource that says that its node is fenced has had a goroutine
-- whose command has been run and has given no error.
use fence_agents_remediation.Prelude.{String, List, [], ◌∷◌, inl, inr, All, subst}
use fence_agents_remediation.Libraries.Meta.{MetaApi}
use fence_agents_remediation.Libraries.Client.{Client}
use fence_agents_remediation.Api.{FenceAgentsRemediation}
use fence_agents_remediation.Cli.Routines.{Executer}
use fence_agents_remediation.Cli.Executer.{Machine}
use fence_agents_remediation.Operator.Ledger.{Kept, Kept-trans, Honest, Ledger}
use fence_agents_remediation.Operator.Routines.{Runs}
use fence_agents_remediation.Operator.History.{Quiet, History, Started}

All-weaken :
    {A : Type 0} (P Q : A → Type 0) (xs : List A) → ((a : A) → P a → Q a) → All P xs → All Q xs
All-weaken P Q [] f h = tt
All-weaken P Q (x ∷ xs) f (p, h) = (f x p, All-weaken P Q xs f h)

module _ {W : Type 0} ⦃m : MetaApi⦄ {c : Client W} {mc : Machine W} (h : History c mc)
    (e : Executer) where
  -- A goroutine of the resource was started with a command that has been run and has given no error.
  abbrev pub Backed : W → String → Type 0
  Backed w uid = (command : List String) × Started e uid command × h.exited w command

  -- This is so of every resource that says that its node is fenced.
  abbrev pub Covered : W → Type 0
  Covered w = (uid : String) → h.fenced w uid → Backed w uid

  pub keep : (w w' : W) → Quiet h.fenced h.exited w w' → Kept Covered Backed w w'
  keep w w' (no_more, stays) =
      let mono : (uid : String) → Backed w uid → Backed w' uid =
        λ uid (command, started, run). (command, started, stays command run) in
      ((λ covered uid now. mono uid (covered uid (no_more uid now))), mono)

  written :
      (x : FenceAgentsRemediation) (w : W)
      → Honest Covered Backed w x
      → Kept Covered Backed w (c.update_far_status x w).1
  written x w honest =
      let w' = (c.update_far_status x w).1 in
      let mono : (uid : String) → Backed w uid → Backed w' uid =
        λ uid (command, started, run). (command, started, h.status_exited x w command run) in
      (
        (λ covered uid now. elim (h.status_fenced x w uid now) [
          | inl old ↦ mono uid (covered uid old)
          | inr (same, t) ↦ subst (Backed w') same (mono x.meta.uid (honest t))
        ]),
        mono,
      )

  pub history-Ledger : Ledger Covered Backed c
  history-Ledger = record {
    frame = record {
      stay = λ w. keep w w (h.quiet.stay w);
      follow = Kept-trans Covered Backed;
      now = λ w. keep _ _ (h.quiet.now w);
      get_node = λ n w. keep _ _ (h.quiet.get_node n w);
      get_secret = λ n ns w. keep _ _ (h.quiet.get_secret n ns w);
      get_far = λ ns n w. keep _ _ (h.quiet.get_far ns n w);
      update_far = λ x w. keep _ _ (h.quiet.update_far x w);
      event = λ kind n reason text w. keep _ _ (h.quiet.event kind n reason text w);
    };
    update_node = λ x w. keep _ _ (h.update_node x w);
    delete_pods = λ n w. keep _ _ (h.delete_pods n w);
    list_fars = λ w. keep _ _ (h.list_fars w);
    far_read = λ ns n w far i found t. i _ (h.far_read ns n w far found t);
    far_updated = λ x w far i found t. i _ (h.far_updated x w far found t);
    fars_listed = λ w fars i found.
        All-weaken _ _ fars (λ far known t. i far.meta.uid (known t)) (h.fars_listed w fars found);
    status_written = written;
  }

  pub history-Runs : Runs Covered Backed mc
  history-Runs = record {
    runner = λ ctx timeout command w. keep _ _ (h.runner ctx timeout command w);
    sleep = λ interval w. keep _ _ (h.sleep interval w);
    default_pause = λ w. keep _ _ (h.default_pause w);
  }
