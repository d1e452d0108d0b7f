-- ===== src/Remediation/Status.antt =====
-- What a status update with no error has seen.
use fence_agents_remediation.Prelude.{
  ℕ, ◌≤◌, pos, ◌≡◌, refl, ◌∙◌, sym, ap, true, false, not, ◌&&◌, Option, none, some, ◌⊎◌, inl, inr,
  if-both, arith,
}
use fence_agents_remediation.Errors.{Error, Result, ok, err, Outcome, returned}
use fence_agents_remediation.Libraries.Failures.{FailureApi}
use fence_agents_remediation.Libraries.Marks.{MarkApi}
use fence_agents_remediation.Libraries.Client.{Client}
use fence_agents_remediation.Libraries.Wait.{WaitApi, done}
use fence_agents_remediation.Api.{FenceAgentsRemediation, far_finalizer}
use fence_agents_remediation.Cli.Executer.{Attempt}
use fence_agents_remediation.Remediation.{
  is_deleting, is_up_to_date, poll_of_read, is_cached, wait_result, await_cache, update_status,
}

-- A read of the resource `far` gives that it is gone, or a copy whose update time is the one of `far`
-- or later, both being set.
abbrev pub IsFresh :
    ⦃f : FailureApi⦄ → FenceAgentsRemediation → Result FenceAgentsRemediation → Type 0
IsFresh ⦃f⦄ far (err e) = f.is_not_found e ≡ true
IsFresh far (ok read) =
    (t : ℕ) × (own : ℕ) × (read.status.last_update_time ≡ some t)
    × (far.status.last_update_time ≡ some own)
    × (own ≤ t)

is_up_to_date-true :
    (read own : Option ℕ)
    → is_up_to_date read own ≡ returned true
    → (t : ℕ) × (o : ℕ) × (read ≡ some t) × (own ≡ some o) × (o ≤ t)
is_up_to_date-true none own h = absurd (ground (arith, h))
is_up_to_date-true (some t) none h = absurd (ground (arith, h))
is_up_to_date-true (some t) (some o) h = (t, o, refl, refl, ground (arith, h))

module _ {W : Type 0} ⦃f : FailureApi⦄ where
  poll_of_read-IsFresh :
      (far : FenceAgentsRemediation) (r : Result FenceAgentsRemediation × W)
      → (poll_of_read far r).0 ≡ done
      → IsFresh far r.0
  unfolding poll_of_read
  poll_of_read-IsFresh far (err e, w) h = ground arith
  poll_of_read-IsFresh far (ok read, w) h =
      is_up_to_date-true read.status.last_update_time far.status.last_update_time (ground arith)

  wait_result-eq-none :
      (r : Option Error × Attempt W) → (wait_result r).0 ≡ returned none → r.0 ≡ none
  unfolding wait_result
  wait_result-eq-none r h = ground arith

  wait_result-world : (r : Option Error × Attempt W) → (wait_result r).1 ≡ r.1.world
  unfolding wait_result
  wait_result-world r = ground arith

  poll_of_read-world :
      (far : FenceAgentsRemediation) (r : Result FenceAgentsRemediation × W)
      → (poll_of_read far r).1.world ≡ r.1
  unfolding poll_of_read
  poll_of_read-world far (err e, w) = refl
  poll_of_read-world far (ok read, w) = ground arith

  module _ ⦃c : Client W⦄ ⦃mk : MarkApi⦄ ⦃wt : WaitApi f⦄ where
    await_cache-IsFresh :
        (r : Result FenceAgentsRemediation × W)
        → (await_cache r).0 ≡ returned none
        → (far : FenceAgentsRemediation) × (r.0 ≡ ok far)
          × ((t : W) × IsFresh far (c.get_far far.meta.namespace far.meta.name t).0
              × ((await_cache r).1 ≡ (c.get_far far.meta.namespace far.meta.name t).1))
    unfolding await_cache is_cached
    await_cache-IsFresh (err e, w) h = absurd (cc h)
    await_cache-IsFresh (ok far, w) h =
        let polled =
          wt.poll_until_context_timeout (pos 200000000) (pos 5000000000) true (is_cached far)
            (record { world = w; crashed = false }) in
        let (st, seen) =
          wt.poll_until_ok (pos 200000000) (pos 5000000000) true (is_cached far)
            (record { world = w; crashed = false }) (wait_result-eq-none polled h) in
        let read = c.get_far far.meta.namespace far.meta.name st.world in
        (
          far,
          refl,
          (
            st.world,
            poll_of_read-IsFresh far read (ap (λ x. x.0) seen),
            wait_result-world polled ∙ sym (ap (λ x. x.1.world) seen) ∙ poll_of_read-world far read,
          ),
        )

    -- If updateStatus gives no error, it was skipped, for a resource that is being deleted and has no
    -- finalizer; or the status was stored, and the last call, a read, found the resource gone or not
    -- older than what was stored: its update time is that one or later.
    pub update_status-IsFresh :
        (far : FenceAgentsRemediation) (w : W)
        → (update_status far w).0 ≡ returned none
        → ((mk.contains_finalizer far.meta.finalizers far_finalizer ≡ false)
            × (is_deleting far ≡ true))
          ⊎ ((stored : FenceAgentsRemediation) × ((c.update_far_status far w).0 ≡ ok stored)
              × ((t : W) × IsFresh stored (c.get_far stored.meta.namespace stored.meta.name t).0
                  × ((update_status far w).1
                      ≡ (c.get_far stored.meta.namespace stored.meta.name t).1)))
    unfolding update_status
    update_status-IsFresh far w h =
        let P : Outcome (Option Error) × W → Type 0 = λ r.
          r.0 ≡ returned none
          → ((mk.contains_finalizer far.meta.finalizers far_finalizer ≡ false)
              × (is_deleting far ≡ true))
            ⊎ ((stored : FenceAgentsRemediation) × ((c.update_far_status far w).0 ≡ ok stored)
                × ((t : W) × IsFresh stored (c.get_far stored.meta.namespace stored.meta.name t).0
                    × (r.1 ≡ (c.get_far stored.meta.namespace stored.meta.name t).1))) in
        if-both P (not (mk.contains_finalizer far.meta.finalizers far_finalizer) && is_deleting far)
          (λ leaving _. inl (ground arith, ground arith))
          (λ _ fine. inr (await_cache-IsFresh (c.update_far_status far w) fine)) h
