-- ===== src/Utils/Conditions/Refinement.antt =====
-- pkg/utils/conditions.go: UpdateConditions against the abstract steps of Progress.
use fence_agents_remediation.Prelude.{
  ℕ, String, ◌≡◌, ◌≢◌, ◌↔◌, refl, ◌∙◌, Bool, true, false, ◌||◌, Option, none, some, List, arith,
  if◌then◌else◌, ◌==◌, eq_iff,
}
use fence_agents_remediation.Objects.{Condition, ConditionStatus}
use fence_agents_remediation.Libraries.Meta.{MetaApi}
use fence_agents_remediation.Api.{FenceAgentsRemediation}
use fence_agents_remediation.Utils.Conditions.{
  processing_type, succeeded_type, fence_agent_action_succeeded_type, ConditionsChangeReason,
  remediation_finished_node_not_found, other_reason, Requested, requested, new_condition,
  update_condition, update_all, update_requested, stamp, update_conditions,
}
use fence_agents_remediation.Utils.Conditions.Progress.{
  Progress, progress, status_in, differs, advance, changes,
}
use fence_agents_remediation.Utils.Conditions.Requests.{
  or_else, advance_by, changes_by, asked-advance, asked-changes, requested-changes,
}

or_rotate : (a b c : Bool) → (c || (b || (a || false))) ≡ (a || b || c)
or_rotate a b c = ground arith

-- A condition type that is not one of the three.
abbrev pub IsForeign : String → Type 0
IsForeign k = (k ≢ processing_type) × (k ≢ fence_agent_action_succeeded_type) × (k ≢ succeeded_type)

module _ ⦃m : MetaApi⦄ where
  -- No condition has been written, or the time of the last update is set.
  abbrev pub IsStamped : FenceAgentsRemediation → Type 0
  IsStamped far =
      far.status.last_update_time ≡ none
      → progress far.status.conditions
        ≡ record { processing = none; action = none; succeeded = none }

  status_in-update_condition :
      (kind k text : String) (wanted : Option ConditionStatus) (reason : ConditionsChangeReason)
      (st : List Condition × Bool)
      → status_in (update_condition kind wanted reason text st).0 k
        ≡ (if kind == k then or_else wanted (status_in st.0 k) else status_in st.0 k)
  unfolding update_condition
  status_in-update_condition kind k text none reason (cs, changed) = ground arith
  status_in-update_condition kind k text (some s) reason (cs, changed) = ground (
    arith,
    m.find-set cs (new_condition kind s reason text) k,
    m.present_and_equal_lem cs kind s,
    eq_iff kind k,
  )

  update_condition-changed :
      (kind text : String) (wanted : Option ConditionStatus) (reason : ConditionsChangeReason)
      (st : List Condition × Bool)
      → (update_condition kind wanted reason text st).1
        ≡ (differs wanted (status_in st.0 kind) || st.1)
  unfolding update_condition
  update_condition-changed kind text none reason (cs, changed) = refl
  update_condition-changed kind text (some s) reason (cs, changed) =
      ground (arith, m.present_and_equal_lem cs kind s)

  -- The three statuses after an update are those of the abstract step, and the update is noticed
  -- exactly if one of them changes.
  pub progress-update_all :
      (reason : ConditionsChangeReason) (r : Requested) (cs : List Condition)
      → progress (update_all reason r cs).0 ≡ advance_by (some r) (progress cs)
  unfolding update_all
  progress-update_all reason r cs = simp status_in-update_condition

  update_all-changed :
      (reason : ConditionsChangeReason) (r : Requested) (cs : List Condition)
      → (update_all reason r cs).1 ≡ changes_by (some r) (progress cs)
  unfolding update_all
  update_all-changed reason r cs =
      simp (update_condition-changed, status_in-update_condition)
        (or_rotate (differs r.processing (status_in cs processing_type))
          (differs r.action (status_in cs fence_agent_action_succeeded_type))
          (differs r.succeeded (status_in cs succeeded_type)))

  find-update_condition :
      (kind k text : String) (wanted : Option ConditionStatus) (reason : ConditionsChangeReason)
      (st : List Condition × Bool)
      → k ≢ kind
      → m.find_status_condition (update_condition kind wanted reason text st).0 k
        ≡ m.find_status_condition st.0 k
  unfolding update_condition
  find-update_condition kind k text none reason st h = refl
  find-update_condition kind k text (some s) reason (cs, changed) h =
      ground (arith, m.find-set cs (new_condition kind s reason text) k, eq_iff kind k)

  update_all-frame :
      (reason : ConditionsChangeReason) (r : Requested) (cs : List Condition) (k : String)
      → IsForeign k
      → m.find_status_condition (update_all reason r cs).0 k ≡ m.find_status_condition cs k
  unfolding update_all
  update_all-frame reason r cs k (p, a, s) =
      find-update_condition succeeded_type k r.text r.succeeded reason _ s
      ∙ find-update_condition fence_agent_action_succeeded_type k r.text r.action reason _ a
      ∙ find-update_condition processing_type k r.text r.processing reason _ p

  -- What an update by `reason` at the time `now` has done.
  pub record Updated (now : ℕ) (reason : ConditionsChangeReason) (far far' : FenceAgentsRemediation)
      : Type 0 where
    pub advanced : progress far'.status.conditions ≡ advance reason (progress far.status.conditions)
    pub time : far'.status.last_update_time ≡ (
        if changes reason (progress far.status.conditions)
        then some now
        else far.status.last_update_time)
    pub foreign_kept :
        (k : String)
        → IsForeign k
        → m.find_status_condition far'.status.conditions k
          ≡ m.find_status_condition far.status.conditions k
    pub meta_kept : far'.meta ≡ far.meta
    pub spec_kept : far'.spec ≡ far.spec

  stamp-eq-some :
      (now : ℕ) (far : FenceAgentsRemediation) (st : List Condition × Bool)
      → (st.1 ≡ false → far.status.last_update_time ≢ none)
      → stamp now far st
        ≡ some (record far {
          status = record {
            conditions = st.0;
            last_update_time = if st.1 then some now else far.status.last_update_time;
          };
        })
  unfolding stamp
  stamp-eq-some now far st h = ground arith

  stamp-eq-none_iff :
      (now : ℕ) (far : FenceAgentsRemediation) (st : List Condition × Bool)
      → (stamp now far st ≡ none) ↔ ((st.1 ≡ false) × (far.status.last_update_time ≡ none))
  unfolding stamp
  stamp-eq-none_iff now far st = ground arith

abbrev pub fresh : Progress
fresh = record { processing = none; action = none; succeeded = none }

changes-fresh :
    (reason : ConditionsChangeReason) → requested reason ≢ none → changes reason fresh ≡ true
unfolding requested
changes-fresh remediation_finished_node_not_found h = refl
changes-fresh (other_reason s) h = absurd (h refl)
changes-fresh _ h = refl

module _ ⦃m : MetaApi⦄ where
  update_requested-Updated :
      (now : ℕ) (reason : ConditionsChangeReason) (r : Option Requested)
      (far : FenceAgentsRemediation)
      → r ≡ requested reason
      → IsStamped far
      → (far' : FenceAgentsRemediation) × (update_requested now reason r far ≡ some far')
        × Updated now reason far far'
  unfolding update_requested
  update_requested-Updated now reason none far e h =
      let p = progress far.status.conditions in
      (
        far,
        refl,
        record {
          advanced = asked-advance reason none p e;
          time = rw (← asked-changes reason none p e);
          foreign_kept = λ k _. refl;
          meta_kept = refl;
          spec_kept = refl;
        },
      )
  update_requested-Updated now reason (some r) far e h =
      let p = progress far.status.conditions in
      let changed : (update_all reason r far.status.conditions).1 ≡ changes reason p =
        update_all-changed reason r far.status.conditions ∙ asked-changes reason (some r) p e in
      (
        _,
        stamp-eq-some now far (update_all reason r far.status.conditions) (λ same unset.
            let asked : requested reason ≢ none = rw (← e) (cc) in
            let noticed = changes-fresh reason asked in cc (changed, h unset)),
        record {
          advanced =
              progress-update_all reason r far.status.conditions
              ∙ asked-advance reason (some r) p e;
          time = rw changed;
          foreign_kept = update_all-frame reason r far.status.conditions;
          meta_kept = refl;
          spec_kept = refl;
        },
      )

  -- On a status that has no condition yet or has its update time set, UpdateConditions gives a
  -- result: the three conditions move as the abstract step of the reason says, the update time is
  -- set exactly if one of them moves, and the other conditions, the metadata and the spec stay.
  pub update_conditions-Updated :
      (now : ℕ) (reason : ConditionsChangeReason) (far : FenceAgentsRemediation)
      → IsStamped far
      → (far' : FenceAgentsRemediation) × (update_conditions now reason far ≡ some far')
        × Updated now reason far far'
  unfolding update_conditions
  update_conditions-Updated now reason far h =
      update_requested-Updated now reason (requested reason) far refl h

  update_requested-eq-none_iff :
      (now : ℕ) (reason : ConditionsChangeReason) (r : Option Requested)
      (far : FenceAgentsRemediation)
      → (update_requested now reason r far ≡ none) ↔ (
          (r ≢ none)
          × (changes_by r (progress far.status.conditions) ≡ false)
          × (far.status.last_update_time ≡ none))
  unfolding update_requested
  update_requested-eq-none_iff now reason none far = ground arith
  update_requested-eq-none_iff now reason (some r) far = ground (
    arith,
    stamp-eq-none_iff now far (update_all reason r far.status.conditions),
    update_all-changed reason r far.status.conditions,
  )

  -- UpdateConditions panics, on reading the time of the last update for its log line, exactly if
  -- the reason is a known one, no condition changes and no update time is set.
  pub update_conditions-eq-none_iff :
      (now : ℕ) (reason : ConditionsChangeReason) (far : FenceAgentsRemediation)
      → (update_conditions now reason far ≡ none) ↔ (
          (requested reason ≢ none)
          × (changes reason (progress far.status.conditions) ≡ false)
          × (far.status.last_update_time ≡ none))
  unfolding update_conditions
  update_conditions-eq-none_iff now reason far =
      rw (← requested-changes reason (progress far.status.conditions))
        (update_requested-eq-none_iff now reason (requested reason) far)
