-- ===== src/Tests/Stage.antt =====
-- A cluster with one resource, whose status is a subresource, and a machine that writes down the
-- commands that it has run.
use fence_agents_remediation.Prelude.{
  ℕ, ◌+◌, String, ◌≡◌, refl, ◌∙◌, sym, true, Option, none, some, List, [], ◌∷◌, ◌==◌, eq_iff, ◌⊎◌,
  inl, inr, Any, if◌then◌else◌, Bool-cases, subst, ap, All, if-both, arith,
}
use fence_agents_remediation.Errors.{Error, Result, ok, err, ok-injective}
use fence_agents_remediation.Objects.{Node}
use fence_agents_remediation.Api.{FenceAgentsRemediation}
use fence_agents_remediation.Libraries.Client.{Client, Workload}
use fence_agents_remediation.Utils.Conditions.Fenced.{is_fenced}
use fence_agents_remediation.Cli.Executer.{Machine}
use fence_agents_remediation.Operator.History.{Quiet, History}
use fence_agents_remediation.Remediation.OutOfService.{is_out_of_service, TaintHistory}
use fence_agents_remediation.Tests.Libraries.{list_meta, list_marks, not_found, conflict}

pub record Stage : Type 0 where
  pub far : FenceAgentsRemediation
  pub node : Node
  pub deleted_pods_of : List String
  pub runs : List (List String)
  pub clock : ℕ

abbrev pub with_status : FenceAgentsRemediation → Stage → Stage
with_status x w = record w { far = record w.far { status = x.status } }

abbrev pub with_marks : FenceAgentsRemediation → Stage → Stage
with_marks x w = record w {
  far = record w.far { meta = record w.far.meta { finalizers = x.meta.finalizers } };
}

instance abbrev pub single : Client Stage
single = record {
  now = λ w. (w.clock, record w { clock = w.clock + 1 });
  get_node = λ n w. ((if n == w.node.name then ok w.node else err not_found), w);
  update_node =
      λ x w. if x.name == w.node.name then (none, record w { node = x }) else (some not_found, w);
  get_secret = λ n ns w. (err not_found, w);
  get_far = λ ns n w. (ok w.far, w);
  update_far = λ x w. (ok (with_marks x w).far, with_marks x w);
  update_far_status = λ x w.
      if w.far.meta.uid == x.meta.uid
      then (ok (with_status x w).far, with_status x w)
      else (err conflict, w);
  list_fars = λ w. (ok (w.far ∷ []), w);
  list_pods = λ k v ns w. (ok [], w);
  get_template = λ ns n w. (err not_found, w);
  patch_template_status = λ x w. (some not_found, w);
  event = λ kind n reason text w. w;
  delete_pods = λ n w. (none, record w { deleted_pods_of = n ∷ w.deleted_pods_of });
}

instance abbrev pub recorder : Machine Stage
recorder = record {
  runner = λ ctx timeout command w. (("", "", none), record w { runs = command ∷ w.runs });
  sleep = λ interval w. w;
  default_pause = λ w. w;
}

abbrev pub stage_workload : Workload single (List String)
stage_workload = record {
  seen = λ w. w.deleted_pods_of;
  seen-now = λ w. refl;
  seen-get_node = λ n w. refl;
  seen-update_node = λ x w.
      if-both (λ (r : Option Error × Stage). r.1.deleted_pods_of ≡ w.deleted_pods_of)
        (x.name == w.node.name) (λ _. refl) (λ _. refl);
  seen-get_secret = λ n ns w. refl;
  seen-get_far = λ ns n w. refl;
  seen-update_far = λ x w. refl;
  seen-update_far_status = λ x w.
      if-both
        (λ (r : Result FenceAgentsRemediation × Stage). r.1.deleted_pods_of ≡ w.deleted_pods_of)
        (w.far.meta.uid == x.meta.uid) (λ _. refl) (λ _. refl);
  seen-event = λ kind n reason text w. refl;
}

-- The resource is fenced while its condition is True.
abbrev pub FencedOn : Stage → String → Type 0
FencedOn w uid = (w.far.meta.uid ≡ uid) × (is_fenced w.far ≡ true)

abbrev pub ExitedOn : Stage → List String → Type 0
ExitedOn w command = Any (λ run. run ≡ command) w.runs

pub status-FencedOn :
    (x : FenceAgentsRemediation) (w : Stage) (uid : String)
    → FencedOn (single.update_far_status x w).1 uid
    → FencedOn w uid ⊎ ((x.meta.uid ≡ uid) × (is_fenced x ≡ true))
status-FencedOn x w uid h = elim (Bool-cases (w.far.meta.uid == x.meta.uid)) [
  | inl same ↦
      let now : FencedOn (with_status x w) uid = rw same at h in
      inr (sym ((eq_iff w.far.meta.uid x.meta.uid).0 same) ∙ now.0, now.1)
  | inr other ↦ inl (rw other at h)
]

pub status-ExitedOn :
    (x : FenceAgentsRemediation) (w : Stage) (command : List String)
    → ExitedOn w command
    → ExitedOn (single.update_far_status x w).1 command
status-ExitedOn x w command h =
    if-both (λ (r : Result FenceAgentsRemediation × Stage). ExitedOn r.1 command)
      (w.far.meta.uid == x.meta.uid) (λ _. h) (λ _. h)

pub listed_on :
    (w : Stage) (fars : List FenceAgentsRemediation)
    → (single.list_fars w).0 ≡ ok fars
    → All (λ far. is_fenced far ≡ true → FencedOn w far.meta.uid) fars
listed_on w fars found =
    subst (All (λ far. is_fenced far ≡ true → FencedOn w far.meta.uid)) (ok-injective found)
      ((λ t. (refl, t)), tt)

pub same_on :
    (w : Stage) (x far : FenceAgentsRemediation)
    → x.meta.uid ≡ w.far.meta.uid
    → is_fenced x ≡ is_fenced w.far
    → x ≡ far
    → is_fenced far ≡ true
    → FencedOn w far.meta.uid
same_on w x far uid status e t =
    (sym uid ∙ ap (λ y. y.meta.uid) e, sym status ∙ ap (λ y. is_fenced y) e ∙ t)

abbrev pub stage_history : History single recorder
stage_history = record {
  fenced = FencedOn;
  exited = ExitedOn;
  quiet = record {
    stay = λ w. ((λ n h. h), (λ n h. h));
    follow = λ u v w p q. ((λ n x. p.0 n (q.0 n x)), (λ n x. q.1 n (p.1 n x)));
    now = λ w. ((λ n h. h), (λ n h. h));
    get_node = λ n w. ((λ n h. h), (λ n h. h));
    get_secret = λ n ns w. ((λ n h. h), (λ n h. h));
    get_far = λ ns n w. ((λ n h. h), (λ n h. h));
    update_far = λ x w. ((λ n h. h), (λ n h. h));
    event = λ kind n reason text w. ((λ n h. h), (λ n h. h));
  };
  update_node = λ x w.
      if-both (λ (r : Option Error × Stage). Quiet FencedOn ExitedOn w r.1) (x.name == w.node.name)
        (λ _. ((λ n h. h), (λ n h. h))) (λ _. ((λ n h. h), (λ n h. h)));
  delete_pods = λ n w. ((λ n h. h), (λ n h. h));
  list_fars = λ w. ((λ n h. h), (λ n h. h));
  runner = λ ctx timeout command w. ((λ n h. h), (λ n h. inr h));
  sleep = λ interval w. ((λ n h. h), (λ n h. h));
  default_pause = λ w. ((λ n h. h), (λ n h. h));
  far_read = λ ns n w far found t. same_on w w.far far refl refl (ok-injective found) t;
  far_updated =
      λ x w far found t. same_on w (with_marks x w).far far refl refl (ok-injective found) t;
  fars_listed = listed_on;
  status_fenced = status-FencedOn;
  status_exited = status-ExitedOn;
  run_exited = λ ctx timeout command t w out errors e.
      subst (λ (r : (String × String × Option Error) × Stage). ExitedOn r.1 command) e (inl refl);
}

-- A node has the out-of-service taint.
abbrev pub TaintedOn : Stage → String → Type 0
TaintedOn w n = (w.node.name ≡ n) × (is_out_of_service w.node.taints ≡ true)

pub node_read :
    (n : String) (w : Stage) (x : Node)
    → (single.get_node n w).0 ≡ ok x
    → (w.node ≡ x) × (n ≡ w.node.name)
node_read n w x found = elim (Bool-cases (n == w.node.name)) [
  | inl same ↦
      let same_node : ok w.node ≡ ok x = rw same at found in
      (ok-injective same_node, (eq_iff n w.node.name).0 same)
  | inr other ↦
      let no_node : err not_found ≡ ok x = rw other at found in absurd (ground (arith, no_node))
]

pub node_updated :
    (x : Node) (w : Stage) (n : String)
    → TaintedOn (single.update_node x w).1 n
    → TaintedOn w n ⊎ ((x.name ≡ n) × (is_out_of_service x.taints ≡ true))
node_updated x w n h = elim (Bool-cases (x.name == w.node.name)) [
  | inl same ↦ let now : TaintedOn (record w { node = x }) n = rw same at h in inr now
  | inr other ↦ inl (rw other at h)
]

abbrev pub stage_taints : TaintHistory single
stage_taints = record {
  tainted = TaintedOn;
  frame = record {
    stay = λ w n h. h;
    follow = λ u v w p q n h. p n (q n h);
    now = λ w n h. h;
    get_node = λ k w n h. h;
    get_secret = λ k ns w n h. h;
    get_far = λ ns k w n h. h;
    update_far = λ x w n h. h;
    event = λ kind k reason text w n h. h;
  };
  stored = λ x w n.
      if-both (λ (r : Result FenceAgentsRemediation × Stage). TaintedOn r.1 n → TaintedOn w n)
        (w.far.meta.uid == x.meta.uid) (λ _ h. h) (λ _ h. h);
  drained = λ k w n h. h;
  named =
      λ n w x found. let (same, name) = node_read n w x found in sym (name ∙ ap (λ y. y.name) same);
  read = λ n w x found t.
      let (same, name) = node_read n w x found in
      (sym name, ap (λ y. is_out_of_service y.taints) same ∙ t);
  updated = node_updated;
}
