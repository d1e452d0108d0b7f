-- ===== src/Tests/Libraries.antt =====
-- Small libraries that keep the laws which the interfaces state.
use fence_agents_remediation.Prelude.{
  String, ◌≡◌, refl, ◌↔◌, Bool, true, false, ◌&&◌, Option, none, some, List, [], ◌∷◌, ◌==◌, arith,
  eq_iff, if◌then◌else◌, All,
}
use text.Mathlib.Text.{find?}
use fence_agents_remediation.Errors.{
  Error, Result, ok, canceled, deadline_exceeded, message, wrapped, foreign,
}
use fence_agents_remediation.Objects.{Condition}
use fence_agents_remediation.Libraries.Meta.{MetaApi, has_status}
use fence_agents_remediation.Libraries.Failures.{FailureApi}
use fence_agents_remediation.Libraries.Marks.{MarkApi, same_effect}
use fence_agents_remediation.Libraries.Template.{TemplateEngine}
use fence_agents_remediation.Objects.{status_true}

abbrev find_first : List Condition → String → Option Condition
find_first [] k = none
find_first (c ∷ cs) k = if c.kind == k then some c else find_first cs k

abbrev set_first : List Condition → Condition → List Condition
set_first [] c = c ∷ []
set_first (d ∷ ds) c = if d.kind == c.kind then c ∷ ds else d ∷ set_first ds c

abbrev drop_kind : List Condition → String → List Condition
drop_kind [] k = []
drop_kind (c ∷ cs) k = let rest = drop_kind cs k in if c.kind == k then rest else c ∷ rest

pub find_first-set_first :
    (cs : List Condition) (c : Condition) (k : String)
    → find_first (set_first cs c) k ≡ (if c.kind == k then some c else find_first cs k)
find_first-set_first [] c k = refl
find_first-set_first (d ∷ ds) c k =
    ground
      (arith, find_first-set_first ds c k, eq_iff c.kind k, eq_iff d.kind k, eq_iff d.kind c.kind)

pub find_first-drop_kind :
    (cs : List Condition) (j k : String)
    → find_first (drop_kind cs j) k ≡ (if j == k then none else find_first cs k)
find_first-drop_kind [] j k = ground arith
find_first-drop_kind (c ∷ cs) j k =
    ground (arith, find_first-drop_kind cs j k, eq_iff j k, eq_iff c.kind k, eq_iff c.kind j)

instance abbrev pub list_meta : MetaApi
list_meta = record {
  find_status_condition = find_first;
  set_status_condition = set_first;
  remove_status_condition = drop_kind;
  is_status_condition_true = λ cs k. has_status (find_first cs k) status_true;
  is_status_condition_present_and_equal = λ cs k s. has_status (find_first cs k) s;
  find-set = find_first-set_first;
  find-remove = find_first-drop_kind;
  is_true_lem = λ cs k. refl;
  present_and_equal_lem = λ cs k s. refl;
}

abbrev pub not_found : Error
not_found = foreign "NotFound"

abbrev pub conflict : Error
conflict = foreign "Conflict"

abbrev pub timed_out : Error
timed_out = foreign "timed out waiting for the condition"

abbrev is_kind : String → Error → Bool
is_kind kind (foreign s) = s == kind
is_kind kind (wrapped _ e) = is_kind kind e
is_kind kind _ = false

abbrev is_interrupted : Error → Bool
is_interrupted canceled = true
is_interrupted deadline_exceeded = true
is_interrupted (message _) = false
is_interrupted (wrapped _ e) = is_interrupted e
is_interrupted (foreign s) = s == "timed out waiting for the condition"

abbrev first_error : List (Option Error) → Option Error
first_error [] = none
first_error (none ∷ es) = first_error es
first_error (some e ∷ es) = some e

pub first_error-eq-none_iff :
    (es : List (Option Error)) → (first_error es ≡ none) ↔ All (λ e. e ≡ none) es
first_error-eq-none_iff [] = ((λ _. tt), (λ _. refl))
first_error-eq-none_iff (none ∷ es) =
    let (to, from) = first_error-eq-none_iff es in ((λ h. (refl, to h)), (λ a. from a.1))
first_error-eq-none_iff (some e ∷ es) = ((λ h. cc), (λ a. a.0))

instance abbrev pub simple_failures : FailureApi
simple_failures = record {
  is_not_found = is_kind "NotFound";
  is_conflict = is_kind "Conflict";
  interrupted = is_interrupted;
  wait_timeout = timed_out;
  new_aggregate = first_error;
  is_not_found-wrapped = λ s e. refl;
  interrupted-canceled = refl;
  interrupted-deadline = refl;
  interrupted-wait_timeout = refl;
  interrupted-message = λ s. refl;
  new_aggregate-eq-none_iff = first_error-eq-none_iff;
}

abbrev contains : List String → String → Bool
contains [] f = false
contains (g ∷ gs) f = if g == f then true else contains gs f

abbrev without : List String → String → List String
without [] f = []
without (g ∷ gs) f = let rest = without gs f in if g == f then rest else g ∷ rest

pub contains-without :
    (fs : List String) (f g : String)
    → contains (without fs f) g ≡ (if f == g then false else contains fs g)
contains-without [] f g = ground arith
contains-without (h ∷ hs) f g =
    ground (arith, contains-without hs f g, eq_iff f g, eq_iff h g, eq_iff h f)

pub contains-cons :
    (fs : List String) (f g : String)
    → contains (f ∷ fs) g ≡ (if f == g then true else contains fs g)
contains-cons fs f g = refl

instance abbrev pub list_marks : MarkApi
list_marks = record {
  contains_finalizer = contains;
  add_finalizer = λ fs f. f ∷ fs;
  remove_finalizer = without;
  match_taint = λ a b. (a.key == b.key) && same_effect a.effect b.effect;
  contains-add = contains-cons;
  contains-remove = contains-without;
  match_taint_lem = λ a b. refl;
}

-- A text with an action renders as the name of the node.
abbrev render : String → String → String
render text node = elim (find? text "{{") [ none ↦ text | some _ ↦ node ]

pub render_plain :
    (text node : String)
    → find? text "{{" ≡ none
    → ◌≡◌ {A = Result String} (ok (render text node)) (ok text)
render_plain text node h = rw (render, h)

instance abbrev pub node_engine : TemplateEngine
node_engine = record {
  parse = λ text. none;
  execute = λ text node. ok (render text node);
  parse_plain = λ text h. refl;
  execute_plain = render_plain;
}
