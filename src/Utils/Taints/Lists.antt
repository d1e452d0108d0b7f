-- ===== src/Utils/Taints/Lists.antt =====
-- What TaintExists and deleteTaint do to a list of taints.
use fence_agents_remediation.Prelude.{
  String, ◌≡◌, refl, ◌∙◌, ap, Bool, true, false, ◌||◌, List, [], ◌∷◌, ◌++◌, arith, eq_iff, eq_refl,
  if◌then◌else◌, ◌==◌, Bool-cases, inl, inr,
}
use mathlib.Core.List.{append_assoc, append-nil}
use fence_agents_remediation.Objects.{
  Taint, TaintEffect, no_schedule, prefer_no_schedule, no_execute,
}
use fence_agents_remediation.Libraries.Marks.{MarkApi, same_effect}
use fence_agents_remediation.Utils.Taints.{taint_exists, delete_taint, delete_taint_from}

same_effect_comm : (a b : TaintEffect) → same_effect a b ≡ same_effect b a
same_effect_comm no_schedule no_schedule = refl
same_effect_comm no_schedule prefer_no_schedule = refl
same_effect_comm no_schedule no_execute = refl
same_effect_comm prefer_no_schedule no_schedule = refl
same_effect_comm prefer_no_schedule prefer_no_schedule = refl
same_effect_comm prefer_no_schedule no_execute = refl
same_effect_comm no_execute no_schedule = refl
same_effect_comm no_execute prefer_no_schedule = refl
same_effect_comm no_execute no_execute = refl

same_effect_refl : (a : TaintEffect) → same_effect a a ≡ true
same_effect_refl no_schedule = refl
same_effect_refl _ = refl

same_effect_trans :
    (a b c : TaintEffect) → same_effect a b ≡ true → same_effect a c ≡ same_effect b c
same_effect_trans a b c h = ground arith

str_eq_comm : (a b : String) → (a == b) ≡ (b == a)
str_eq_comm a b = ground (arith, eq_iff a b, eq_iff b a)

or-false : (b : Bool) → (b || false) ≡ b
or-false b = ground arith

or-true : (b : Bool) → (b || true) ≡ true
or-true b = ground arith

module _ ⦃m : MarkApi⦄ where
  pub match_taint_comm : (a b : Taint) → m.match_taint a b ≡ m.match_taint b a
  match_taint_comm a b = rw (
    m.match_taint_lem a b,
    m.match_taint_lem b a,
    str_eq_comm a.key b.key,
    same_effect_comm a.effect b.effect,
  )

  -- Matching taints match the same taints.
  pub match_taint_same :
      (a b t : Taint) → m.match_taint a b ≡ true → m.match_taint a t ≡ m.match_taint b t
  match_taint_same a b t h = ground (
    arith,
    m.match_taint_lem a b,
    m.match_taint_lem a t,
    m.match_taint_lem b t,
    eq_iff a.key b.key,
    eq_iff a.key t.key,
    eq_iff b.key t.key,
    same_effect_trans a.effect b.effect t.effect,
  )

  pub match_taint_refl : (t : Taint) → m.match_taint t t ≡ true
  match_taint_refl t = rw (m.match_taint_lem t t, eq_refl, same_effect_refl)

  pub taint_exists-append :
      (xs ys : List Taint) (t : Taint)
      → taint_exists (xs ++ ys) t ≡ (taint_exists xs t || taint_exists ys t)
  unfolding taint_exists
  taint_exists-append [] ys t = refl
  taint_exists-append (x ∷ xs) ys t = ground (arith, taint_exists-append xs ys t)

  -- The taints that do not match, in their order.
  pub others : List Taint → Taint → List Taint
  others [] t = []
  others (x ∷ xs) t = let rest = others xs t in if m.match_taint t x then rest else x ∷ rest

  delete_taint_from_lem :
      (kept : List Taint) (deleted : Bool) (xs : List Taint) (t : Taint)
      → delete_taint_from kept deleted xs t ≡ (kept ++ others xs t, deleted || taint_exists xs t)
  unfolding delete_taint_from others taint_exists
  delete_taint_from_lem kept deleted [] t = rw (append-nil, or-false)
  delete_taint_from_lem kept deleted (x ∷ xs) t = elim (Bool-cases (m.match_taint t x)) [
    | inl hit ↦ rw (hit, match_taint_comm x t, hit, or-true) (delete_taint_from_lem kept true xs t)
    | inr miss ↦
        rw (miss, match_taint_comm x t, miss)
          (delete_taint_from_lem (kept ++ x ∷ []) deleted xs t
            ∙ ap (λ k. (k, deleted || taint_exists xs t)) (append_assoc kept (x ∷ []) _))
  ]

  -- deleteTaint keeps exactly the taints with another key or another effect, in their order, and
  -- reports whether there was one to delete.
  pub delete_taint-others :
      (xs : List Taint) (t : Taint) → delete_taint xs t ≡ (others xs t, taint_exists xs t)
  unfolding delete_taint
  delete_taint-others xs t = delete_taint_from_lem [] false xs t

  -- After the deletion a taint is there if it was there before and does not match.
  pub taint_exists-others :
      (xs : List Taint) (t s : Taint)
      → taint_exists (others xs t) s ≡ (if m.match_taint t s then false else taint_exists xs s)
  unfolding others taint_exists
  taint_exists-others [] t s = ground arith
  taint_exists-others (x ∷ xs) t s = ground (
    arith,
    taint_exists-others xs t s,
    match_taint_same t x s,
    match_taint_same s t x,
    match_taint_comm s t,
    match_taint_comm s x,
  )

  pub others_of_absent :
      (xs : List Taint) (t : Taint) → taint_exists xs t ≡ false → others xs t ≡ xs
  unfolding others taint_exists
  others_of_absent [] t h = refl
  others_of_absent (x ∷ xs) t h = ground (arith, others_of_absent xs t, match_taint_comm x t)

  pub others-append :
      (xs ys : List Taint) (t : Taint) → others (xs ++ ys) t ≡ others xs t ++ others ys t
  unfolding others
  others-append [] ys t = refl
  others-append (x ∷ xs) ys t = ground (arith, others-append xs ys t)

  pub others_of_match : (t u : Taint) → m.match_taint t u ≡ true → others (u ∷ []) t ≡ []
  unfolding others
  others_of_match t u h = rw h
