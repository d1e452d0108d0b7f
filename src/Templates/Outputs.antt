-- ===== src/Templates/Outputs.antt =====
-- What the output of a status command says.
use Prim.Native.Nat.{compare as compare_ℕ}
use Prim.Native.Char.{Char, code, len_utf8}
use Prim.Native.String.append
use Prim.Native.String.find
use Prim.Native.String.len
use Prim.Native.String.{[], ◌∷◌, ◌++◌, len, find, same, begins}
use text.Mathlib.Text.{find?}
use text.Mathlib.TextBridge.{IsPrefix}
use text.Mathlib.TextEquality.{starts_with_iff}
use text.Mathlib.TextFind.{begins_cases, find_cases}
use fence_agents_remediation.Prelude.{
  ℕ, ◌+◌, ◌≤◌, String, ◌≡◌, refl, sym, ◌∙◌, ap, subst, ◌⊎◌, ◌↔◌, inl, inr, true, not, is_none,
  arith,
}
use fence_agents_remediation.Libraries.Text.{TextApi}
use fence_agents_remediation.Templates.{says_on}

-- The text `t` stands in `s`.
abbrev pub Contains : String → String → Type 0
Contains t s = (u : String) × (v : String) × (s ≡ u ++ (t ++ v))

same-code : (c : Char) (y n : ℕ) → same (compare_ℕ (code c) (code c)) y n ≡ y
same-code c y n = ground arith

begins-append : (t v : String) (y n : ℕ) → begins (t ++ v) t y n ≡ y
begins-append [] v y n = refl
begins-append (c ∷ t) v y n =
    ap (λ s. begins s (c ∷ t) y n) (append.cons c t v)
    ∙ same-code c (begins (t ++ v) t y n) n
    ∙ begins-append t v y n

find_at_once : (s t : String) → ((y n : ℕ) → begins s t y n ≡ y) → find s t ≡ 0
find_at_once [] t h = find.nil t ∙ h 0 1
find_at_once (c ∷ s) t h = find.cons c s t ∙ h 0 _

find_later : (c : Char) (s t : String) → find s t ≤ len s → find (c ∷ s) t ≤ len (c ∷ s)
find_later c s t later = elim (begins_cases (c ∷ s) t 0 (len_utf8 c + find s t)) [
  | inl (now, _) ↦ omega (arith, find.cons c s t ∙ now)
  | inr next ↦ omega (arith, find.cons c s t ∙ next, len.cons c s, later)
]

find-append_le : (u t v : String) → find (u ++ (t ++ v)) t ≤ len (u ++ (t ++ v))
find-append_le [] t v =
    subst (λ s. find s t ≤ len s) (sym (append.nil (t ++ v)))
      (omega (arith, find_at_once (t ++ v) t (begins-append t v)))
find-append_le (c ∷ u) t v =
    subst (λ s. find s t ≤ len s) (sym (append.cons c u (t ++ v)))
      (find_later c (u ++ (t ++ v)) t (find-append_le u t v))

-- The search finds a text exactly if it stands there.
find?-Contains : (s t : String) → (not (is_none (find? s t)) ≡ true) ↔ Contains t s
find?-Contains s t = (
  (λ h. elim (find_cases s t) [
    | inl (u, v, same, _) ↦ (u, v, same)
    | inr miss ↦ absurd (ground (arith, h, miss))
  ]),
  (λ (u, v, same).
      let at : find s t ≤ len s = subst (λ r. find r t ≤ len r) (sym same) (find-append_le u t v) in
      ground (arith, at)),
)

-- The output says that the node is on: in capitals, `STATUS: ON` or `STATUS:ON` stands in it, or it
-- begins with `ON` after its white space.
abbrev pub IsOn : ⦃tx : TextApi⦄ → String → Type 0
IsOn ⦃tx⦄ stdout =
    let upper = tx.to_upper stdout in
    Contains "STATUS: ON" upper ⊎ (Contains "STATUS:ON" upper ⊎ IsPrefix "ON" (tx.trim_space upper))

pub says_on_iff : ⦃tx : TextApi⦄ → (stdout : String) → (says_on stdout ≡ true) ↔ IsOn stdout
unfolding says_on
says_on_iff ⦃tx⦄ stdout =
    let upper = tx.to_upper stdout in
    ground (
      arith,
      find?-Contains upper "STATUS: ON",
      find?-Contains upper "STATUS:ON",
      starts_with_iff (tx.trim_space upper) "ON",
    )
