-- ===== src/Prelude/Dict.antt =====
-- Go's maps with string keys, as association lists. The order of the entries is the order in
-- which `range` visits them, which Go leaves open: a theorem for every list is one for every order.
use Prim.Native.String.{String}
use mathlib.Core.Path.{◌≡◌, refl, ◌∙◌}
use mathlib.Core.Logic.{◌≢◌, inl, inr}
use fence_agents_remediation.Prelude.Lists.{Bool-cases}
use mathlib.Core.Bool.{Bool, true, false, cond}
use mathlib.Core.Option.{Option, none, some}
use mathlib.Core.List.{List, [], ◌∷◌}
use native.Mathlib.Omega.{arith}
use text.Mathlib.Text.{◌==◌}
use text.Mathlib.TextEquality.{eq_iff}

abbrev pub Dict {ℓ} : Type ℓ → Type ℓ
Dict V = List (String × V)

not_eq : (k j : String) → (j == k) ≡ false → (k == j) ≡ false
not_eq k j h = ground (arith, eq_iff j k, eq_iff k j)

module _ {ℓ} {V : Type ℓ} where
  -- `v, ok := m[k]`
  unfoldable pub get : Dict V → String → Option V
  get [] k = none
  get ((j, v) ∷ m) k = cond (j == k) (some v) (get m k)

  -- `_, ok := m[k]`
  unfoldable pub has : Dict V → String → Bool
  has [] k = false
  has ((j, _) ∷ m) k = cond (j == k) true (has m k)

  -- `m[k] = v`
  unfoldable pub put : Dict V → String → V → Dict V
  put [] k v = (k, v) ∷ []
  put ((j, w) ∷ m) k v = cond (j == k) ((k, v) ∷ m) ((j, w) ∷ put m k v)

  -- `delete(m, k)`
  unfoldable pub remove : Dict V → String → Dict V
  remove [] k = []
  remove ((j, w) ∷ m) k = let rest = remove m k in cond (j == k) rest ((j, w) ∷ rest)

  -- `maps.Copy(dst, src)`
  unfoldable pub copy : Dict V → Dict V → Dict V
  copy dst [] = dst
  copy dst ((k, v) ∷ src) = copy (put dst k v) src

  -- `maps.Keys(m)`
  unfoldable pub keys : Dict V → List String
  keys [] = []
  keys ((k, _) ∷ m) = k ∷ keys m

  -- No key twice: what holds of every map that a program can build.
  abbrev pub IsMap : Dict V → Type ℓ
  IsMap [] = Unit
  IsMap ((k, v) ∷ m) = (get m k ≡ none) × IsMap m

  pub get-put :
      (m : Dict V) (k j : String) (v : V) → get (put m k v) j ≡ cond (k == j) (some v) (get m j)
  unfolding get put
  get-put [] k j v = refl
  get-put ((i, w) ∷ m) k j v = ground (arith, eq_iff k j, eq_iff i k, eq_iff i j, get-put m k j v)

  pub get-remove : (m : Dict V) (k j : String) → get (remove m k) j ≡ cond (k == j) none (get m j)
  unfolding get remove
  get-remove [] k j = ground arith
  get-remove ((i, w) ∷ m) k j = ground (arith, eq_iff k j, eq_iff i k, eq_iff i j, get-remove m k j)

  pub has-eq-false : (m : Dict V) (k : String) → has m k ≡ false → get m k ≡ none
  unfolding get has
  has-eq-false [] k h = refl
  has-eq-false ((j, v) ∷ m) k h = ground (arith, has-eq-false m k)

  pub has-eq-true : (m : Dict V) (k : String) → has m k ≡ true → get m k ≢ none
  unfolding get has
  has-eq-true [] k h = cc
  has-eq-true ((j, v) ∷ m) k h = ground (arith, has-eq-true m k)

  pub put-ne-nil : (m : Dict V) (k : String) (v : V) → put m k v ≢ []
  unfolding put
  put-ne-nil [] k v = cc
  put-ne-nil ((j, w) ∷ m) k v = ground arith

  -- Later entries of the source win; with no key twice, its own entry does.
  pub get-copy :
      (dst src : Dict V) (k : String)
      → IsMap src
      → get (copy dst src) k ≡ elim (get src k) [ none ↦ get dst k | some v ↦ some v ]
  unfolding copy get
  get-copy dst [] k h = refl
  get-copy dst ((j, v) ∷ src) k (fresh, h) =
      ground (arith, get-copy (put dst j v) src k h, get-put dst j k v, eq_iff j k)

  pub IsMap-put : (m : Dict V) (k : String) (v : V) → IsMap m → IsMap (put m k v)
  unfolding put get
  IsMap-put [] k v h = (refl, tt)
  IsMap-put ((j, w) ∷ m) k v (fresh, h) = elim (Bool-cases (j == k)) [
    | inl same ↦ rw same (rw (← (eq_iff j k).0 same) fresh, h)
    | inr other ↦ rw other (get-put m k j v ∙ rw (not_eq k j other) fresh, IsMap-put m k v h)
  ]

  pub IsMap-copy : (dst src : Dict V) → IsMap dst → IsMap (copy dst src)
  unfolding copy
  IsMap-copy dst [] h = h
  IsMap-copy dst ((k, v) ∷ src) h = IsMap-copy (put dst k v) src (IsMap-put dst k v h)
