-- ===== src/Validation/Version.antt =====
-- What the version check of pkg/validation/validation.go decides.
use Prim.Native.Char.{Char, code}
use Prim.Native.String.append.{nil, cons}
use fence_agents_remediation.Prelude.{
  ℕ, ◌+◌, ◌-◌, ◌*◌, ◌^◌, ◌≤◌, ◌<◌, ℤ, pos, String, ◌^^◌, ◌≡◌, ◌≢◌, refl, ◌∙◌, ap, ◌⊎◌, inl, inr,
  ◌↔◌, true, false, none, arith,
}
use fence_agents_remediation.Errors.{Error, Result, ok, err, ◌>>=◌}
use fence_agents_remediation.Libraries.Text.{TextApi}
use fence_agents_remediation.Validation.{
  VersionInfo, OutOfServiceTaintValidator, supports, set_flag,
  set_out_of_service_taint_supported_flag,
}
use fence_agents_remediation.Validation.Numbers.{
  is_digit, leading_digits, parse_digits, parse_uint, signed, parse_int, atoi,
}

abbrev pub AllDigits : String → Type 0
AllDigits String.[] = Unit
AllDigits (String.◌∷◌ c s) = (is_digit (code c) ≡ true) × AllDigits s

abbrev pub StartsWithoutDigit : String → Type 0
StartsWithoutDigit String.[] = Unit
StartsWithoutDigit (String.◌∷◌ c s) = is_digit (code c) ≡ false

-- The number that digits spell, as the sum of each digit times its power of ten.
abbrev pub place : String → ℕ
place String.[] = 1
place (String.◌∷◌ c s) = 10 * place s

abbrev pub value : String → ℕ
value String.[] = 0
value (String.◌∷◌ c s) = (code c - b'0') * place s + value s

place_pos : (s : String) → 0 < place s
place_pos String.[] = omega arith
place_pos (String.◌∷◌ c s) = omega (arith, place_pos s)

append_empty : (s : String) → "" ^^ s ≡ s
append_empty s = λ i. nil s i

append_step : (c : Char) (s t : String) → String.◌∷◌ c s ^^ t ≡ String.◌∷◌ c (s ^^ t)
append_step c s t = λ i. cons c s t i

leading_digits-stop : (s : String) → StartsWithoutDigit s → leading_digits s ≡ ""
unfolding leading_digits
leading_digits-stop String.[] h = refl
leading_digits-stop (String.◌∷◌ c s) h = rw h

leading_digits-append :
    (s rest : String) → AllDigits s → StartsWithoutDigit rest → leading_digits (s ^^ rest) ≡ s
unfolding leading_digits
leading_digits-append String.[] rest h k = rw (append_empty rest) (leading_digits-stop rest k)
leading_digits-append (String.◌∷◌ c s) rest h k =
    rw (append_step c s rest, h.0, leading_digits-append s rest h.1 k) refl

regroup : (n d p v : ℕ) → (n * 10 + d) * p + v ≡ n * (10 * p) + (d * p + v)
regroup n d p v = grind arith

grows : (n p v : ℕ) → 0 < p → n ≤ n * p + v
grows n p v h = grind arith

parse_digits-value :
    (n : ℕ) (s : String)
    → AllDigits s
    → n * place s + value s < 2 ^ 63
    → parse_digits n s ≡ ok (n * place s + value s)
unfolding parse_digits
parse_digits-value n String.[] h k = ap ok (omega arith)
parse_digits-value n (String.◌∷◌ c s) h k =
    let m = n * 10 + (code c - b'0') in
    rw h.0 (
      ground (
        arith,
        regroup n (code c - b'0') (place s) (value s),
        grows m (place s) (value s) (place_pos s),
        parse_digits-value m s h.1,
      ))

parse_uint-value :
    (s : String) → s ≢ "" → AllDigits s → value s < 2 ^ 63 → parse_uint s ≡ ok (value s)
unfolding parse_uint
parse_uint-value String.[] some_digit h k = absurd (some_digit refl)
parse_uint-value (String.◌∷◌ c s) some_digit h k =
    parse_digits-value 0 (String.◌∷◌ c s) h (omega arith) ∙ ap ok (omega arith)

signed-pos : (n : ℕ) → n < 2 ^ 63 → signed false n ≡ ok (pos n)
unfolding signed
signed-pos n h = ground arith

parse_int-unsigned :
    (c : Char) (s : String)
    → is_digit (code c) ≡ true
    → parse_int (String.◌∷◌ c s) ≡ (parse_uint (String.◌∷◌ c s) >>= signed false)
unfolding parse_int
parse_int-unsigned c s h = ground arith

atoi_ok : ⦃t : TextApi⦄ → (s : String) {n : ℤ} → parse_int s ≡ ok n → atoi s ≡ ok n
unfolding atoi
atoi_ok s h = rw (h, atoi) refl

atoi-value :
    ⦃t : TextApi⦄
    → (s : String) → s ≢ ""
    → AllDigits s
    → value s < 2 ^ 63
    → atoi s ≡ ok (pos (value s))
atoi-value String.[] some_digit h k = absurd (some_digit refl)
atoi-value (String.◌∷◌ c s) some_digit h k = atoi_ok _ (
    rw
      (
        parse_int-unsigned c s h.0,
        parse_uint-value (String.◌∷◌ c s) some_digit h k,
        signed-pos (value (String.◌∷◌ c s)) k,
      )
      refl)

supports_iff :
    (major minor : ℕ)
    → (supports (pos major) (pos minor) ≡ true) ↔ ((1 < major) ⊎ ((major ≡ 1) × (26 ≤ minor)))
unfolding supports
supports_iff major minor = (λ h. ground arith, λ h. ground arith)

-- A version whose parts are digits, but that the minor part may go on with something that does not
-- begin with a digit; both numbers fit an int.
pub record IsVersion (major minor rest : String) : Type 0 where
  pub major_is_there : major ≢ ""
  pub minor_is_there : minor ≢ ""
  pub major_digits : AllDigits major
  pub minor_digits : AllDigits minor
  pub rest_is_apart : StartsWithoutDigit rest
  pub major_fits : value major < 2 ^ 63
  pub minor_fits : value minor < 2 ^ 63

-- The version is 1.26 or later.
abbrev pub HasTaint : String → String → Type 0
HasTaint major minor = (1 < value major) ⊎ ((value major ≡ 1) × (26 ≤ value minor))

-- For a version whose major part is digits, and whose minor part is digits and then anything that does
-- not begin with a digit, both with numbers that fit an int, setOutOfServiceTaintSupportedFlag gives
-- no error, and the flag says whether the version is 1.26 or later.
pub set_out_of_service_taint_supported_flag-HasTaint :
    ⦃t : TextApi⦄
    → (major minor rest : String) (v : OutOfServiceTaintValidator) → IsVersion major minor rest
    → let (e, v') =
        set_out_of_service_taint_supported_flag
          (record { major = major; minor = minor ^^ rest })
          v in
      (e ≡ none) × ((v'.is_out_of_service_taint_supported ≡ true) ↔ HasTaint major minor)
unfolding set_out_of_service_taint_supported_flag set_flag
set_out_of_service_taint_supported_flag-HasTaint major minor rest v h =
    rw
      (
        atoi-value major h.major_is_there h.major_digits h.major_fits,
        leading_digits-append minor rest h.minor_digits h.rest_is_apart,
        atoi-value minor h.minor_is_there h.minor_digits h.minor_fits,
      )
      (refl, supports_iff (value major) (value minor))

atoi-empty : ⦃t : TextApi⦄ → (e : Error) × (atoi "" ≡ err e)
unfolding atoi parse_int
atoi-empty = (_, refl)

set_flag-refused :
    (major minor : Result ℤ) (v : OutOfServiceTaintValidator)
    → ((e : Error) × (major ≡ err e)) ⊎ ((e : Error) × (minor ≡ err e))
    → let (e, v') = set_flag major minor v in (e ≢ none) × (v' ≡ v)
unfolding set_flag
set_flag-refused (err e) minor v h = (λ c. cc, refl)
set_flag-refused (ok a) (err e) v h = (λ c. cc, refl)
set_flag-refused (ok a) (ok b) v (inl (e, h)) = cc
set_flag-refused (ok a) (ok b) v (inr (e, h)) = cc

-- If Atoi refuses the major part, or the minor part does not begin with a digit,
-- setOutOfServiceTaintSupportedFlag gives an error and leaves the flag as it is.
pub set_out_of_service_taint_supported_flag-refused :
    ⦃t : TextApi⦄
    → (version : VersionInfo) (v : OutOfServiceTaintValidator)
    → ((e : Error) × (atoi version.major ≡ err e)) ⊎ StartsWithoutDigit version.minor
    → let (e, v') = set_out_of_service_taint_supported_flag version v in (e ≢ none) × (v' ≡ v)
unfolding set_out_of_service_taint_supported_flag
set_out_of_service_taint_supported_flag-refused version v (inl h) = set_flag-refused _ _ v (inl h)
set_out_of_service_taint_supported_flag-refused version v (inr h) =
    set_flag-refused _ _ v (inr (rw (leading_digits-stop version.minor h) atoi-empty))
