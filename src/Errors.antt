-- ===== src/Errors.antt =====
-- Go's `error`: an `Option Error`, with `none` for nil. The constructors are the ways in which the
-- program and Go's standard library make one, and `foreign`, an error of another package.
use fence_agents_remediation.Prelude.{
  String, ◌^^◌, Bool, true, false, Option, none, some, ◌≡◌, refl, ◌⊎◌, inl, inr,
}

pub data Error : Type 0 where
  canceled : Error  -- context.Canceled
  deadline_exceeded : Error  -- context.DeadlineExceeded
  message : String → Error  -- errors.New(text), and fmt.Errorf without %w
  wrapped : String → Error → Error  -- fmt.Errorf("text%w", err)
  foreign : String → Error  -- such as an API server's status

-- err.Error()
unfoldable pub error_text : Error → String
error_text canceled = "context canceled"
error_text deadline_exceeded = "context deadline exceeded"
error_text (message s) = s
error_text (wrapped s e) = s ^^ error_text e
error_text (foreign s) = s

-- errors.Is(err, context.Canceled)
unfoldable pub is_canceled : Error → Bool
is_canceled canceled = true
is_canceled (wrapped _ e) = is_canceled e
is_canceled _ = false

-- A value with a nil error, or an error.
pub data Result {ℓ} (A : Type ℓ) : Type ℓ where
  ok : A → Result A
  err : Error → Result A

pub Result-cases {ℓ} :
    {A : Type ℓ} (r : Result A) → ((a : A) × (r ≡ ok a)) ⊎ ((e : Error) × (r ≡ err e))
Result-cases (ok a) = inl (a, refl)
Result-cases (err e) = inr (e, refl)

-- `if err != nil { return …, err }`
infixl 5 ◌>>=◌ ◌>>◌
abbrev pub ◌>>=◌ {ℓ κ} : {A : Type ℓ} {B : Type κ} → Result A → (A → Result B) → Result B
ok a >>= k = k a
err e >>= k = err e

abbrev pub ◌>>◌ {ℓ} : {B : Type ℓ} → Result (Unit {0}) → Result B → Result B
m >> k = m >>= λ _. k

-- The error of a call that returns nothing else.
abbrev pub checked : Option Error → Result (Unit {0})
checked none = ok tt
checked (some e) = err e

-- Inversion of a successful sequence.
pub >>=-eq-ok {ℓ κ} :
    {A : Type ℓ} {B : Type κ} (m : Result A) (k : A → Result B) {b : B}
    → (m >>= k) ≡ ok b
    → (a : A) × (m ≡ ok a) × (k a ≡ ok b)
>>=-eq-ok (ok a) k h = (a, refl, h)
>>=-eq-ok (err e) k h = cc

pub ok-injective {ℓ} : {A : Type ℓ} {a b : A} → ok a ≡ ok b → a ≡ b
ok-injective e = cc

-- A call that returns, or panics.
pub data Outcome {ℓ} (A : Type ℓ) : Type ℓ where
  returned : A → Outcome A
  panicked : Outcome A
