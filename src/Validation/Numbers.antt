-- ===== src/Validation/Numbers.antt =====
-- strconv.Atoi and the regular expression `^(\d+)` of pkg/validation/validation.go, on texts.
use Prim.Native.Char.{code}
use fence_agents_remediation.Prelude.{
  ℕ, ◌+◌, ◌-◌, ◌*◌, ◌^◌, ℤ, pos, negsuc, String, ◌^^◌, Bool, true, false, ◌&&◌, ltb, leb, eqb,
  if◌then◌else◌,
}
use fence_agents_remediation.Errors.{Error, message, wrapped, Result, ok, err, ◌>>=◌}
use fence_agents_remediation.Libraries.Text.{TextApi}

abbrev pub is_digit : ℕ → Bool
is_digit c = leb b'0' c && leb c b'9'

-- leadingDigits.FindString: the longest prefix of digits.
unfoldable pub leading_digits : String → String
leading_digits String.[] = ""
leading_digits (String.◌∷◌ c s) = if is_digit (code c) then String.◌∷◌ c (leading_digits s) else ""

-- strconv.ErrSyntax and strconv.ErrRange
abbrev pub syntax_error : Error
syntax_error = message "invalid syntax"

abbrev pub range_error : Error
range_error = message "value out of range"

abbrev pub max_uint64 : ℕ
max_uint64 = 2 ^ 64 - 1

-- strconv.ParseUint in base 10, from the point where `n` has been read.
unfoldable pub parse_digits : ℕ → String → Result ℕ
parse_digits n String.[] = ok n
parse_digits n (String.◌∷◌ c s) =
    let m = n * 10 + (code c - b'0') in
    let rest = parse_digits m s in
    if is_digit (code c)
    then (if ltb max_uint64 m then err range_error else rest)
    else err syntax_error

unfoldable pub parse_uint : String → Result ℕ
unfolding parse_digits
parse_uint String.[] = err syntax_error
parse_uint (String.◌∷◌ c s) = parse_digits 0 (String.◌∷◌ c s)

-- An int has 64 bits.
unfoldable pub signed : Bool → ℕ → Result ℤ
signed negative n =
    if negative
    then (if leb n (2 ^ 63)
        then ok (if eqb n 0 then pos 0 else negsuc (n - 1))
        else err range_error)
    else (if ltb n (2 ^ 63) then ok (pos n) else err range_error)

-- A sign may stand first.
unfoldable pub parse_int : String → Result ℤ
unfolding parse_uint signed
parse_int String.[] = err syntax_error
parse_int (String.◌∷◌ c s) =
    if eqb (code c) b'-'
    then parse_uint s >>= signed true
    else (if eqb (code c) b'+'
        then parse_uint s >>= signed false
        else parse_uint (String.◌∷◌ c s) >>= signed false)

-- strconv.Atoi, whose error is a NumError.
unfoldable pub atoi : ⦃t : TextApi⦄ → String → Result ℤ
unfolding parse_int
atoi ⦃t⦄ s = elim (parse_int s) [
  | ok n ↦ ok n
  | err e ↦ err (wrapped ("strconv.Atoi: parsing " ^^ (t.quote s ^^ ": ")) e)
]
