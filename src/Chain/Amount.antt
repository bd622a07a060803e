-- ===== src/Chain/Amount.antt =====
-- src/chain/observation.rs: coin amounts of the nodes' answers, read without floating point.
pub mod Scaling
pub mod Exact
use cross_network_market_mak.Prelude.{
  ℕ, ◌+◌, ◌-◌, ◌*◌, ◌^◌, ltb, leb, ◌==◌, length, all, any, List, [], ◌∷◌, ◌++◌, suc, zero, Bool,
  true, false, not, ◌&&◌, ◌||◌, Option, none, some, ok, err, ok_or, reject_if, if◌then◌else◌,
  String,
}
use cross_network_market_mak.Prelude.Outcome.{◌>>=◌, ◌>>◌}
use cross_network_market_mak.Prelude.Text.{Text}
use cross_network_market_mak.Prelude.Decimal.{is_digit, parse_u64}
use cross_network_market_mak.Prelude.Int.{ℤ, pos, negsuc, sub_ℕ, pos_part, neg_part}
use cross_network_market_mak.Core.Amount.{is_empty}
use cross_network_market_mak.Chain.Types.{ChainResult, validation}

-- The text before the first byte that passes the test, and the text after it.
unfoldable pub split_once : (ℕ → Bool) → Text → Option (Text × Text)
split_once p [] = none
split_once p (c ∷ s) =
    let rest = split_once p s in
    if p c then some ([], s) else elim rest [ none ↦ none | some (a, b) ↦ some (c ∷ a, b) ]

abbrev pub is_exponent_mark : ℕ → Bool
is_exponent_mark c = c == b'e' || c == b'E'

abbrev pub is_point : ℕ → Bool
is_point c = c == b'.'

-- `i128::checked_mul(10)` and `checked_add` of a digit.
unfoldable pub fold_digits : Text → ℕ → Option ℕ
fold_digits [] current = some current
fold_digits (c ∷ s) current =
    if ltb (current * 10 + (c - b'0')) (2 ^ 127)
    then fold_digits s (current * 10 + (c - b'0'))
    else none

abbrev pub negate : ℕ → ℤ
negate n = sub_ℕ 0 n

unfoldable pub parse_magnitude : Bool → Text → ChainResult ℤ
parse_magnitude negative digits = do
  reject_if (is_empty digits || not (all is_digit digits))
      (validation "RPC amount exponent is invalid")
  magnitude ←
      ok_or (fold_digits digits 0) (validation "RPC amount exponent exceeds supported range")
  ok (if negative then negate magnitude else pos magnitude)

unfoldable pub parse_decimal_exponent : Text → ChainResult ℤ
parse_decimal_exponent [] = err (validation "RPC amount exponent is invalid")
parse_decimal_exponent (c ∷ s) =
    if c == b'+'
    then parse_magnitude false s
    else if c == b'-'
    then parse_magnitude true s
    else parse_magnitude false (c ∷ s)

abbrev pub zeros : ℕ → Text
zeros zero = []
zeros (suc n) = b'0' ∷ zeros n

abbrev pub take : ℕ → Text → Text
take zero s = []
take (suc n) [] = []
take (suc n) (c ∷ s) = c ∷ take n s

abbrev pub drop : ℕ → Text → Text
drop zero s = s
drop (suc n) [] = []
drop (suc n) (c ∷ s) = drop n s

abbrev pub trim_zeros : Text → Text
trim_zeros [] = []
trim_zeros (c ∷ s) = if c == b'0' then trim_zeros s else c ∷ s

abbrev pub is_zero_byte : ℕ → Bool
is_zero_byte c = c == b'0'

-- A shift to the left; the length is checked before anything is allocated.
unfoldable pub scale_up : Text → ℕ → ChainResult ℕ
scale_up digits append = do
  reject_if (not (ltb append (2 ^ 64))) (validation "RPC amount exceeds u64")
  reject_if (not (ltb (length digits + append) (2 ^ 64))) (validation "RPC amount exceeds u64")
  reject_if (ltb 20 (length digits + append)) (validation "RPC amount exceeds u64")
  ok_or (parse_u64 (digits ++ zeros append)) (validation "RPC amount exceeds u64")

-- A shift to the right, which must not lose anything.
unfoldable pub scale_down : Text → ℕ → ChainResult ℕ
scale_down digits division = do
  reject_if (not (ltb division (2 ^ 64))) (validation "RPC amount is below one satoshi")
  reject_if (leb (length digits) division) (validation "RPC amount is below one satoshi")
  reject_if (not (all is_zero_byte (drop (length digits - division) digits)))
      (validation "RPC amount has sub-satoshi precision")
  reject_if (ltb 20 (length (take (length digits - division) digits)))
      (validation "RPC amount exceeds u64")
  ok_or (parse_u64 (take (length digits - division) digits)) (validation "RPC amount exceeds u64")

-- The least `i128` has no negation; its magnitude is out of range for `usize` all the same.
unfoldable pub scale_decimal_digits : Text → ℤ → ChainResult ℕ
scale_decimal_digits digits (pos append) = scale_up digits append
scale_decimal_digits digits (negsuc n) = scale_down digits (suc n)

-- `exponent.checked_sub(fractional_digits)` and `checked_add(8)` on `i128`.
unfoldable pub decimal_shift : ℤ → ℕ → Option ℤ
decimal_shift exponent fractional_digits =
    if ltb (2 ^ 127) (neg_part (sub_ℕ (pos_part exponent) (neg_part exponent + fractional_digits)))
      || not (
          ltb (pos_part (sub_ℕ (pos_part exponent + 8) (neg_part exponent + fractional_digits)))
            (2 ^ 127))
    then none
    else some (sub_ℕ (pos_part exponent + 8) (neg_part exponent + fractional_digits))

unfoldable pub scale_significant : Text → ℕ → ℤ → ChainResult ℕ
scale_significant [] fractional_digits exponent = ok 0
scale_significant (c ∷ s) fractional_digits exponent = do
  shift ←
      ok_or (decimal_shift exponent fractional_digits)
        (validation "RPC amount exceeds supported range")
  scale_decimal_digits (c ∷ s) shift

unfoldable pub scale_parts : Text → Text → Bool → ℤ → ChainResult ℕ
scale_parts whole fractional has_point exponent = do
  reject_if
      (is_empty whole
        || not (all is_digit whole)
        || (has_point && (is_empty fractional || not (all is_digit fractional))))
      (validation "RPC amount must be a valid non-negative decimal")
  scale_significant (trim_zeros (whole ++ fractional)) (length fractional) exponent

unfoldable pub parse_mantissa : Text → ℤ → ChainResult ℕ
parse_mantissa mantissa exponent = elim (split_once is_point mantissa) [
  | none ↦ scale_parts mantissa [] false exponent
  | some (whole, fractional) ↦ scale_parts whole fractional true exponent
]

unfoldable pub parse_decimal_sats : Text → ChainResult ℕ
parse_decimal_sats value = elim (split_once is_exponent_mark value) [
  | none ↦ parse_mantissa value (pos 0)
  | some (mantissa, marked) ↦
      parse_decimal_exponent marked >>= λ exponent. parse_mantissa mantissa exponent
]
