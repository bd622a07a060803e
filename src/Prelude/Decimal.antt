-- ===== src/Prelude/Decimal.antt =====
-- Rust's `u64` in decimal: `to_string` and `str::parse::<u64>`.
use native.Mathlib.Nat.{pow-suc}
use cross_network_market_mak.Prelude.Tests.{ltb, leb, ◌==◌, if◌then◌else◌, Bool-cases}
use cross_network_market_mak.Prelude.Text.{Text}
use Prim.Native.Nat.{ℕ, zero, suc, ◌+◌, ◌-◌, ◌*◌, ◌/◌, ◌%◌, ◌^◌, ◌<◌}
use mathlib.Core.Path.{◌≡◌, refl, ◌∙◌}
use mathlib.Core.Logic.{◌≢◌, ◌⊎◌, inl, inr}
use mathlib.Core.Bool.{Bool, true, false, ◌&&◌}
use mathlib.Core.Option.{Option, none, some}
use mathlib.Core.List.{[], ◌∷◌, ◌++◌}
use native.Mathlib.Omega.{arith}

abbrev pub u64_limit : ℕ
u64_limit = 2 ^ 64

abbrev pub is_digit : ℕ → Bool
is_digit c = leb b'0' c && leb c b'9'

-- The digits of `n`, most significant first; `f` bounds their number.
unfoldable pub digits : ℕ → ℕ → Text
digits zero n = []
digits (suc f) n = elim (n / 10 == 0) [
  | true ↦ (b'0' + n % 10) ∷ []
  | false ↦ digits f (n / 10) ++ (b'0' + n % 10) ∷ []
]

-- A `u64` has at most twenty digits.
unfoldable pub to_string : ℕ → Text
unfolding digits
to_string n = digits 20 n

-- The digits read so far are worth `acc`; a value that leaves the range is an overflow.
unfoldable pub scan : Text → ℕ → Option ℕ
scan [] acc = some acc
scan (c ∷ s) acc =
    if is_digit c
    then (if ltb (acc * 10 + (c - b'0')) u64_limit then scan s (acc * 10 + (c - b'0')) else none)
    else none

-- At least one digit.
unfoldable pub scan_all : Text → Option ℕ
unfolding scan
scan_all [] = none
scan_all (c ∷ s) = scan (c ∷ s) 0

-- A leading `+` is accepted.
unfoldable pub parse_u64 : Text → Option ℕ
unfolding scan_all
parse_u64 [] = none
parse_u64 (c ∷ s) = if c == b'+' then scan_all s else scan_all (c ∷ s)

scan-lt : (s : Text) (acc n : ℕ) → acc < u64_limit → scan s acc ≡ some n → n < u64_limit
unfolding scan
scan-lt [] acc n h e = ground arith
scan-lt (c ∷ s) acc n h e = ground (arith, scan-lt s (acc * 10 + (c - b'0')) n)

scan_all-lt : (s : Text) (n : ℕ) → scan_all s ≡ some n → n < u64_limit
unfolding scan_all
scan_all-lt [] n e = cc
scan_all-lt (c ∷ s) n e = scan-lt (c ∷ s) 0 n (omega arith) e

pub parse_u64-lt : (s : Text) (n : ℕ) → parse_u64 s ≡ some n → n < u64_limit
unfolding parse_u64
parse_u64-lt [] n e = cc
parse_u64-lt (c ∷ s) n e = ground (arith, scan_all-lt s n, scan_all-lt (c ∷ s) n)

scan_nil : (acc : ℕ) → scan [] acc ≡ some acc
unfolding scan
scan_nil acc = refl

-- Scanning past a part that is worth `m` goes on from `m`.
scan-append : (s t : Text) (acc m : ℕ) → scan s acc ≡ some m → scan (s ++ t) acc ≡ scan t m
unfolding scan
scan-append [] t acc m e = ground arith
scan-append (c ∷ s) t acc m e = ground (arith, scan-append s t (acc * 10 + (c - b'0')) m)

digit_of :
    (m acc v : ℕ) → m < 10 → acc * 10 + m ≡ v → v < u64_limit → scan ((b'0' + m) ∷ []) acc ≡ some v
unfolding scan
digit_of m acc v h e b = ground arith

scan-digits : (f n : ℕ) → n < 10 ^ f → n < u64_limit → scan (digits f n) 0 ≡ some n
unfolding digits
scan-digits zero n h b = ground (arith, scan_nil 0)
scan-digits (suc f) n h b = elim (Bool-cases (n / 10 == 0)) [
  | inl e ↦ rw (e, digits) (digit_of (n % 10) 0 n (omega arith) (ground arith) b)
  | inr e ↦
      rw (e, digits)
        (scan-append (digits f (n / 10)) ((b'0' + n % 10) ∷ []) 0 (n / 10)
            (scan-digits f (n / 10) (omega (arith, pow-suc 10 f)) (omega arith))
          ∙ digit_of (n % 10) (n / 10) n (omega arith) (omega arith) b)
]

-- The first byte of a number in decimal is a digit.
data Headed : Text → Type 0 where
  headed : (c : ℕ) (s : Text) → is_digit c ≡ true → Headed (c ∷ s)

Headed-append : {s : Text} (t : Text) → Headed s → Headed (s ++ t)
Headed-append t (headed c s h) = headed c (s ++ t) h

is_digit_of : (n : ℕ) → is_digit (b'0' + n % 10) ≡ true
is_digit_of n = ground arith

digits-Headed : (f n : ℕ) → Headed (digits (suc f) n)
unfolding digits
digits-Headed zero n = elim (Bool-cases (n / 10 == 0)) [
  | inl e ↦ rw (e, digits) (headed _ _ (is_digit_of n))
  | inr e ↦ rw (e, digits) (headed _ _ (is_digit_of n))
]
digits-Headed (suc f) n = elim (Bool-cases (n / 10 == 0)) [
  | inl e ↦ rw (e, digits) (headed _ _ (is_digit_of n))
  | inr e ↦ rw (e, digits) (Headed-append _ (digits-Headed f (n / 10)))
]

parse_u64_of_Headed : {s : Text} → Headed s → parse_u64 s ≡ scan s 0
unfolding parse_u64
parse_u64_of_Headed (headed c s h) = ground arith

-- Printing and reading a number in range gives the number back.
pub parse_u64-to_string : (n : ℕ) → n < u64_limit → parse_u64 (to_string n) ≡ some n
unfolding to_string
parse_u64-to_string n h =
    parse_u64_of_Headed (digits-Headed 19 n) ∙ scan-digits 20 n (omega arith) h

-- No number but zero is printed with a leading zero.
data Led : Text → Type 0 where
  led : (c : ℕ) (s : Text) → c ≢ b'0' → Led (c ∷ s)

Led-append : {s : Text} (t : Text) → Led s → Led (s ++ t)
Led-append t (led c s h) = led c (s ++ t) h

digits-Led : (f n : ℕ) → n < 10 ^ f → 0 < n → Led (digits f n)
unfolding digits
digits-Led zero n h p = absurd (omega arith)
digits-Led (suc f) n h p = elim (Bool-cases (n / 10 == 0)) [
  | inl e ↦ rw (e, digits) (led _ _ (ground arith))
  | inr e ↦
      rw (e, digits)
        (Led-append _ (digits-Led f (n / 10) (omega (arith, pow-suc 10 f)) (ground arith)))
]

Led-cases : {s : Text} → Led s → (c : ℕ) × (t : Text) × (s ≡ c ∷ t) × (c ≢ b'0')
Led-cases (led c s h) = (c, s, refl, h)

to_string-zero : to_string 0 ≡ b'0' ∷ []
unfolding to_string
to_string-zero = refl

-- The text of a number is `0`, or begins with another byte than `0`.
pub to_string_head :
    (n : ℕ)
    → n < u64_limit
    → (to_string n ≡ b'0' ∷ []) ⊎ ((c : ℕ) × (t : Text) × (to_string n ≡ c ∷ t) × (c ≢ b'0'))
to_string_head zero h = inl to_string-zero
to_string_head (suc n) h =
    inr (Led-cases (unfold to_string in digits-Led 20 (suc n) (omega arith) (omega arith)))
