-- ===== src/Chain/Amount/Scaling.antt =====
-- Shifting the decimal point of digits keeps what they are worth.
use native.Mathlib.Nat.{pow-suc, zero-add, suc-add, mul_assoc}
use cross_network_market_mak.Prelude.{
  ℕ, ◌+◌, ◌-◌, ◌*◌, ◌^◌, ◌≡◌, ◌<◌, ◌∙◌, refl, sym, ap, length, all, [], ◌∷◌, ◌++◌, suc, zero, true,
  some, ok, arith, Option-cases, inl, inr,
}
use cross_network_market_mak.Prelude.Text.{Text}
use cross_network_market_mak.Prelude.Decimal.{is_digit, parse_u64, scan, scan_all}
use cross_network_market_mak.Prelude.Int.{ℤ, pos, negsuc, sub_ℕ_parts, pos_part, neg_part}
use cross_network_market_mak.Chain.Amount.{
  zeros, take, drop, trim_zeros, is_zero_byte, scale_up, scale_down, scale_decimal_digits,
  decimal_shift, scale_significant,
}

-- The number that digits write, after what was read before.
abbrev pub worth : Text → ℕ → ℕ
worth [] n = n
worth (c ∷ s) n = worth s (n * 10 + (c - b'0'))

swap : (p q : ℕ) → p * 10 * q ≡ p * q * 10
swap p q = grind arith

pow_add : (a b : ℕ) → 10 ^ (a + b) ≡ 10 ^ a * 10 ^ b
pow_add zero b = rw zero-add (omega arith)
pow_add (suc a) b = rw suc-add (
    omega (
      arith,
      pow-suc 10 (a + b),
      ap (λ (t : ℕ). t * 10 ^ b) (pow-suc 10 a),
      swap (10 ^ a) (10 ^ b),
      pow_add a b,
    ))

worth-append : (s t : Text) (n : ℕ) → worth (s ++ t) n ≡ worth t (worth s n)
worth-append [] t n = refl
worth-append (c ∷ s) t n = worth-append s t (n * 10 + (c - b'0'))

regroup : (n p q : ℕ) → q ≡ p * 10 → (n * 10 + 0) * p ≡ n * q
regroup n p q h = rw h (grind arith)

worth-zeros : (k n : ℕ) → worth (zeros k) n ≡ n * 10 ^ k
worth-zeros zero n = omega arith
worth-zeros (suc k) n = worth-zeros k (n * 10 + 0) ∙ regroup n (10 ^ k) (10 ^ suc k) (pow-suc 10 k)

pub worth-trim_zeros : (s : Text) → worth (trim_zeros s) 0 ≡ worth s 0
worth-trim_zeros [] = refl
worth-trim_zeros (c ∷ s) = ground (arith, worth-trim_zeros s)

scan-worth : (s : Text) (acc n : ℕ) → scan s acc ≡ some n → n ≡ worth s acc
unfolding scan
scan-worth [] acc n h = ground arith
scan-worth (c ∷ s) acc n h = ground (arith, scan-worth s (acc * 10 + (c - b'0')) n)

parse_u64-worth : (s : Text) (n : ℕ) → all is_digit s ≡ true → parse_u64 s ≡ some n → n ≡ worth s 0
unfolding parse_u64 scan_all
parse_u64-worth [] n d h = cc
parse_u64-worth (c ∷ s) n d h = ground (arith, scan-worth (c ∷ s) 0 n)

take-drop : (n : ℕ) (s : Text) → take n s ++ drop n s ≡ s
take-drop zero s = refl
take-drop (suc n) [] = refl
take-drop (suc n) (c ∷ s) = ap (λ t. c ∷ t) (take-drop n s)

length-drop : (n : ℕ) (s : Text) → length (drop n s) ≡ length s - n
length-drop zero s = omega arith
length-drop (suc n) [] = omega arith
length-drop (suc n) (c ∷ s) = omega (arith, length-drop n s)

-- What is dropped by a shift to the right is worth nothing.
zero_byte : (c : ℕ) → c ≡ b'0' → c - b'0' ≡ 0
zero_byte c h = omega arith

worth_step :
    (c : ℕ) (s : Text) (n : ℕ)
    → all is_zero_byte (c ∷ s) ≡ true
    → (all is_zero_byte s ≡ true
        → worth s (n * 10 + (c - b'0')) ≡ (n * 10 + (c - b'0')) * 10 ^ length s)
    → worth (c ∷ s) n ≡ n * 10 ^ suc (length s)
worth_step c s n h ih =
    ih (ground arith)
    ∙ rw (zero_byte c (ground arith))
        (regroup n (10 ^ length s) (10 ^ suc (length s)) (pow-suc 10 (length s)))

worth_of_zeros : (s : Text) (n : ℕ) → all is_zero_byte s ≡ true → worth s n ≡ n * 10 ^ length s
worth_of_zeros [] n h = omega arith
worth_of_zeros (c ∷ s) n h = worth_step c s n h (worth_of_zeros s (n * 10 + (c - b'0')))

all-take : (n : ℕ) (s : Text) → all is_digit s ≡ true → all is_digit (take n s) ≡ true
all-take zero s h = refl
all-take (suc n) [] h = refl
all-take (suc n) (c ∷ s) h = ground (arith, all-take n s)

all-append_zeros : (s : Text) (k : ℕ) → all is_digit s ≡ true → all is_digit (s ++ zeros k) ≡ true
all-append_zeros [] zero h = refl
all-append_zeros [] (suc k) h = all-append_zeros [] k h
all-append_zeros (c ∷ s) k h = ground (arith, all-append_zeros s k)

pub all-append :
    (s t : Text) → all is_digit s ≡ true → all is_digit t ≡ true → all is_digit (s ++ t) ≡ true
all-append [] t h k = k
all-append (c ∷ s) t h k = ground (arith, all-append s t)

pub all-trim_zeros : (s : Text) → all is_digit s ≡ true → all is_digit (trim_zeros s) ≡ true
all-trim_zeros [] h = refl
all-trim_zeros (c ∷ s) h = ground (arith, all-trim_zeros s)

scale_up-ok : (s : Text) (k n : ℕ) → scale_up s k ≡ ok n → parse_u64 (s ++ zeros k) ≡ some n
unfolding scale_up
scale_up-ok s k n h = ground arith

scale_down-ok :
    (s : Text) (k n : ℕ)
    → scale_down s k ≡ ok n
    → (parse_u64 (take (length s - k) s) ≡ some n)
      × (all is_zero_byte (drop (length s - k) s) ≡ true)
      × (k < length s)
unfolding scale_down
scale_down-ok s k n h = ground arith

scale_up-worth :
    (s : Text) (k n : ℕ) → all is_digit s ≡ true → scale_up s k ≡ ok n → n ≡ worth s 0 * 10 ^ k
scale_up-worth s k n d h =
    let e = scale_up-ok s k n h in
    parse_u64-worth (s ++ zeros k) n (all-append_zeros s k d) e
    ∙ worth-append s (zeros k) 0
    ∙ worth-zeros k (worth s 0)

length_left : (s : Text) (k : ℕ) → k < length s → length (drop (length s - k) s) ≡ k
length_left s k h = omega (arith, length-drop (length s - k) s)

scale_down-worth :
    (s : Text) (k n : ℕ) → all is_digit s ≡ true → scale_down s k ≡ ok n → n * 10 ^ k ≡ worth s 0
scale_down-worth s k n d h =
    let e = scale_down-ok s k n h in
    let m = length s - k in
    let t = length-drop m s in
    let w : n ≡ worth (take m s) 0 = parse_u64-worth (take m s) n (all-take m s d) e.0 in
    let len : length (drop m s) ≡ k = length_left s k e.2 in
    ap (λ (x : ℕ). x * 10 ^ k) w
    ∙ ap (λ (j : ℕ). worth (take m s) 0 * 10 ^ j) (sym len)
    ∙ sym (worth_of_zeros (drop m s) (worth (take m s) 0) e.1)
    ∙ sym (worth-append (take m s) (drop m s) 0)
    ∙ ap (λ (t : Text). worth t 0) (take-drop m s)

decimal_shift-eq :
    (e shift : ℤ) (f : ℕ)
    → decimal_shift e f ≡ some shift
    → pos_part shift + (f + neg_part e) ≡ neg_part shift + (8 + pos_part e)
unfolding decimal_shift
decimal_shift-eq e shift f h = ground (arith, sub_ℕ_parts (pos_part e + 8) (neg_part e + f))

unscaled : (n m : ℕ) → n * 1 ≡ m → n ≡ m
unscaled n m h = omega arith

-- Scaling by a shift that stands for the places `f` and the powers `p` of ten.
scaled :
    (n v f p : ℕ) (shift : ℤ)
    → n * 10 ^ neg_part shift ≡ v * 10 ^ pos_part shift
    → pos_part shift + f ≡ neg_part shift + p
    → n * 10 ^ f ≡ v * 10 ^ p
scaled n v f p (pos k) h e =
    ap (λ (x : ℕ). x * 10 ^ f) (unscaled n (v * 10 ^ k) h)
    ∙ mul_assoc v (10 ^ k) (10 ^ f)
    ∙ ap (λ (x : ℕ). v * x) (sym (pow_add k f))
    ∙ ap (λ (j : ℕ). v * 10 ^ j) (omega (arith, e))
scaled n v f p (negsuc k) h e =
    ap (λ (j : ℕ). n * 10 ^ j) (omega (arith, e))
    ∙ ap (λ (x : ℕ). n * x) (pow_add (suc k) p)
    ∙ sym (mul_assoc n (10 ^ suc k) (10 ^ p))
    ∙ ap (λ (x : ℕ). x * 10 ^ p) (sym (unscaled v (n * 10 ^ suc k) (sym h)))

scale_decimal_digits-worth :
    (s : Text) (shift : ℤ) (n : ℕ)
    → all is_digit s ≡ true
    → scale_decimal_digits s shift ≡ ok n
    → n * 10 ^ neg_part shift ≡ worth s 0 * 10 ^ pos_part shift
unfolding scale_decimal_digits
scale_decimal_digits-worth s (pos k) n d h = omega (arith, scale_up-worth s k n d h)
scale_decimal_digits-worth s (negsuc k) n d h = omega (arith, scale_down-worth s (suc k) n d h)

zero_scaled : (n p q : ℕ) → n ≡ 0 → n * p ≡ 0 * q
zero_scaled n p q h = rw h (omega arith)

pub scale_significant-worth :
    (s : Text) (f n : ℕ) (e : ℤ)
    → all is_digit s ≡ true
    → scale_significant s f e ≡ ok n
    → n * 10 ^ (f + neg_part e) ≡ worth s 0 * 10 ^ (8 + pos_part e)
unfolding scale_significant
scale_significant-worth [] f n e d h =
    zero_scaled n (10 ^ (f + neg_part e)) (10 ^ (8 + pos_part e)) (ground arith)
scale_significant-worth (c ∷ s) f n e d h = elim (Option-cases (decimal_shift e f)) [
  | inl none_fits ↦ absurd (ground arith)
  | inr (shift, fits) ↦
      scaled n (worth (c ∷ s) 0) (f + neg_part e) (8 + pos_part e) shift
        (scale_decimal_digits-worth (c ∷ s) shift n d (ground arith))
        (decimal_shift-eq e shift f fits)
]
