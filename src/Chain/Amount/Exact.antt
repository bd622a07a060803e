-- ===== src/Chain/Amount/Exact.antt =====
-- An amount that is read is worth exactly what its text says.
use cross_network_market_mak.Prelude.{
  ℕ, ◌+◌, ◌-◌, ◌*◌, ◌^◌, ◌≡◌, ◌∙◌, refl, ap, ◌==◌, length, all, [], ◌∷◌, ◌++◌, Bool, true, false,
  some, ok, arith, Bool-cases, Option-cases, Result-cases, inl, inr, if◌then◌else◌,
}
use cross_network_market_mak.Prelude.Text.{Text}
use cross_network_market_mak.Prelude.Decimal.{is_digit}
use cross_network_market_mak.Prelude.Int.{ℤ, pos, sub_ℕ, pos_part, neg_part}
use cross_network_market_mak.Core.Amount.{is_empty}
use cross_network_market_mak.Chain.Amount.Scaling.{
  worth, scale_significant-worth, worth-trim_zeros, all-trim_zeros, all-append,
}
use cross_network_market_mak.Chain.Amount.{
  split_once, is_exponent_mark, is_point, trim_zeros, scale_parts, parse_mantissa,
  parse_decimal_sats, parse_decimal_exponent, fold_digits, parse_magnitude,
}

abbrev pub Digits : Text → Type 0
Digits s = (is_empty s ≡ false) × (all is_digit s ≡ true)

-- `m` is the digits `w`, or the digits `w`, a point and the digits `f`.
pub data Mantissa (m w f : Text) : Type 0 where
  integer : m ≡ w → f ≡ [] → Digits w → Mantissa m w f
  decimal : m ≡ w ++ b'.' ∷ f → Digits w → Digits f → Mantissa m w f

-- `x` is the digits of `e`, with a sign or not.
pub data Signed (x : Text) (e : ℤ) : Type 0 where
  plain : Digits x → e ≡ pos (worth x 0) → Signed x e
  plus : (d : Text) → x ≡ b'+' ∷ d → Digits d → e ≡ pos (worth d 0) → Signed x e
  minus : (d : Text) → x ≡ b'-' ∷ d → Digits d → e ≡ sub_ℕ 0 (worth d 0) → Signed x e

-- `t` writes the digits `w` before the point, `f` after it, and the power `e` of ten.
pub data Writes (t w f : Text) (e : ℤ) : Type 0 where
  ordinary : Mantissa t w f → e ≡ pos 0 → Writes t w f e
  scientific :
      (m x : Text) (c : ℕ)
      → t ≡ m ++ c ∷ x
      → is_exponent_mark c ≡ true
      → Mantissa m w f
      → Signed x e
      → Writes t w f e

split_once-some :
    (p : ℕ → Bool) (s a b : Text)
    → split_once p s ≡ some (a, b)
    → (c : ℕ) × (s ≡ a ++ c ∷ b) × (p c ≡ true)
unfolding split_once
split_once-some p [] a b h = absurd (cc)
split_once-some p (c ∷ s) a b h = elim (Bool-cases (p c)) [
  | inl e ↦ (c, ground arith, e)
  | inr e ↦ elim (Option-cases (split_once p s)) [
    | inl gone ↦ absurd (ground arith)
    | inr ((a', b'), found) ↦
        let rest = split_once-some p s a' b' found in (rest.0, ground arith, rest.2)
  ]
]

fold_digits-worth : (s : Text) (n m : ℕ) → fold_digits s n ≡ some m → m ≡ worth s n
unfolding fold_digits
fold_digits-worth [] n m h = ground arith
fold_digits-worth (c ∷ s) n m h = ground (arith, fold_digits-worth s (n * 10 + (c - b'0')) m)

parse_magnitude-ok :
    (negative : Bool) (s : Text) (e : ℤ)
    → parse_magnitude negative s ≡ ok e
    → Digits s × (e ≡ (if negative then sub_ℕ 0 (worth s 0) else pos (worth s 0)))
unfolding parse_magnitude
parse_magnitude-ok negative s e h = elim (Option-cases (fold_digits s 0)) [
  | inl bad ↦ absurd (ground arith)
  | inr (m, good) ↦ rw (← fold_digits-worth s 0 m good) (ground arith)
]

parse_decimal_exponent-Signed : (x : Text) (e : ℤ) → parse_decimal_exponent x ≡ ok e → Signed x e
unfolding parse_decimal_exponent
parse_decimal_exponent-Signed [] e h = absurd (cc)
parse_decimal_exponent-Signed (c ∷ s) e h = elim (Bool-cases (c == b'+')) [
  | inl is_plus ↦
      let r = parse_magnitude-ok false s e (ground arith) in plus s (ground arith) r.0 r.1
  | inr not_plus ↦ elim (Bool-cases (c == b'-')) [
    | inl is_minus ↦
        let r = parse_magnitude-ok true s e (ground arith) in minus s (ground arith) r.0 r.1
    | inr not_minus ↦ let r = parse_magnitude-ok false (c ∷ s) e (ground arith) in plain r.0 r.1
  ]
]

-- The parts of an amount are worth its digits, and are digits.
scale_parts-worth :
    (w f : Text) (has_point : Bool) (e : ℤ) (n : ℕ)
    → scale_parts w f has_point e ≡ ok n
    → (all is_digit f ≡ true)
    → n * 10 ^ (length f + neg_part e) ≡ worth (w ++ f) 0 * 10 ^ (8 + pos_part e)
unfolding scale_parts
scale_parts-worth w f has_point e n h d =
    scale_significant-worth (trim_zeros (w ++ f)) (length f) n e
      (all-trim_zeros (w ++ f) (all-append w f (ground arith) d)) (ground arith)
    ∙ ap (λ (x : ℕ). x * 10 ^ (8 + pos_part e)) (worth-trim_zeros (w ++ f))

scale_parts-Digits :
    (w f : Text) (has_point : Bool) (e : ℤ) (n : ℕ)
    → scale_parts w f has_point e ≡ ok n
    → Digits w × (has_point ≡ true → Digits f)
unfolding scale_parts
scale_parts-Digits w f has_point e n h = (ground arith, λ p. ground arith)

abbrev Exact : (Text → Text → Type 0) → ℤ → ℕ → Type 0
Exact P e n =
    (w : Text) × (f : Text) × P w f
    × (n * 10 ^ (length f + neg_part e) ≡ worth (w ++ f) 0 * 10 ^ (8 + pos_part e))

parse_mantissa-Exact :
    (m : Text) (e : ℤ) (n : ℕ) → parse_mantissa m e ≡ ok n → Exact (Mantissa m) e n
unfolding parse_mantissa
parse_mantissa-Exact m e n h = elim (Option-cases (split_once is_point m)) [
  | inl whole ↦
      let r : scale_parts m [] false e ≡ ok n = ground arith in
      (
        m,
        [],
        integer refl refl (scale_parts-Digits m [] false e n r).0,
        scale_parts-worth m [] false e n r refl,
      )
  | inr ((w, f), found) ↦
      let r : scale_parts w f true e ≡ ok n = ground arith in
      let s = split_once-some is_point m w f found in
      let d = scale_parts-Digits w f true e n r in
      (
        w,
        f,
        decimal (s.1 ∙ ap (λ (c : ℕ). w ++ c ∷ f) (ground (arith, s.2))) d.0 (d.1 refl),
        scale_parts-worth w f true e n r (d.1 refl).1,
      )
]

-- An amount that is read, n, is exactly the number that the text writes, times 10^8: the text is
-- digits w, perhaps a point and digits f, perhaps an exponent e with its mark and sign, and
-- n * 10^(length of f - e) is the number written by w and f together, times 10^8.
pub parse_decimal_sats-ok :
    (value : Text) (n : ℕ)
    → parse_decimal_sats value ≡ ok n
    → (e : ℤ) × (w : Text) × (f : Text) × Writes value w f e
      × (n * 10 ^ (length f + neg_part e) ≡ worth (w ++ f) 0 * 10 ^ (8 + pos_part e))
unfolding parse_decimal_sats
parse_decimal_sats-ok value n h = elim (Option-cases (split_once is_exponent_mark value)) [
  | inl plain_text ↦
      let r = parse_mantissa-Exact value (pos 0) n (ground arith) in
      (pos 0, r.0, r.1, ordinary r.2 refl, r.3)
  | inr ((m, x), found) ↦ elim (Result-cases (parse_decimal_exponent x)) [
    | inr (error, bad) ↦ absurd (ground arith)
    | inl (e, good) ↦
        let r = parse_mantissa-Exact m e n (ground arith) in
        let s = split_once-some is_exponent_mark value m x found in
        (e, r.0, r.1, scientific m x s.0 s.1 s.2 r.2 (parse_decimal_exponent-Signed x e good), r.3)
  ]
]
