-- ===== src/Chain/Sanitize/Redaction.antt =====
-- What is reported of an error has no long run of hexadecimal digits, and is short.
use cross_network_market_mak.Prelude.{
  ℕ, zero, suc, ◌+◌, ◌/◌, ◌%◌, ltb, leb, if◌then◌else◌, List, ◌≡◌, ◌≤◌, refl, Bool, true, false,
  ◌&&◌, length, [], ◌∷◌, arith, Bool-cases, inl, inr,
}
use cross_network_market_mak.Prelude.Text.{Text}
use cross_network_market_mak.Chain.Types.{is_hexdigit}
use cross_network_market_mak.Chain.Amount.{take}
use cross_network_market_mak.Chain.Sanitize.{starts_hex, sanitize_loop, encode_utf8}

-- Nowhere are 64 hexadecimal digits in a row.
abbrev pub Redacted : Text → Type 0
Redacted [] = Unit
Redacted (c ∷ s) = (starts_hex 64 (c ∷ s) ≡ false) × Redacted s

false_unless : (x y : Bool) → (x ≡ true → y ≡ true) → y ≡ false → x ≡ false
false_unless true y h e = absurd (cc (h refl))
false_unless false y h e = refl

redacted_head :
    (n c : ℕ) (s : Text)
    → starts_hex 64 (c ∷ s) ≡ true
    → starts_hex (suc n) (sanitize_loop 0 (c ∷ s)) ≡ true
    → ⊥
unfolding sanitize_loop
redacted_head n c s replaced h = cc (rw (replaced, sanitize_loop) at h)

kept_head :
    (n c : ℕ) (s : Text)
    → starts_hex 64 (c ∷ s) ≡ false
    → starts_hex (suc n) (sanitize_loop 0 (c ∷ s)) ≡ true
    → starts_hex (suc n) (c ∷ sanitize_loop 0 s) ≡ true
unfolding sanitize_loop
kept_head n c s kept h = rw (kept, sanitize_loop) at h

starts_kept :
    (n c : ℕ) (s : Text)
    → (starts_hex n (sanitize_loop 0 s) ≡ true → starts_hex n s ≡ true)
    → starts_hex (suc n) (c ∷ sanitize_loop 0 s) ≡ true
    → starts_hex (suc n) (c ∷ s) ≡ true
starts_kept n c s ih h = ground arith

-- What begins the output in hexadecimal digits began the input.
starts_hex-sanitize_loop :
    (n : ℕ) (s : Text) → starts_hex n (sanitize_loop 0 s) ≡ true → starts_hex n s ≡ true
unfolding sanitize_loop
starts_hex-sanitize_loop zero s h = refl
starts_hex-sanitize_loop (suc n) [] h = h
starts_hex-sanitize_loop (suc n) (c ∷ s) h = elim (Bool-cases (starts_hex 64 (c ∷ s))) [
  | inl replaced ↦ absurd (redacted_head n c s replaced h)
  | inr kept ↦ starts_kept n c s (starts_hex-sanitize_loop n s) (kept_head n c s kept h)
]

kept_Redacted :
    (c : ℕ) (s : Text)
    → starts_hex 64 (c ∷ s) ≡ false
    → starts_hex 64 (c ∷ sanitize_loop 0 s) ≡ false
kept_Redacted c s kept = false_unless _ _ (starts_kept 63 c s (starts_hex-sanitize_loop 63 s)) kept

pub sanitize_loop-Redacted : (skip : ℕ) (s : Text) → Redacted (sanitize_loop skip s)
unfolding sanitize_loop
sanitize_loop-Redacted zero [] = tt
sanitize_loop-Redacted (suc skip) [] = tt
sanitize_loop-Redacted (suc skip) (c ∷ s) = sanitize_loop-Redacted skip s
sanitize_loop-Redacted zero (c ∷ s) = elim (Bool-cases (starts_hex 64 (c ∷ s))) [
  | inl replaced ↦
      rw (replaced, sanitize_loop)
        (refl, (refl, (refl, (refl, (refl, (refl, sanitize_loop-Redacted 63 s))))))
  | inr kept ↦ rw (kept, sanitize_loop) (kept_Redacted c s kept, sanitize_loop-Redacted 0 s)
]

starts_hex-take : (k n : ℕ) (s : Text) → starts_hex k (take n s) ≡ true → starts_hex k s ≡ true
starts_hex-take zero n s h = refl
starts_hex-take (suc k) zero s h = cc
starts_hex-take (suc k) (suc n) [] h = cc
starts_hex-take (suc k) (suc n) (c ∷ s) h = ground (arith, starts_hex-take k n s)

pub take-Redacted : (n : ℕ) (s : Text) → Redacted s → Redacted (take n s)
take-Redacted zero s r = tt
take-Redacted (suc n) [] r = tt
take-Redacted (suc n) (c ∷ s) r =
    (false_unless _ _ (starts_hex-take 64 (suc n) (c ∷ s)) r.0, take-Redacted n s r.1)

starts_hex-encode_utf8 :
    (k : ℕ) (s : List ℕ) → starts_hex k (encode_utf8 s) ≡ true → starts_hex k s ≡ true
unfolding encode_utf8
starts_hex-encode_utf8 zero s h = refl
starts_hex-encode_utf8 (suc k) [] h = h
starts_hex-encode_utf8 (suc k) (c ∷ s) h = elim (Bool-cases (ltb c 0x80)) [
  | inl ascii ↦ ground (arith, starts_hex-encode_utf8 k s)
  | inr other ↦ ground arith
]

leb-add : (n m : ℕ) → leb 0x80 ((0x80 + m) + n) ≡ true
leb-add n m = ground arith

-- Neither byte of a character from 128 on is a hexadecimal digit.
no_hex : (n c : ℕ) (s : Text) → leb 0x80 c ≡ true → starts_hex (suc n) (c ∷ s) ≡ false
no_hex n c s h = ground arith

and-true : (x y : Bool) → (x && y) ≡ true → (x ≡ true) × (y ≡ true)
and-true x y h = ground arith

starts_ascii :
    (c : ℕ) (s : List ℕ) → starts_hex 64 (c ∷ encode_utf8 s) ≡ true → starts_hex 64 (c ∷ s) ≡ true
starts_ascii c s h =
    let both = and-true (is_hexdigit c) (starts_hex 63 (encode_utf8 s)) h in
    rw (both.0, starts_hex-encode_utf8 63 s both.1) refl

pub encode_utf8-Redacted : (s : List ℕ) → Redacted s → Redacted (encode_utf8 s)
unfolding encode_utf8
encode_utf8-Redacted [] r = tt
encode_utf8-Redacted (c ∷ s) r = elim (Bool-cases (ltb c 0x80)) [
  | inl ascii ↦
      let unlike : starts_hex 64 (c ∷ encode_utf8 s) ≡ false =
        false_unless (starts_hex 64 (c ∷ encode_utf8 s)) (starts_hex 64 (c ∷ s)) (starts_ascii c s)
          r.0 in
      rw (ascii, encode_utf8) (unlike, encode_utf8-Redacted s r.1)
  | inr other ↦
      rw (other, encode_utf8)
        (
          no_hex 63 (0xc0 + c / 64) ((0x80 + c % 64) ∷ encode_utf8 s) (leb-add (c / 64) 0x40),
          (
            no_hex 63 (0x80 + c % 64) (encode_utf8 s) (leb-add (c % 64) 0),
            encode_utf8-Redacted s r.1,
          ),
        )
]

-- The characters of a text in UTF-8: its bytes that do not continue a character.
abbrev pub char_count : Text → ℕ
char_count [] = 0
char_count (b ∷ s) = (if leb 0x80 b && ltb b 0xc0 then 0 else 1) + char_count s

pub char_count-encode_utf8 : (s : List ℕ) → char_count (encode_utf8 s) ≡ length s
unfolding encode_utf8
char_count-encode_utf8 [] = refl
char_count-encode_utf8 (c ∷ s) = elim (Bool-cases (ltb c 0x80)) [
  | inl ascii ↦ ground (arith, char_count-encode_utf8 s)
  | inr other ↦ ground (arith, char_count-encode_utf8 s)
]

pub length-encode_utf8 : (s : List ℕ) → length (encode_utf8 s) ≤ length s + length s
unfolding encode_utf8
length-encode_utf8 [] = omega arith
length-encode_utf8 (c ∷ s) = elim (Bool-cases (ltb c 0x80)) [
  | inl ascii ↦ ground (arith, length-encode_utf8 s)
  | inr other ↦ ground (arith, length-encode_utf8 s)
]

pub length-take : (n : ℕ) (s : Text) → length (take n s) ≤ n
length-take zero s = omega arith
length-take (suc n) [] = omega arith
length-take (suc n) (c ∷ s) = omega (arith, length-take n s)
