-- ===== src/Core/Rfq/Digest/Framing.antt =====
-- The framing of the signed fields.
use cross_network_market_mak.Prelude.{
  ℕ, zero, suc, ◌+◌, ◌*◌, ◌/◌, ◌%◌, ◌<◌, ◌≡◌, refl, sym, ap, ◌∙◌, length, List, [], ◌∷◌, ◌++◌,
  arith, All,
}
use cross_network_market_mak.Prelude.Text.{Text}
use cross_network_market_mak.Prelude.Decimal.{u64_limit}
use cross_network_market_mak.Core.Primitives.{Bytes}
use cross_network_market_mak.Core.Rfq.Digest.{be_bytes, length_field, append_field, append_fields}

unfoldable bound : ℕ → ℕ
bound zero = 1
bound (suc k) = 256 * bound k

be_bytes-injective :
    (k n m : ℕ) (s t : Bytes)
    → n < bound k
    → m < bound k
    → be_bytes k n s ≡ be_bytes k m t
    → (n ≡ m) × (s ≡ t)
unfolding be_bytes bound
be_bytes-injective zero n m s t hn hm e = (omega arith, e)
be_bytes-injective (suc k) n m s t hn hm e =
    let (same, rest) =
      be_bytes-injective k (n / 256) (m / 256) (n % 256 ∷ s) (m % 256 ∷ t) (omega arith)
        (omega arith) e in
    let low : n % 256 ≡ m % 256 = ground (arith, rest) in
    (omega (arith, same, low), ground (arith, rest))

be_bytes-append : (k n : ℕ) (s t : Bytes) → be_bytes k n s ++ t ≡ be_bytes k n (s ++ t)
unfolding be_bytes
be_bytes-append zero n s t = refl
be_bytes-append (suc k) n s t = be_bytes-append k (n / 256) (n % 256 ∷ s) t

length-be_bytes : (k n : ℕ) (s : Bytes) → length (be_bytes k n s) ≡ k + length s
unfolding be_bytes
length-be_bytes zero n s = omega arith
length-be_bytes (suc k) n s = omega (arith, length-be_bytes k (n / 256) (n % 256 ∷ s))

++_assoc : (r s t : Bytes) → (r ++ s) ++ t ≡ r ++ (s ++ t)
++_assoc [] s t = refl
++_assoc (c ∷ r) s t = rw (++_assoc r s t) refl

++_nil : (s : Bytes) → s ++ [] ≡ s
++_nil [] = refl
++_nil (c ∷ s) = rw (++_nil s) refl

++-injective : (v w s t : Bytes) → length v ≡ length w → v ++ s ≡ w ++ t → (v ≡ w) × (s ≡ t)
++-injective [] [] s t h e = (refl, e)
++-injective [] (d ∷ w) s t h e = absurd (omega arith)
++-injective (c ∷ v) [] s t h e = absurd (omega arith)
++-injective (c ∷ v) (d ∷ w) s t h e = ground (arith, ++-injective v w s t)

-- Each field behind its length.
unfoldable framed : List Text → Bytes
framed [] = []
framed (v ∷ vs) = be_bytes 8 (length_field v) (v ++ framed vs)

append_field-framed :
    (out : Bytes) (v : Text) (rest : Bytes)
    → append_field out v ++ rest ≡ out ++ be_bytes 8 (length_field v) (v ++ rest)
unfolding append_field
append_field-framed out v rest =
    rw
      (
        ++_assoc (out ++ be_bytes 8 (length_field v) []) v rest,
        ++_assoc out (be_bytes 8 (length_field v) []) (v ++ rest),
        be_bytes-append 8 (length_field v) [] (v ++ rest),
      )
      refl

append_fields-framed : (out : Bytes) (vs : List Text) → append_fields out vs ≡ out ++ framed vs
unfolding append_fields framed
append_fields-framed out [] = sym (++_nil out)
append_fields-framed out (v ∷ vs) =
    append_fields-framed (append_field out v) vs ∙ append_field-framed out v (framed vs)

abbrev pub Fits : Text → Type 0
Fits v = length v < u64_limit

length_field-Fits : (v : Text) → Fits v → (length_field v ≡ length v) × (length_field v < bound 8)
unfolding length_field bound
length_field-Fits v h = ground arith

framed-injective : (vs ws : List Text) → All Fits vs → All Fits ws → framed vs ≡ framed ws → vs ≡ ws
unfolding framed
framed-injective [] [] hv hw e = refl
framed-injective [] (w ∷ ws) hv hw e =
    absurd (omega (arith, ap length e, length-be_bytes 8 (length_field w) (w ++ framed ws)))
framed-injective (v ∷ vs) [] hv hw e =
    absurd (omega (arith, ap length e, length-be_bytes 8 (length_field v) (v ++ framed vs)))
framed-injective (v ∷ vs) (w ∷ ws) (fv, hv) (fw, hw) e =
    let (lv, bv) = length_field-Fits v fv in
    let (lw, bw) = length_field-Fits w fw in
    let (same, rest) =
      be_bytes-injective 8 (length_field v) (length_field w) (v ++ framed vs) (w ++ framed ws) bv bw
        e in
    let (heads, tails) =
      ++-injective v w (framed vs) (framed ws) (omega (arith, same, lv, lw)) rest in
    rw (heads, framed-injective vs ws hv hw tails) refl

-- Two lists of fields, each shorter than 2^64 bytes, that a digest sees as the same bytes are the
-- same list: no field can pass for a part of another.
pub append_fields-injective :
    (vs ws : List Text)
    → All Fits vs
    → All Fits ws
    → append_fields [] vs ≡ append_fields [] ws
    → vs ≡ ws
append_fields-injective vs ws hv hw e =
    framed-injective vs ws hv hw (sym (append_fields-framed [] vs) ∙ e ∙ append_fields-framed [] ws)
