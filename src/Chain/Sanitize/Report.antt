-- ===== src/Chain/Sanitize/Report.antt =====
-- What is reported of an error of a node, against a description of it.
use cross_network_market_mak.Prelude.{
  ap, sym, subst, all, length-append, ℕ, zero, suc, List, ◌≡◌, ◌≤◌, refl, true, false, length, [],
  ◌∷◌, ◌++◌, arith, Bool-cases, inl, inr,
}
use cross_network_market_mak.Prelude.Text.{Text, codes}
use cross_network_market_mak.Chain.Types.{is_hexdigit}
use cross_network_market_mak.Chain.Amount.{take}
use cross_network_market_mak.Chain.Sanitize.{
  starts_hex, sanitize_loop, encode_utf8, sanitize_rpc_error,
}
use cross_network_market_mak.Chain.Sanitize.Redaction.{
  Redacted, char_count, take-Redacted, length-take, sanitize_loop-Redacted, encode_utf8-Redacted,
  char_count-encode_utf8, length-encode_utf8,
}

-- The characters that stand for a message: a run of 64 hexadecimal digits is replaced as a whole, the
-- first one before later ones, and any other byte is its character.
pub data Sanitized : Text → List ℕ → Type 0 where
  finished : Sanitized [] []
  replaced :
      (run rest : Text) {out : List ℕ}
      → length run ≡ 64
      → all is_hexdigit run ≡ true
      → Sanitized rest out
      → Sanitized (run ++ rest) (codes "[txid]" ++ out)
  kept :
      {c : ℕ} {rest : Text} {out : List ℕ}
      → starts_hex 64 (c ∷ rest) ≡ false
      → Sanitized rest out
      → Sanitized (c ∷ rest) (c ∷ out)

-- A message that begins with a run of digits, and what the loop does after skipping it.
record Begins (n : ℕ) (s : Text) : Type 0 where
  run : Text
  rest : Text
  parts : s ≡ run ++ rest
  sized : length run ≡ n
  is_hex : all is_hexdigit run ≡ true
  skips : sanitize_loop n s ≡ sanitize_loop 0 rest

starts_hex-Begins : (n : ℕ) (s : Text) → starts_hex n s ≡ true → Begins n s
unfolding sanitize_loop
starts_hex-Begins zero s h = record {
  run = [];
  rest = s;
  parts = refl;
  sized = refl;
  is_hex = refl;
  skips = refl;
}
starts_hex-Begins (suc n) [] h = absurd (cc)
starts_hex-Begins (suc n) (c ∷ s) h =
    let b = starts_hex-Begins n s (ground arith) in
    record {
      run = c ∷ b.run;
      rest = b.rest;
      parts = ap (λ t. c ∷ t) b.parts;
      sized = omega (arith, b.sized);
      is_hex = ground (arith, b.is_hex);
      skips = b.skips;
    }

shorter :
    (c : ℕ) (s run rest : Text) (n : ℕ)
    → c ∷ s ≡ run ++ rest
    → length run ≡ 64
    → length s ≤ n
    → length rest ≤ n
shorter c s run rest n e sized h =
    let total : suc (length s) ≡ length (run ++ rest) = ap length e in
    omega (arith, total, length-append run rest)

sanitize_loop-Sanitized : (n : ℕ) (s : Text) → length s ≤ n → Sanitized s (sanitize_loop 0 s)
unfolding sanitize_loop
sanitize_loop-Sanitized n [] h = finished
sanitize_loop-Sanitized zero (c ∷ s) h = absurd (ground arith)
sanitize_loop-Sanitized (suc n) (c ∷ s) h = elim (Bool-cases (starts_hex 64 (c ∷ s))) [
  | inl begins ↦
      let b = starts_hex-Begins 64 (c ∷ s) begins in
      let short = shorter c s b.run b.rest n b.parts b.sized (omega (arith, h)) in
      let after : Sanitized (b.run ++ b.rest) (codes "[txid]" ++ sanitize_loop 0 b.rest) =
        replaced b.run b.rest b.sized b.is_hex (sanitize_loop-Sanitized n b.rest short) in
      let skipped : Sanitized (b.run ++ b.rest) (codes "[txid]" ++ sanitize_loop 63 s) =
        subst (λ o. Sanitized (b.run ++ b.rest) (codes "[txid]" ++ o)) (sym b.skips) after in
      rw (begins, sanitize_loop)
        (subst (λ t. Sanitized t (codes "[txid]" ++ sanitize_loop 63 s)) (sym b.parts) skipped)
  | inr other ↦
      rw (other, sanitize_loop) (kept other (sanitize_loop-Sanitized n s (omega (arith, h))))
]

-- What is reported of an error of the node is, in UTF-8, the first 180 of these characters: those of
-- the bytes of the message, with every run of 64 hexadecimal digits, from the left, replaced by
-- "[txid]". It has nowhere 64 hexadecimal digits in a row, whatever the message was, and is at most
-- 180 characters and 360 bytes long.
pub sanitize_rpc_error-Redacted :
    (message : Text)
    → Redacted (sanitize_rpc_error message)
      × (char_count (sanitize_rpc_error message) ≤ 180)
      × (length (sanitize_rpc_error message) ≤ 360)
      × (chars : List ℕ) × Sanitized message chars
      × (sanitize_rpc_error message ≡ encode_utf8 (take 180 chars))
unfolding sanitize_rpc_error
sanitize_rpc_error-Redacted message =
    let chars = take 180 (sanitize_loop 0 message) in
    let short = length-take 180 (sanitize_loop 0 message) in
    (
      encode_utf8-Redacted chars
          (take-Redacted 180 (sanitize_loop 0 message) (sanitize_loop-Redacted 0 message)),
      omega (arith, char_count-encode_utf8 chars, short),
      omega (arith, length-encode_utf8 chars, short),
      sanitize_loop 0 message,
      sanitize_loop-Sanitized (length message) message (omega arith),
      refl,
    )
