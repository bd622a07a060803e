-- ===== src/Chain/Sanitize.antt =====
-- src/chain/observation.rs: sanitize_rpc_error. The loop runs over the bytes of the message and makes
-- characters; the text that is reported is those characters in UTF-8.
pub mod Redaction
pub mod Report
use cross_network_market_mak.Prelude.{
  ℕ, zero, suc, ◌+◌, ◌/◌, ◌%◌, ltb, leb, if◌then◌else◌, List, ◌≡◌, ◌≤◌, refl, Bool, true, false,
  ◌&&◌, length, [], ◌∷◌, ◌++◌, arith, Bool-cases, inl, inr,
}
use cross_network_market_mak.Prelude.Text.{Text, codes}
use cross_network_market_mak.Chain.Types.{is_hexdigit}
use cross_network_market_mak.Chain.Amount.{take}

-- The first `n` bytes are hexadecimal digits.
abbrev pub starts_hex : ℕ → Text → Bool
starts_hex zero s = true
starts_hex (suc n) [] = false
starts_hex (suc n) (c ∷ s) = is_hexdigit c && starts_hex n s

-- The characters that the loop pushes for the bytes from `index` on; `skip` of them belong to an
-- identifier that was replaced. A byte `as char` is the character of that number.
unfoldable pub sanitize_loop : ℕ → Text → List ℕ
sanitize_loop skip [] = []
sanitize_loop (suc skip) (c ∷ s) = sanitize_loop skip s
sanitize_loop zero (c ∷ s) = elim (starts_hex 64 (c ∷ s)) [
  | true ↦ codes "[txid]" ++ sanitize_loop 63 s
  | false ↦ c ∷ sanitize_loop 0 s
]

-- UTF-8, of characters below 256.
unfoldable pub encode_utf8 : List ℕ → Text
encode_utf8 [] = []
encode_utf8 (c ∷ s) =
    if ltb c 0x80 then c ∷ encode_utf8 s else (0xc0 + c / 64) ∷ (0x80 + c % 64) ∷ encode_utf8 s

unfoldable pub sanitize_rpc_error : Text → Text
unfolding sanitize_loop encode_utf8
sanitize_rpc_error message = encode_utf8 (take 180 (sanitize_loop 0 message))
