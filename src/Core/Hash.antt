-- ===== src/Core/Hash.antt =====
-- src/core/hash.rs: SHA-256 commitments.
use cross_network_market_mak.Prelude.{
  ℕ, ◌+◌, ◌==◌, leb, length, map, not, ◌&&◌, ◌||◌, ok, ok_or, reject_if, if◌then◌else◌,
}
use cross_network_market_mak.Prelude.Outcome.{◌>>=◌, ◌>>◌}
use cross_network_market_mak.Prelude.Text.{Text, text_eq}
use cross_network_market_mak.Core.Error.{CoreResult, invalid_hash}
use cross_network_market_mak.Core.Primitives.{Primitives, Bytes}

pub record HashCommitment : Type 0 where
  pub bytes : Bytes

-- `str::to_lowercase` on ASCII text.
abbrev pub lower_byte : ℕ → ℕ
lower_byte c = if leb b'A' c && leb c b'Z' then c + 32 else c

unfoldable pub to_lowercase : Text → Text
to_lowercase s = map lower_byte s

module _ (p : Primitives) where
  unfoldable pub parse : Text → CoreResult HashCommitment
  parse value = do
    bytes ← ok_or (p.hex_decode value) (invalid_hash value)
    reject_if
        (not (length bytes == 32)
          || not (length value == 64)
          || not (text_eq (to_lowercase value) value))
        (invalid_hash value)
    ok (record { bytes = bytes })

  unfoldable pub from_preimage : Bytes → HashCommitment
  from_preimage preimage = record { bytes = p.sha256 preimage }

  unfoldable pub as_hex : HashCommitment → Text
  as_hex h = p.hex_encode h.bytes

  unfoldable pub hash_preimage : Text → CoreResult HashCommitment
  hash_preimage preimage_hex = do
    bytes ← ok_or (p.hex_decode preimage_hex) (invalid_hash preimage_hex)
    reject_if (not (length bytes == 32)) (invalid_hash preimage_hex)
    ok (from_preimage bytes)
