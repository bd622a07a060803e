-- ===== src/Chain/Types.antt =====
-- src/chain/types.rs. A public key is its compressed serialization. A message built by `format!` is
-- kept as its template.
pub mod Laws
use cross_network_market_mak.Prelude.{
  ℕ, ◌==◌, leb, length, any, String, Bool, true, false, not, ◌&&◌, ◌||◌, Option, Result, ok, err,
  ok_or, reject_if, if◌then◌else◌,
}
use cross_network_market_mak.Prelude.Outcome.{◌>>=◌, ◌>>◌}
use cross_network_market_mak.Prelude.Text.{Text, text_eq, codes}
use cross_network_market_mak.Core.Primitives.{Primitives, Bytes}

pub data ChainError : Type 0 where
  invalid_input wrong_network validation rpc serialization signature : String → ChainError
  refund_too_early : ℕ → ℕ → ChainError

abbrev pub ChainResult {ℓ} : Type ℓ → Type ℓ
ChainResult A = Result ChainError A

pub data Chain : Type 0 where
  bitcoin_regtest liquid_regtest : Chain

unfoldable pub chain_eq : Chain → Chain → Bool
chain_eq bitcoin_regtest bitcoin_regtest = true
chain_eq liquid_regtest liquid_regtest = true
chain_eq _ _ = false

pub data AssetId : Type 0 where
  native_bitcoin : AssetId
  explicit : Bytes → AssetId

unfoldable pub asset_eq : AssetId → AssetId → Bool
asset_eq native_bitcoin native_bitcoin = true
asset_eq (explicit a) (explicit b) = text_eq a b
asset_eq _ _ = false

abbrev pub is_uppercase : ℕ → Bool
is_uppercase c = leb b'A' c && leb c b'Z'

abbrev pub is_hexdigit : ℕ → Bool
is_hexdigit c = leb b'0' c && leb c b'9' || leb b'a' c && leb c b'f' || leb b'A' c && leb c b'F'

module _ (p : Primitives) where
  unfoldable pub parse_explicit : Text → ChainResult AssetId
  parse_explicit value = do
    reject_if (not (length value == 64) || any (λ c. not (is_hexdigit c)) value)
        (invalid_input "asset id must be BTC or 32-byte hexadecimal text")
    reject_if (any is_uppercase value) (invalid_input "asset id hexadecimal must be lowercase")
    bytes ← ok_or (p.hex_decode value) (invalid_input "asset id must contain hexadecimal bytes")
    reject_if (not (length bytes == 32)) (invalid_input "asset id must contain exactly 32 bytes")
    ok (explicit bytes)

  unfoldable pub from_hex : Text → ChainResult AssetId
  from_hex value = if text_eq value (codes "BTC") then ok native_bitcoin else parse_explicit value

  unfoldable pub to_hex : AssetId → Text
  to_hex native_bitcoin = codes "BTC"
  to_hex (explicit bytes) = p.hex_encode bytes

unfoldable pub explicit_bytes : AssetId → ChainResult Bytes
explicit_bytes native_bitcoin =
    err (invalid_input "native Bitcoin has no explicit Elements asset hash")
explicit_bytes (explicit bytes) = ok bytes

pub record HtlcContract : Type 0 where
  pub chain : Chain
  pub asset_id : AssetId
  pub hash_lock : Bytes
  pub claim_pubkey : Bytes
  pub refund_pubkey : Bytes
  pub refund_lock_height : ℕ
  pub witness_script_hex : Text
  pub output_script_hex : Text
  pub address : Text

unfoldable pub contract_eq : HtlcContract → HtlcContract → Bool
contract_eq a b =
    chain_eq a.chain b.chain
    && asset_eq a.asset_id b.asset_id
    && text_eq a.hash_lock b.hash_lock
    && text_eq a.claim_pubkey b.claim_pubkey
    && text_eq a.refund_pubkey b.refund_pubkey
    && a.refund_lock_height == b.refund_lock_height
    && text_eq a.witness_script_hex b.witness_script_hex
    && text_eq a.output_script_hex b.output_script_hex
    && text_eq a.address b.address

pub record FundingEvidence : Type 0 where
  pub txid : Text
  pub vout : ℕ
  pub amount_sats : ℕ
  pub asset_id : AssetId
  pub confirmations : ℕ

pub record ClaimPreimage : Type 0 where
  pub preimage : Bytes
  pub confirmations : ℕ
