-- ===== src/Chain/Node.antt =====
-- The answers of a node, as src/chain/observation.rs asks for them through src/rpc.rs. An answer may
-- depend on every call made before it; an error is its text.
use cross_network_market_mak.Prelude.{ℕ, List, ◌∷◌, Option, Result, ok, err}
use cross_network_market_mak.Prelude.Text.{Text}
use cross_network_market_mak.Prelude.Int.{ℤ}
use cross_network_market_mak.Prelude.Json.{Value}
use cross_network_market_mak.Chain.Types.{ChainResult, rpc}

pub record BlockchainInfo : Type 0 where
  pub chain : Text
  pub blocks : ℕ

pub record BitcoinGetTxOut : Type 0 where
  pub confirmations : ℕ
  pub value : Value
  pub script_pub_key : Text

pub record BitcoinVerboseOutput : Type 0 where
  pub n : ℕ
  pub value : Value
  pub script_pub_key : Text

pub record GenericInput : Type 0 where
  pub txid : Option Text
  pub vout : Option ℕ

pub record BitcoinVerboseTransaction : Type 0 where
  pub confirmations : Option ℤ
  pub hex : Option Text
  pub vin : List GenericInput
  pub vout : List BitcoinVerboseOutput

pub record LiquidGetTxOut : Type 0 where
  pub confirmations : ℕ
  pub value : Value
  pub asset : Text
  pub script_pub_key : Text

pub record LiquidVerboseOutput : Type 0 where
  pub n : ℕ
  pub value : Value
  pub asset : Text
  pub script_pub_key : Text

pub record LiquidVerboseTransaction : Type 0 where
  pub confirmations : Option ℤ
  pub hex : Option Text
  pub vin : List GenericInput
  pub vout : List LiquidVerboseOutput

pub data Call : Type 0 where
  getblockchaininfo : Result Text BlockchainInfo → Call
  getrawtransaction : Text → Call
  gettxout : Text → ℕ → Call
  sendrawtransaction : Text → Call

-- Latest first.
abbrev pub Calls : Type 0
Calls = List Call

pub record Node : Type 0 where
  pub blockchain_info : Calls → Result Text BlockchainInfo
  pub bitcoin_transaction : Calls → Text → Result Text BitcoinVerboseTransaction
  pub bitcoin_txout : Calls → Text → ℕ → Result Text (Option BitcoinGetTxOut)
  pub liquid_transaction : Calls → Text → Result Text LiquidVerboseTransaction
  pub liquid_txout : Calls → Text → ℕ → Result Text (Option LiquidGetTxOut)
  pub transaction_txid : Calls → Text → Result Text Text
  pub send : Calls → Text → Result Text Text

abbrev pub Rpc : Type 0 → Type 0
Rpc A = Calls → ChainResult A × Calls

abbrev pub pure : {A : Type 0} → A → Rpc A
pure a w = (ok a, w)

abbrev pub lift : {A : Type 0} → ChainResult A → Rpc A
lift r w = (r, w)

abbrev pub bind_result :
    {A B : Type 0} → ChainResult A × Calls → (A → Rpc B) → ChainResult B × Calls
bind_result (ok a, w) f = f a w
bind_result (err e, w) f = (err e, w)

infixl 5 ◌>>=◌ ◌>>◌
abbrev pub ◌>>=◌ : {A B : Type 0} → Rpc A → (A → Rpc B) → Rpc B
(m >>= f) w = bind_result (m w) f

abbrev pub ◌>>◌ : {A B : Type 0} → Rpc A → Rpc B → Rpc B
(m >> k) w = bind_result (m w) (λ _. k)

-- `ChainError::from` of an RPC error.
abbrev pub of_rpc : {A : Type 0} → Result Text A → ChainResult A
of_rpc (ok a) = ok a
of_rpc (err message) = err (rpc "{error}")

module _ (n : Node) where
  abbrev pub blockchain : Rpc BlockchainInfo
  blockchain w = (of_rpc (n.blockchain_info w), getblockchaininfo (n.blockchain_info w) ∷ w)

  abbrev pub bitcoin_transaction : Text → Rpc BitcoinVerboseTransaction
  bitcoin_transaction txid w = (of_rpc (n.bitcoin_transaction w txid), getrawtransaction txid ∷ w)

  abbrev pub bitcoin_txout : Text → ℕ → Rpc (Option BitcoinGetTxOut)
  bitcoin_txout txid vout w = (of_rpc (n.bitcoin_txout w txid vout), gettxout txid vout ∷ w)

  abbrev pub liquid_transaction : Text → Rpc LiquidVerboseTransaction
  liquid_transaction txid w = (of_rpc (n.liquid_transaction w txid), getrawtransaction txid ∷ w)

  abbrev pub liquid_txout : Text → ℕ → Rpc (Option LiquidGetTxOut)
  liquid_txout txid vout w = (of_rpc (n.liquid_txout w txid vout), gettxout txid vout ∷ w)
