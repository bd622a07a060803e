-- ===== src/Tests/Assets.antt =====
-- A Liquid funding transaction and its amounts.
use cross_network_market_mak.Prelude.{[], ◌∷◌, some}
use cross_network_market_mak.Prelude.Text.{codes}
use cross_network_market_mak.Chain.Types.{liquid_regtest, explicit, HtlcContract}
use cross_network_market_mak.Chain.Liquid.{ElementsCrate}
use cross_network_market_mak.Chain.Liquid.Transactions.{
  LiquidFundingArgs, LiquidTransaction, ElementsTexts,
}
use cross_network_market_mak.Tests.Contracts.{contract, claim_script}

abbrev elements : ElementsCrate
elements = record { deserialize = λ b. some [] }

abbrev texts : ElementsTexts
texts = record { parse_asset = λ t. some t; parse_txid = λ t. some t }

abbrev liquid_contract : HtlcContract
liquid_contract = record contract {
  chain = liquid_regtest;
  asset_id = explicit (codes "depix");
  address = codes "el1";
}

abbrev funds : LiquidFundingArgs
funds = record {
  payment_input = record {
    txid = codes "a";
    vout = 0;
    asset_id = explicit (codes "depix");
    amount_sats = 150;
    script_pubkey = codes "p";
    confirmations = 1;
  };
  fee_input = record {
    txid = codes "b";
    vout = 0;
    asset_id = explicit (codes "lbtc");
    amount_sats = 10;
    script_pubkey = codes "f";
    confirmations = 1;
  };
  contract = liquid_contract;
  htlc_amount_sats = 100;
  payment_change_script = codes "pc";
  payment_change_amount_sats = 50;
  fee_change_script = codes "fc";
  fee_change_amount_sats = 8;
  fee_sats = 2;
  fee_asset_id = explicit (codes "lbtc");
}

abbrev funding : LiquidTransaction
funding = record {
  version = 2;
  lock_time = 0;
  input =
      record { previous_txid = codes "a"; previous_vout = 0; sequence = 0xfffffffd; witness = [] }
      ∷ record { previous_txid = codes "b"; previous_vout = 0; sequence = 0xfffffffd; witness = [] }
      ∷ [];
  output =
      record { asset = codes "depix"; value = 100; script_pubkey = claim_script }
      ∷ record { asset = codes "depix"; value = 50; script_pubkey = codes "pc" }
      ∷ record { asset = codes "lbtc"; value = 8; script_pubkey = codes "fc" }
      ∷ record { asset = codes "lbtc"; value = 2; script_pubkey = [] }
      ∷ [];
}
