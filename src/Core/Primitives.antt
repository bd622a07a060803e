-- ===== src/Core/Primitives.antt =====
-- What the core takes from other crates: hexadecimal text (`hex`) and SHA-256 (`sha2`).
use cross_network_market_mak.Prelude.{Option, some, ◌≡◌}
use cross_network_market_mak.Prelude.Text.{Text}

abbrev pub Bytes : Type 0
Bytes = Text

pub record Primitives : Type 0 where
  pub hex_decode : Text → Option Bytes
  pub hex_encode : Bytes → Text
  pub sha256 : Bytes → Bytes

-- Documented: decoding what was encoded gives it back.
pub record PrimitiveLaws (p : Primitives) : Type 0 where
  pub decode_encode : (b : Bytes) → p.hex_decode (p.hex_encode b) ≡ some b
