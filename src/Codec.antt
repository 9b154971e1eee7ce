-- ===== src/Codec.antt =====
-- fuels-core/src/codec: the ABI encoder and decoder.
pub mod Logs
pub mod Counter
pub mod Encoder
pub mod Decoder
pub mod Experimental
pub mod Selector
pub mod Format
pub mod RoundTrip
pub mod Sample
pub mod Narrow
mod Tests
