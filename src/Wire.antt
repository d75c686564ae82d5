-- ===== src/Wire.antt =====
-- The package wire: the messages, and the envelopes that carry them.
pub mod Fields
pub mod Message
pub mod Envelope
