-- ===== src/Panda.antt =====
-- The Panda USB side: src/panda_can_codec.h and src/panda_can_codec.cc.
pub mod Codec
