-- ===== src/Mtp.antt =====
-- Native multi-token prediction, tokenity/inference/native_mtp: one token is drafted by a head of
-- the model and verified together with the token before it, and a rejected draft is taken out of
-- the caches again.
pub mod Patch
pub mod Fingerprints
pub mod Prepare
pub mod Cache
pub mod Target
pub mod Decode
pub mod Assembled
mod Tests
