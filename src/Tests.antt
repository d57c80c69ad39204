-- ===== src/Tests.antt =====
-- The theorems at concrete inputs.
mod Values
mod Signing
mod Plugin
mod HeaderAdd
mod Echo
mod Remap
mod Lmdb
mod AddHeader
mod Cache
mod TsApi
