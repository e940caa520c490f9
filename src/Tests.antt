-- ===== src/Tests.antt =====
-- The theorems at concrete inputs.
mod Store
mod Names
mod Wire
mod Auth
mod Texts
mod Session
