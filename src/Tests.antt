-- ===== src/Tests.antt =====
-- The theorems at concrete inputs.
mod Radix
mod Cuckoo
mod Recovery
mod State
mod Graph
mod Stores
mod Pages
mod Hashes
mod Answers
