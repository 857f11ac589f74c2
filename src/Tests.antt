-- ===== src/Tests.antt =====
-- The theorems at concrete inputs.
mod Strings
mod Memory
mod Tables
mod Accounts
mod Keys
mod Pages
mod Display
mod Tasks
mod Numbers
mod Hardware
mod Lines
mod Streams
mod Boot
