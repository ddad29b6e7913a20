-- ===== src/Tests.antt =====
-- The theorems at concrete inputs, by the part of the server that they are about.
mod Wire
mod State
mod Flow
mod Links
mod Loop
mod Survival
mod Memory
