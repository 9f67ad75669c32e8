-- ===== src/Tests.antt =====
-- The theorems on concrete inputs.
mod Mouse
mod Block
mod Trees
mod Chars
mod Pcis
mod Links
mod Routes
mod Arrays
mod Files
