-- ===== src/Examples.antt =====
-- The theorems at concrete inputs.
mod World
mod Texts
mod Rendering
mod Contexts
mod Errors
mod Caching
mod Racing
mod Sessions
mod Publishing
