-- ===== src/Examples.antt =====
-- The theorems at concrete inputs.
mod Clients
mod Lives
mod World
mod Callbacks
mod Money
mod Guards
mod Retries
