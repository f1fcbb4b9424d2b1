-- ===== src/Core.antt =====
-- app/core: phone numbers, exchange rates, and what the routers demand of the current user.
pub mod Phone
pub mod Countries
pub mod Rates
pub mod Settings
pub mod Security
pub mod Dependencies
