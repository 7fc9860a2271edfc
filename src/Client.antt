-- ===== src/Client.antt =====
-- client/src: what the web client decides. The pages render, and are left out but for the conditions
-- under which they poll and offer an action.
pub mod Api
pub mod Session
pub mod Pages
pub mod Sessions
pub mod Offers
