-- ===== src/Runtime.antt =====
-- What the services run on: exceptions, the state that they share, and what comes from outside.
pub mod Errors
pub mod World
pub mod Monad
pub mod Laws
