-- ===== src/Acme/Orders.antt =====
-- acme/handler.go: the handlers of orders, challenges and finalization. A request comes in after
-- readJWS accepted it, its body decoded. Requests and Finalize run it with no other request in
-- between; Interleaved goes from one hold of the mutex to the next, with other requests in between.
pub mod Handlers
pub mod Requests
pub mod Finalize
pub mod Settled
pub mod Turns
pub mod Steps
mod Passing
pub mod Interleaved
pub mod Outcomes
pub mod Created
pub mod Race
mod Examples
