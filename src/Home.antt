-- ===== src/Home.antt =====
-- crates/spl-home/src/{config,error,mux,pair_window}.rs: the listener's mux and pairing windows.
pub mod Close
pub mod PairWindow
pub mod Types
pub mod State
pub mod Dispatch
pub mod Feed
pub mod Calls
pub mod Valid
pub mod Opening
pub mod Receiving
pub mod Untouched
pub mod Framing
pub mod Carrier
pub mod Input
pub mod Boundary
pub mod Position
pub mod Local
pub mod Session
pub mod Refusals
mod Tests
