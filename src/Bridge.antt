-- ===== src/Bridge.antt =====
-- bridge/src/graphs: the graphs of pre-signed transactions and what their statuses offer.
pub mod Base
pub mod Transactions
pub mod PegOut
pub mod PegIn
pub mod Client
