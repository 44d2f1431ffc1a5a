-- ===== src/Orders.antt =====
-- src/modules/orders/orders.service.js.
-- `Status` has the status table, `Pricing` the money of an order, `Placing` the transaction of
-- `create`, `Changing` `updateStatus` and `cancel`; the modules below them prove what they do.
pub mod Status
pub mod Pricing
pub mod Planning
pub mod Placing
pub mod Changing
