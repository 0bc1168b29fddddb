-- ===== src/OrderSync.antt =====
-- libs/ordersync: one order that is replicated on all nodes, and the table of them.
pub mod Order
pub mod Table
