-- ===== src/Connector.antt =====
-- dt-connector/src: what the connectors do around their calls of the databases.
pub mod Resumer
pub mod Batches
pub mod Checker
mod Tests
