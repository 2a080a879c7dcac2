-- ===== src/Config.antt =====
-- The values of a configuration, and the filter and the router of tables that are made of them:
-- dt-common/src/config, dt-common/src/utils, dt-common/src/rdb_filter.rs and
-- dt-connector/src/rdb_router.rs.
pub mod SqlUtil
pub mod TokenParser
pub mod Filter
pub mod Router
mod Tests
