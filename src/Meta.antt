-- ===== src/Meta.antt =====
-- dt-common/src/meta: the values, rows, items and positions that the components exchange, and the
-- bounded queue between an extractor and its pipeline.
pub mod ColValue
pub mod RowData
pub mod DtData
pub mod DtQueue
