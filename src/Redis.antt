-- ===== src/Redis.antt =====
-- The redis protocol: dt-common/src/meta/redis and dt-connector/src/extractor/redis. Bytes are
-- numbers, and a `String` that the code only passes on is its bytes.
pub mod Decimal
pub mod Encoder
pub mod Resp
pub mod Crc
pub mod KeyParser
pub mod Rdb
mod Tests
