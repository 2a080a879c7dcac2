-- ===== src/Lib.antt =====
-- Verification of cubetran-core, which copies and replicates data between databases: an extractor
-- reads a snapshot or a change log into a bounded queue, a pipeline drains the queue in batches, a
-- parallelizer decides which parts of a batch go to which sinker and in which order, and the sinkers
-- write to the target.
--
-- Prelude: the shared names. Tests, lists and integers over the native numbers, `HashMap` as an
-- association list, `anyhow::Result` as `Result`, where a panic is the error `panic`, and `String` as
-- the list of its scalar values (`Text`).
-- Meta: dt-common/src/meta.
--   Meta/ColValue: col_value.rs. Floats are bit patterns; the derived `PartialEq` is `eq`.
--     A JSON value and a BSON document are values of other packages: the model has their text and what
--     their own `==` compares, which need not be the text.
--     Meta/ColValue/ToString prints a value; how std prints floats and reads UTF-8, and the hex package, are parameters.
--   Meta/RowData: row_data.rs, row_type.rs, rdb_tb_meta.rs. A row change with its two images.
--   Meta/DtData: dt_data.rs, position.rs, syncer.rs.
--   Meta/DtQueue: dt_queue.rs, with calls made one at a time (Sequential) and as atomic operations
--     that interleave (Interleaving), where the queue has a limit on its bytes.
-- Parallelizer: dt-parallelizer/src.
--   Parallelizer/Merger: rdb_merger.rs. The source mutates the merged data of one table; the model
--     passes it on. The orders in which its maps are drained are the parameter `DrainOrders`.
--     `RdbMetaManager`, which reads the database, is the parameter `get_tb_meta`, and
--     the hash of a value (`DefaultHasher` of the printed value) is the parameter `hasher`, of which
--     nothing is assumed: the collisions are the code's business. `31 * hash + h` wraps at 128 bits,
--     as in a release build. A target table is a function from keys to rows, an insert replaces, as
--     the sinkers' upserts do.
--   Parallelizer/MongoMerger: mongo_merger.rs. The key of a BSON document (`MongoKey::from_doc`) is a
--     parameter.
--   Parallelizer/Snapshot: snapshot_parallelizer.rs.
--   Parallelizer/Merge: merge_parallelizer.rs. A task is the list of the calls that it makes.
--   Parallelizer/Partition: rdb_partitioner.rs and partition_parallelizer.rs. The arguments of a debug
--     message are evaluated only if the debug log is on; whether it is, is a parameter.
--   Parallelizer/Foxlake, Parallelizer/Check: foxlake_parallelizer.rs (`partition`) and
--     check_parallelizer.rs.
--   Parallelizer/Table: table_parallelizer.rs.
--   Parallelizer/Base: the draining of base_parallelizer.rs, with the rate limiter as a parameter.
--   Parallelizer/Sinks: the sinking of base_parallelizer.rs and serial_parallelizer.rs. The calls of
--     the sinkers are listed in the order in which they are started; that they run concurrently is
--     not modelled.
-- Pipeline: dt-pipeline/src/base_pipeline.rs. The batches that the loop drains are the model's input,
--   each with whether the interval between checkpoints is over; the parallelizer, its sinkers and the
--   lua processor are the parameter `Sinking`. The monitor and the data marker are not modelled.
-- Redis: the protocol of redis and its commands.
--   Redis/Decimal: what the redis code uses of the standard library, on bytes.
--   Redis/Encoder: dt-common/src/meta/redis/command/cmd_encoder.rs.
--   Redis/Resp: dt-connector/src/extractor/redis/redis_resp_reader.rs and redis_resp_types.rs. The
--     connection is the list of the bytes that are still to come before it ends. On an error the reader
--     is given up.
--   Redis/Crc, Redis/KeyParser: key_parser.rs and cmd_meta.rs beside the encoder, and the CRC table of
--     cmd_constants.rs. `to_uppercase` and `from_utf8_lossy`, which go by tables of Unicode, are
--     parameters. i32 does not overflow: the numbers are a command's few constants and its arguments.
--   Redis/Rdb: dt-connector/src/extractor/redis/rdb/reader, up to strings, and list_pack.rs. The connection is the list of
--     the bytes that are still to come; that it has ended is an error (io_error) of the model's own. The byteorder
--     package is the parameter `ByteOrder`, with the order of the bytes of an unsigned number.
-- Connector: dt-connector/src.
--   Connector/Resumer: extractor/resumer, and `from_log` of dt-common/src/meta/position.rs. The input is
--     the lines that are read; what JSON says of a position is a parameter.
--   Connector/Batches: the loop of sinker/base_sinker.rs.
--   Connector/Checker: compare_row_data of sinker/base_checker.rs.
-- Config: the values of a configuration and what is made of them.
--   Config/SqlUtil: dt-common/src/utils/sql_util.rs.
--   Config/TokenParser: dt-common/src/config/config_token_parser.rs. The index into the characters is
--     what follows it.
--   Config/Filter: dt-common/src/rdb_filter.rs. The compiler of regular expressions is a parameter; a
--     pattern that it refuses panics. A set is a list without duplicates.
--   Config/Router: dt-connector/src/rdb_router.rs.
-- Parallelizer/Redis: dt-parallelizer/src/redis_parallelizer.rs, with `cal_slots` of
--   dt-common/src/meta/redis/redis_entry.rs.
-- Monitor/TimeWindow: dt-common/src/monitor/time_window_counter.rs and counter.rs. An instant is a
--   number of nanoseconds, and a call reads the clock once.
-- Tests, Monitor/TimeWindow/Tests, Pipeline/Tests, Parallelizer/Tests, Redis/Tests,
-- Redis/Rdb/Tests, Config/Tests, Connector/Tests: the theorems at concrete inputs.
--
-- Bounds: the loops of the modelled code run over a list and need no fuel, but for the loop over an
-- index in Parallelizer/Merge (`chunk_loop`). Its fuel is the number of rows, which is enough since
-- each turn passes at least one row. The fuel of the redis reader (`decode_on`) is one more than the
-- bytes that are to come; every call takes a byte at least, or fails. The fuel of the
-- tokenizer (`parse_from`) is one more than the characters; every turn but the last skips a delimiter.
-- The fuel of `lzf_loop` is the bytes of its input, of which every turn takes one at least, and
-- that of `call_batches` the number of rows.
-- Not modelled: drivers and files (the extractors, sinkers and metadata fetchers), logging and the
-- text of error messages, the building of tasks from a configuration, the parsers of SQL.
pub mod Prelude
pub mod Meta
pub mod Parallelizer
pub mod Monitor
pub mod Pipeline
pub mod Redis
pub mod Config
pub mod Connector
mod Tests
