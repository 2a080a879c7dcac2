-- ===== src/Meta/DtData.antt =====
-- dt-common/src/meta/dt_data.rs, position.rs and syncer.rs: the items of a queue, and the positions
-- in a source's log. A payload that the modelled code only passes on keeps the fields that it reads.
use cubetran_core.Prelude.{
  Bool, Text, [], false, list_eq, nat_eq, not, option_eq, pair_eq, true, ℕ, ℤ, ◌&&◌,
}
use cubetran_core.Meta.RowData.{RowData}
use cubetran_core.Redis.Encoder.{RedisCmd}

pub data Position : Type 0 where
  nowhere : Position
  kafka : Text → ℤ → ℤ → Position
  rdb_snapshot : Text → Text → Text → Text → Text → Position
  rdb_snapshot_finished : Text → Text → Text → Position
  mysql_cdc : Text → Text → ℕ → Text → Text → Position
  pg_cdc : Text → Text → Position
  mongo_cdc : Text → ℕ → Text → Position
  redis_repl : Text → ℕ → ℕ → ℤ → Text → Position
  foxlake_s3 : Text → Text → Text → Position

pub record Syncer : Type 0 where
  pub received_position : Position
  pub committed_position : Position

pub record StructData : Type 0 where
  pub schema : Text

pub record DdlData : Type 0 where
  pub default_schema : Text
  pub query : Text

pub record RedisEntry : Type 0 where
  pub is_base : Bool
  pub key : Text
  pub raw_bytes : Text
  pub cmd : RedisCmd
  pub data_size : ℕ

pub record S3FileMeta : Type 0 where
  pub data_size : ℕ
  pub row_count : ℕ

pub data DtData : Type 0 where
  struct : StructData → DtData
  ddl : DdlData → DtData
  dml : RowData → DtData
  begin : DtData
  commit : Text → DtData
  redis : RedisEntry → DtData
  foxlake : S3FileMeta → DtData

pub record DtItem : Type 0 where
  pub dt_data : DtData
  pub position : Position
  pub data_origin_node : Text

unfoldable pub is_begin : DtData → Bool
is_begin begin = true
is_begin _ = false

unfoldable pub is_commit : DtData → Bool
is_commit (commit xid) = true
is_commit _ = false

unfoldable pub is_ddl : DtData → Bool
is_ddl (ddl d) = true
is_ddl _ = false

unfoldable pub get_data_size : DtData → ℕ
get_data_size (dml row) = row.data_size
get_data_size (redis entry) = entry.data_size
get_data_size (foxlake meta) = meta.data_size
get_data_size _ = 0

unfoldable pub get_data_count : DtData → ℕ
get_data_count (foxlake meta) = meta.row_count
get_data_count _ = 1

unfoldable pub is_raw : RedisEntry → Bool
is_raw entry = entry.is_base && not (elim entry.raw_bytes [ [] ↦ true | _ ↦ false ])
