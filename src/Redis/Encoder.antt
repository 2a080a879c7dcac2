-- ===== src/Redis/Encoder.antt =====
-- dt-common/src/meta/redis/command/cmd_encoder.rs, and the command of redis_object.rs.
use cubetran_core.Prelude.{List, [], length, list_eq, nat_eq, option_eq, pair_eq, ℕ, ◌++◌, ◌∷◌}
use cubetran_core.Redis.Decimal.{to_string}

pub record RedisCmd : Type 0 where
  pub args : List (List ℕ)
  pub name : List ℕ
  pub group : List ℕ
  pub keys : List (List ℕ)
  pub key_indexes : List ℕ

unfoldable pub from_args : List (List ℕ) → RedisCmd
from_args args = record { args = args; name = []; group = []; keys = []; key_indexes = [] }

abbrev pub cr : ℕ
cr = 13

abbrev pub lf : ℕ
lf = 10

-- The buffer that is written to is what comes back.
abbrev pub write_crlf : List ℕ → List ℕ
write_crlf buf = buf ++ cr ∷ lf ∷ []

unfoldable pub write_length : List ℕ → ℕ → List ℕ
write_length buf len = write_crlf (buf ++ to_string len)

unfoldable pub write_arg : List ℕ → List ℕ → List ℕ
write_arg buf arg = write_crlf (write_length (buf ++ 36 ∷ []) (length arg) ++ arg)

unfoldable pub write_args : List ℕ → List (List ℕ) → List ℕ
write_args buf [] = buf
write_args buf (arg ∷ args) = write_args (write_arg buf arg) args

unfoldable pub encode : RedisCmd → List ℕ
encode cmd = write_args (write_length (42 ∷ []) (length cmd.args)) cmd.args
