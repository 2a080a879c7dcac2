-- ===== src/Prelude/Results.antt =====
-- `anyhow::Result`: a value, or the error that the code names. A panic (an `unwrap` on nothing, an
-- index out of range, a division by zero) is an error of its own.
use mathlib.Core.Path.{◌≡◌, refl, subst}
use mathlib.Core.Bool.{Bool, true, false}
use cubetran_core.Prelude.Tests.{if◌then◌else◌}
use mathlib.Core.Option.{Option, none, some}

-- dt-common/src/error.rs, and a panic. The messages and the errors that are wrapped are left out.
pub data Error : Type 0 where
  panic : Error
  config_error : Error
  extractor_error : Error
  pipeline_error : Error
  sinker_error : Error
  hearbeat_error : Error
  binlog_error : Error
  sqlx_error : Error
  unexpected : Error
  redis_rdb_error : Error
  redis_cmd_error : Error
  redis_result_error : Error
  metadata_error : Error
  io_error : Error
  yaml_error : Error
  from_utf8_error : Error
  mongodb_error : Error
  struct_error : Error
  avro_encode_error : Error
  enum_parse_error : Error
  http_error : Error
  data_marker_error : Error
  mlua_error : Error

pub data Result {ℓ} (A : Type ℓ) : Type ℓ where
  err : Error → Result A
  ok : A → Result A

-- the `?` operator: the rest runs on a value, and an error is passed on
infixl 5 ◌>>◌ ◌>>=◌
abbrev pub ◌>>=◌ {ℓ κ} : {A : Type ℓ} {B : Type κ} → Result A → (A → Result B) → Result B
err e >>= next = err e
ok a >>= next = next a

abbrev pub ◌>>◌ {ℓ κ} : {A : Type ℓ} {B : Type κ} → Result A → Result B → Result B
m >> k = m >>= λ _. k

-- Option::unwrap
abbrev pub unwrap {ℓ} : {A : Type ℓ} → Option A → Result A
unwrap none = err panic
unwrap (some a) = ok a

pub some_inj {ℓ} : {A : Type ℓ} {a b : A} → some a ≡ some b → a ≡ b
some_inj h = cc

pub ok_inj {ℓ} : {A : Type ℓ} {a b : A} → ok a ≡ ok b → a ≡ b
ok_inj h = cc

-- What holds of the value, if there is one.
unfoldable pub IfOk {ℓ κ} : {A : Type ℓ} → (A → Type κ) → Result A → Type κ
IfOk P (err e) = Unit
IfOk P (ok a) = P a

module _ {ℓ κ} {A : Type ℓ} (P : A → Type κ) where
  pub err-IfOk : (e : Error) → IfOk P (err e)
  unfolding IfOk
  err-IfOk e = tt

  pub ok-IfOk : (a : A) → P a → IfOk P (ok a)
  unfolding IfOk
  ok-IfOk a h = h

  pub if-IfOk : (b : Bool) (x y : Result A) → IfOk P x → IfOk P y → IfOk P (if b then x else y)
  if-IfOk true x y hx hy = hx
  if-IfOk false x y hx hy = hy

  pub from-IfOk : {a : A} (m : Result A) → m ≡ ok a → IfOk P m → P a
  unfolding IfOk
  from-IfOk m e h = subst (IfOk P) e h

  pub bind-IfOk {μ ν} :
      {B : Type μ} (Q : B → Type ν) (m : Result A) (next : A → Result B)
      → IfOk P m
      → ((a : A) → P a → IfOk Q (next a))
      → IfOk Q (m >>= next)
  unfolding IfOk
  bind-IfOk Q (err e) next h step = tt
  bind-IfOk Q (ok a) next h step = step a h

  pub unwrap-IfOk : (o : Option A) → ((a : A) → o ≡ some a → P a) → IfOk P (unwrap o)
  unfolding IfOk
  unwrap-IfOk none h = tt
  unwrap-IfOk (some a) h = h a refl

-- a value is the one that there is
pub self-IfOk {ℓ} : {A : Type ℓ} (m : Result A) → IfOk (λ a. m ≡ ok a) m
unfolding IfOk
self-IfOk (err e) = tt
self-IfOk (ok a) = refl

pub map-IfOk {ℓ κ μ} :
    {A : Type ℓ} (P : A → Type κ) (Q : A → Type μ) (m : Result A)
    → ((a : A) → P a → Q a)
    → IfOk P m
    → IfOk Q m
unfolding IfOk
map-IfOk P Q (err e) step h = tt
map-IfOk P Q (ok a) step h = step a h
