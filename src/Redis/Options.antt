-- ===== src/Redis/Options.antt =====
-- redis/redis.go: `RedisConfig` and `clientOptions`.
pub mod Ranges
use go_cook.Shared.{
  String, Bool, true, false, Option, if◌then◌else◌, leb, ◌<>◌, Error, new, Result, ok, err,
}
use go_cook.Shared.Int.{ℤ, pos, negsuc, duration, millisecond, second, minute, show_int}

-- `Tls` stands for `tls.Config`; a nil pointer is `none`.
pub record RedisConfig (Tls : Type 0) : Type 0 where
  pub username : String
  pub host : String
  pub port : String
  pub password : String
  pub db : ℤ
  pub protocol : ℤ
  pub tls_config : Option Tls
  pub disable_identity : Bool
  pub maint_notifications : Bool
  pub pool_size : ℤ
  pub min_idle_conn : ℤ
  pub max_idle_conn : ℤ
  pub pool_timeout : ℤ
  pub dial_timeout : ℤ
  pub read_timeout : ℤ
  pub write_timeout : ℤ
  pub max_retries : ℤ
  pub min_retry_backoff : ℤ
  pub max_retry_backoff : ℤ
  pub conn_max_idle_time : ℤ
  pub conn_max_life_time : ℤ

-- The two modes of maintenance notifications that the package asks for.
pub data MaintMode : Type 0 where
  mode_disabled mode_auto : MaintMode

-- The fields of `redis.Options` that the package sets; durations in nanoseconds.
pub record ClientOptions (Tls : Type 0) : Type 0 where
  pub addr : String
  pub password : String
  pub db : ℤ
  pub username : String
  pub protocol : ℤ
  pub pool_size : ℤ
  pub min_idle_conns : ℤ
  pub max_idle_conns : ℤ
  pub pool_timeout : ℤ
  pub dial_timeout : ℤ
  pub read_timeout : ℤ
  pub write_timeout : ℤ
  pub max_retries : ℤ
  pub min_retry_backoff : ℤ
  pub max_retry_backoff : ℤ
  pub conn_max_idle_time : ℤ
  pub conn_max_lifetime : ℤ
  pub tls_config : Option Tls
  pub disable_identity : Bool
  pub maint_notifications : MaintMode

-- The RESP version that a configuration asks for, where 0 asks for the default.
unfoldable pub resp_version : ℤ → Result ℤ
resp_version (negsuc n) = err (new ("redis protocol must be 2 or 3, got " <> show_int (negsuc n)))
resp_version (pos n) =
    if leb n 0
    then ok (pos 3)
    else if leb n 1
    then err (new ("redis protocol must be 2 or 3, got " <> show_int (pos n)))
    else if leb n 3
    then ok (pos n)
    else err (new ("redis protocol must be 2 or 3, got " <> show_int (pos n)))

-- The options for a version.
abbrev pub options_for : {Tls : Type 0} → RedisConfig Tls → ℤ → ClientOptions Tls
options_for cfg version = record {
  addr = cfg.host <> ":" <> cfg.port;
  password = cfg.password;
  db = cfg.db;
  username = cfg.username;
  protocol = version;
  pool_size = cfg.pool_size;
  min_idle_conns = cfg.min_idle_conn;
  max_idle_conns = cfg.max_idle_conn;
  pool_timeout = duration cfg.pool_timeout second;
  dial_timeout = duration cfg.dial_timeout second;
  read_timeout = duration cfg.read_timeout millisecond;
  write_timeout = duration cfg.write_timeout millisecond;
  max_retries = cfg.max_retries;
  min_retry_backoff = duration cfg.min_retry_backoff millisecond;
  max_retry_backoff = duration cfg.max_retry_backoff millisecond;
  conn_max_idle_time = duration cfg.conn_max_idle_time minute;
  conn_max_lifetime = duration cfg.conn_max_life_time minute;
  tls_config = cfg.tls_config;
  disable_identity = cfg.disable_identity;
  maint_notifications = if cfg.maint_notifications then mode_auto else mode_disabled;
}

-- `clientOptions`
unfoldable pub client_options : {Tls : Type 0} → RedisConfig Tls → Result (ClientOptions Tls)
client_options cfg = elim (resp_version cfg.protocol) [
  | err e ↦ err e
  | ok version ↦ ok (options_for cfg version)
]
