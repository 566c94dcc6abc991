-- ===== src/Db/Connect.antt =====
-- db/db.go: `NewMYSQLClient` and the client that it makes.
pub mod Config
use go_cook.Shared.{
  String, Bool, true, false, ◌||◌, Option, none, some, if◌then◌else◌, ◌==◌, ◌<>◌, Error, new,
  Result, ok, err, Action, pure, fail, ◌>>=◌, ◌>>◌, branch, to_result, modify, member, List, [],
  ◌∷◌,
}
use go_cook.Shared.Int.{ℤ, duration, minute}

pub record DbConfig : Type 0 where
  pub db : String
  pub db_user : String
  pub db_pass : String
  pub db_name : String
  pub db_host : String
  pub ssl_mode : String
  pub max_idle_conns : ℤ
  pub max_open_conns : ℤ
  pub conn_max_life_time : ℤ
  pub conn_max_idle_time : ℤ

-- The limits of a pool, durations in nanoseconds.
pub record Pool : Type 0 where
  pub max_idle_conns : ℤ
  pub max_open_conns : ℤ
  pub conn_max_lifetime : ℤ
  pub conn_max_idle_time : ℤ

-- `sql.Open` with its driver and data source, the setters of `sql.DB`, `Ping` and `Close`, whose error
-- the package drops.
pub record Drivers : Type 1 where
  pub World : Type 0
  pub Conn : Type 0
  pub open_db : String → String → World → Result Conn × World
  pub set_pool : Conn → Pool → World → World
  pub ping : Conn → World → Option Error × World
  pub close : Conn → World → World

-- `openConnectDB`
unfoldable pub driver_name : String → Result String
driver_name db =
    if db == "mysql"
    then ok "mysql"
    else if db == "postgresql"
    then ok "postgres"
    else err (new "invalid db")

abbrev pub ssl_modes : List String
ssl_modes = "disable" ∷ "allow" ∷ "prefer" ∷ "require" ∷ "verify-ca" ∷ "verify-full" ∷ []

-- `sslMode` with its default, and the check of it
unfoldable pub ssl_mode : DbConfig → Result String
ssl_mode config =
    let mode = if config.ssl_mode == "" then "require" else config.ssl_mode in
    if member mode ssl_modes then ok mode else err (new "invalid sslmode")

-- `conn`
unfoldable pub data_source : DbConfig → String → String
data_source config mode =
    config.db <> "://" <> config.db_user <> ":" <> config.db_pass <> "@" <> config.db_host <> "/"
    <> config.db_name <> "?sslmode=" <> mode

unfoldable pub pool_of : DbConfig → Pool
unfolding duration
pool_of config = record {
  max_idle_conns = config.max_idle_conns;
  max_open_conns = config.max_open_conns;
  conn_max_lifetime = duration config.conn_max_life_time minute;
  conn_max_idle_time = duration config.conn_max_idle_time minute;
}

module _ (drivers : Drivers) where
  open drivers use {World, Conn}

  -- `dbClient`
  pub record DbClient : Type 0 where
    pub db : Conn

  -- `Client`
  abbrev pub client : DbClient → Conn
  client m = m.db

  -- `Close`
  unfoldable pub close : DbClient → World → World
  close m world = drivers.close m.db world

  -- `Ping`
  unfoldable pub ping : DbClient → Action World (Unit {0})
  ping m world = let (e, world') = drivers.ping m.db world in (to_result e, world')

  -- The call of `Ping` in `NewMYSQLClient`, with `Close` where it fails
  abbrev pub ping_or_close : Conn → Action World DbClient
  ping_or_close conn world =
      let (e, world') = drivers.ping conn world in
      elim e [
        | none ↦ (ok (record { db = conn }), world')
        | some e ↦ (err e, drivers.close conn world')
      ]

  -- `NewMYSQLClient`
  unfoldable pub new_mysql_client : DbConfig → Action World DbClient
  new_mysql_client config world = elim (driver_name config.db) [
    | err e ↦ (err e, world)
    | ok driver ↦ elim (ssl_mode config) [
      | err e ↦ (err e, world)
      | ok mode ↦
          (do
            conn ← drivers.open_db driver (data_source config mode)
            modify (drivers.set_pool conn (pool_of config))
            ping_or_close conn)
            world
    ]
  ]
