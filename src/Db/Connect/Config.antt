-- ===== src/Db/Connect/Config.antt =====
-- Which configurations db/db.go connects with, and what becomes of a connection.
use go_cook.Shared.{
  ◌≡◌, ◌⊎◌, Result, Option-cases, inl, inr, String, Bool, false, none, some, arith, Error, ok, err,
  Result-split, ◌||◌, ◌==◌, member, if◌then◌else◌,
}
use go_cook.Db.Connect.{
  DbConfig, Drivers, driver_name, ssl_modes, ssl_mode, data_source, pool_of, DbClient,
  new_mysql_client,
}

-- The names that `NewMYSQLClient` takes for a database, and the SSL modes, where "" stands for
-- "require".
abbrev pub is_accepted : DbConfig → Bool
is_accepted config =
    if config.db == "mysql" || config.db == "postgresql"
    then config.ssl_mode == "" || member config.ssl_mode ssl_modes
    else false

err-is_accepted :
    (config : DbConfig) (e : Error)
    → (driver_name config.db ≡ err e) ⊎ (ssl_mode config ≡ err e)
    → is_accepted config ≡ false
unfolding driver_name ssl_mode
err-is_accepted config e h = ground arith

module _ (drivers : Drivers) where
  open drivers use {World, Conn}

  -- What becomes of a call of `NewMYSQLClient`.
  pub data Opening (config : DbConfig) (world : World) (x : Result (DbClient drivers) × World)
      : Type 0 where
    refused : (e : Error) → is_accepted config ≡ false → x ≡ (err e, world) → Opening config world x
    unopened :
        (driver mode : String) (e : Error) (later : World)
        → driver_name config.db ≡ ok driver
        → ssl_mode config ≡ ok mode
        → drivers.open_db driver (data_source config mode) world ≡ (err e, later)
        → x ≡ (err e, later)
        → Opening config world x
    unanswered :
        (driver mode : String) (conn : Conn) (e : Error) (opened pinged : World)
        → driver_name config.db ≡ ok driver
        → ssl_mode config ≡ ok mode
        → drivers.open_db driver (data_source config mode) world ≡ (ok conn, opened)
        → drivers.ping conn (drivers.set_pool conn (pool_of config) opened) ≡ (some e, pinged)
        → x ≡ (err e, drivers.close conn pinged)
        → Opening config world x
    connects :
        (driver mode : String) (conn : Conn) (opened pinged : World)
        → driver_name config.db ≡ ok driver
        → ssl_mode config ≡ ok mode
        → drivers.open_db driver (data_source config mode) world ≡ (ok conn, opened)
        → drivers.ping conn (drivers.set_pool conn (pool_of config) opened) ≡ (none, pinged)
        → x ≡ (ok (record { db = conn }), pinged)
        → Opening config world x

  -- `NewMYSQLClient` ends in one of four ways. A configuration whose database or SSL mode has no
  -- accepted name is an error and opens nothing. For an accepted one that the driver does not open
  -- the driver's error is returned. Else the limits of the pool are set before the ping: if that is
  -- not answered, the database is closed and the ping's error returned, and if it is, the client of
  -- this database.
  pub new_mysql_client-Opening :
      (config : DbConfig) (world : World)
      → Opening config world (new_mysql_client drivers config world)
  unfolding new_mysql_client
  new_mysql_client-Opening config world = elim (Result-split (driver_name config.db)) [
    | inr (e, hd) ↦ refused e (err-is_accepted config e (inl hd)) (ground arith)
    | inl (driver, hd) ↦ elim (Result-split (ssl_mode config)) [
      | inr (e, hm) ↦ refused e (err-is_accepted config e (inr hm)) (ground arith)
      | inl (mode, hm) ↦
          let (_, opened) = drivers.open_db driver (data_source config mode) world in
          elim (Result-split (drivers.open_db driver (data_source config mode) world).0) [
            | inr (e, ho) ↦ unopened driver mode e opened hd hm (ground arith) (ground arith)
            | inl (conn, ho) ↦
                let ready = drivers.set_pool conn (pool_of config) opened in
                elim (Option-cases (drivers.ping conn ready).0) [
                  | inl hp ↦
                      connects driver mode conn opened (drivers.ping conn ready).1 hd hm
                        (ground arith) (ground arith) (ground arith)
                  | inr (e, hp) ↦
                      unanswered driver mode conn e opened (drivers.ping conn ready).1 hd hm
                        (ground arith) (ground arith) (ground arith)
                ]
          ]
    ]
  ]
