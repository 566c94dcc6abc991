-- ===== src/Redis/Client.antt =====
-- redis/redis.go: the clients, with the variables `client` and `limiter` of the package.
pub mod Limits
use go_cook.Shared.{
  ℕ, zero, suc, String, Option, none, some, Error, new, Result, ok, err, Action, to_result, Call,
  panics, returns,
}
use go_cook.Shared.Int.{ℤ}
use go_cook.Redis.Options.{RedisConfig, ClientOptions, client_options}

-- What the package calls of go-redis and redis_rate. A limiter is known by its client. `allow` gives
-- the number of requests that are allowed; on a limiter that is nil it may panic.
pub record Library : Type 1 where
  pub World : Type 0
  pub Tls : Type 0
  pub Client : Type 0
  pub new_client : ClientOptions Tls → World → Client × World
  pub allow : Option Client → String → ℤ → World → Call (Result ℕ × World)
  pub ping : Client → World → Option Error × World
  pub flush_db : Client → World → Option Error × World

module _ (lib : Library) where
  open lib use {World, Tls, Client}

  -- The variables of the package, nil at first, and the world.
  pub record Package : Type 0 where
    pub client : Option Client
    pub limiter : Option Client
    pub world : World

  -- `redisClient`
  pub record RedisClient : Type 0 where
    pub client : Client
    pub limiter : Option Client

  -- `newClient`, which `NewRedisClient` and `NewValkeyClient` call; `none` is a nil configuration
  unfoldable pub new_client : Option (RedisConfig Tls) → Action Package RedisClient
  new_client none p = (err (new "redis config is nil"), p)
  new_client (some cfg) p = elim (client_options cfg) [
    | err e ↦ (err e, p)
    | ok options ↦
        let (made, world) = lib.new_client options p.world in
        (
          ok (record { client = made; limiter = some made }),
          record { client = some made; limiter = some made; world = world },
        )
  ]

  -- The answer of `allow` from that of the limiter.
  abbrev verdict : Result ℕ → Option Error
  verdict (err e) = some e
  verdict (ok zero) = some (new "Rate limit exceeded")
  verdict (ok (suc _)) = none

  -- `allow`: the rate is what `strconv.Atoi` makes of RATE_LIMITER; the address is `none` where the
  -- context holds no string under "X-Client-IP", and the assertion then panics.
  unfoldable pub allow : ℤ → Option String → Option Client → Package → Call (Option Error × Package)
  allow rate none limiter p = panics
  allow rate (some address) limiter p = elim (lib.allow limiter address rate p.world) [
    | panics ↦ panics
    | returns (allowed, world) ↦ returns (verdict allowed, record p { world = world })
  ]

  -- `RateLimiter` of the package
  unfoldable pub rate_limiter : ℤ → Option String → Package → Call (Option Error × Package)
  unfolding allow
  rate_limiter rate address p = allow rate address p.limiter p

  -- `(*redisClient).RateLimiter`
  unfoldable pub client_rate_limiter :
      ℤ → Option String → RedisClient → Package → Call (Option Error × Package)
  unfolding allow
  client_rate_limiter rate address c p = allow rate address c.limiter p

  -- `Client`
  pub client : RedisClient → Client
  client c = c.client

  -- `Ping`
  pub ping : RedisClient → Action World (Unit {0})
  ping c world = let (e, world') = lib.ping c.client world in (to_result e, world')

  -- `ClearCache`
  pub clear_cache : RedisClient → Action World (Unit {0})
  clear_cache c world = let (e, world') = lib.flush_db c.client world in (to_result e, world')
