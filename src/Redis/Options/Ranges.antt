-- ===== src/Redis/Options/Ranges.antt =====
-- Which configurations `clientOptions` of redis/redis.go accepts, and the durations it makes.
use go_cook.Shared.{◌≡◌, ◌⊎◌, inl, inr, ◌≢◌, zero, suc, arith, Error, ok, err, Result-split}
use go_cook.Shared.Int.{ℤ, pos, negsuc, millisecond, second, minute, Counts, duration-Counts}
use go_cook.Redis.Options.{RedisConfig, ClientOptions, resp_version, options_for, client_options}

-- The protocols that a configuration may ask for.
abbrev pub IsKnown : ℤ → Type 0
IsKnown z = (z ≡ pos 0) ⊎ (z ≡ pos 2) ⊎ (z ≡ pos 3)

resp_version-IsKnown :
    (z v : ℤ)
    → resp_version z ≡ ok v
    → ((z ≡ pos 0) × (v ≡ pos 3)) ⊎ (((z ≡ pos 2) ⊎ (z ≡ pos 3)) × (v ≡ z))
unfolding resp_version
resp_version-IsKnown (pos zero) v h = ground arith
resp_version-IsKnown (pos (suc zero)) v h = ground arith
resp_version-IsKnown (pos (suc (suc zero))) v h = ground arith
resp_version-IsKnown (pos (suc (suc (suc zero)))) v h = ground arith
resp_version-IsKnown (pos (suc (suc (suc (suc n))))) v h = ground arith
resp_version-IsKnown (negsuc n) v h = cc

IsKnown-resp_version : (z : ℤ) (e : Error) → IsKnown z → resp_version z ≢ err e
unfolding resp_version
IsKnown-resp_version (pos n) e h = λ q. ground arith
IsKnown-resp_version (negsuc n) e h = λ q. ground arith

-- The options are those of a configuration: the version that it asks for, 3 where it has 0, and
-- durations that count its seconds, milliseconds and minutes.
pub record Meets {Tls : Type 0} (cfg : RedisConfig Tls) (o : ClientOptions Tls) : Type 0 where
  pub version :
      ((cfg.protocol ≡ pos 0) × (o.protocol ≡ pos 3))
      ⊎ (((cfg.protocol ≡ pos 2) ⊎ (cfg.protocol ≡ pos 3)) × (o.protocol ≡ cfg.protocol))
  pub pool : Counts o.pool_timeout cfg.pool_timeout second
  pub dial : Counts o.dial_timeout cfg.dial_timeout second
  pub read : Counts o.read_timeout cfg.read_timeout millisecond
  pub write : Counts o.write_timeout cfg.write_timeout millisecond
  pub min_backoff : Counts o.min_retry_backoff cfg.min_retry_backoff millisecond
  pub max_backoff : Counts o.max_retry_backoff cfg.max_retry_backoff millisecond
  pub idle : Counts o.conn_max_idle_time cfg.conn_max_idle_time minute
  pub life : Counts o.conn_max_lifetime cfg.conn_max_life_time minute

options_for-Meets :
    {Tls : Type 0} (cfg : RedisConfig Tls) (v : ℤ)
    → ((cfg.protocol ≡ pos 0) × (v ≡ pos 3))
      ⊎ (((cfg.protocol ≡ pos 2) ⊎ (cfg.protocol ≡ pos 3)) × (v ≡ cfg.protocol))
    → Meets cfg (options_for cfg v)
options_for-Meets cfg v h = record {
  version = h;
  pool = duration-Counts cfg.pool_timeout second;
  dial = duration-Counts cfg.dial_timeout second;
  read = duration-Counts cfg.read_timeout millisecond;
  write = duration-Counts cfg.write_timeout millisecond;
  min_backoff = duration-Counts cfg.min_retry_backoff millisecond;
  max_backoff = duration-Counts cfg.max_retry_backoff millisecond;
  idle = duration-Counts cfg.conn_max_idle_time minute;
  life = duration-Counts cfg.conn_max_life_time minute;
}

-- `clientOptions` fails exactly where the protocol is none of 0, 2 and 3. Otherwise its options ask
-- for the version of the configuration, 3 where that has 0, and each duration is an `int64` that
-- differs from the nanoseconds of the configured seconds, milliseconds or minutes by a multiple of
-- 2^64, and is their number exactly where that fits 64 bits.
pub client_options-Meets :
    {Tls : Type 0} (cfg : RedisConfig Tls)
    → ((e : Error) × (client_options cfg ≡ err e) × (¬ IsKnown cfg.protocol))
      ⊎ ((o : ClientOptions Tls) × (client_options cfg ≡ ok o) × IsKnown cfg.protocol × Meets cfg o)
unfolding client_options
client_options-Meets cfg = elim (Result-split (resp_version cfg.protocol)) [
  | inr (e, h) ↦ inl (e, ground arith, λ known. IsKnown-resp_version cfg.protocol e known h)
  | inl (v, h) ↦
      let version = resp_version-IsKnown cfg.protocol v h in
      inr (options_for cfg v, ground arith, ground arith, options_for-Meets cfg v version)
]
