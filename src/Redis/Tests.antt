-- ===== src/Redis/Tests.antt =====
-- The package redis on a small server.
mod Cached
use go_cook.Shared.{
  Bool, is_error, All, if◌then◌else◌, ◌≡◌, refl, ℕ, ◌+◌, String, true, false, Option, none, some,
  List, [], ◌∷◌, arith, Error, new, returns, inl, inr, ◌⊎◌, member, ◌==◌, String-discrete, Result,
  ok, err,
}
use go_cook.Shared.Int.{ℤ, pos}
use go_cook.Shared.Dict.{Dict, lookup, insert, lookup-insert}
use go_cook.Redis.Options.{RedisConfig, ClientOptions, resp_version, client_options}
use go_cook.Redis.Options.Ranges.{IsKnown, Meets, client_options-Meets}
use go_cook.Redis.Client.{
  Library, Package, RedisClient, new_client, rate_limiter, client_rate_limiter,
}
use go_cook.Redis.Client.Limits.{connect_all, rate_limiter-connect_all}
use go_cook.Redis.Cache.{Server, set, get}
use go_cook.Redis.Cache.Events.{possible, AtKey}
use go_cook.Redis.Cache.History.{KeyStore, run, get-possible}
use go_cook.Redis.Cache.Calls.{CacheCall, sets, sets_nx, gets_key, dels, run_all}
use go_cook.Redis.Cache.Laws.{redis_nil, Keeps, replaces, get-set}

abbrev config : ℤ → RedisConfig ℕ
config protocol = record {
  username = "u";
  host = "localhost";
  port = "6379";
  password = "p";
  db = pos 0;
  protocol = protocol;
  tls_config = none;
  disable_identity = false;
  maint_notifications = false;
  pool_size = pos 10;
  min_idle_conn = pos 1;
  max_idle_conn = pos 5;
  pool_timeout = pos 4;
  dial_timeout = pos 5;
  read_timeout = pos 300;
  write_timeout = pos 300;
  max_retries = pos 3;
  min_retry_backoff = pos 8;
  max_retry_backoff = pos 512;
  conn_max_idle_time = pos 30;
  conn_max_life_time = pos 60;
}

-- Nine billion and three hundred million seconds are more nanoseconds than `int64` has.
abbrev long_wait : RedisConfig ℕ
long_wait = record (config (pos 2)) { pool_timeout = pos 9_300_000_000 }

client_options-Meets_example :
    ((e : Error) × (client_options long_wait ≡ err e) × (¬ IsKnown (pos 2)))
    ⊎ ((o : ClientOptions ℕ) × (client_options long_wait ≡ ok o)
        × IsKnown (pos 2)
        × Meets long_wait o)
client_options-Meets_example = client_options-Meets long_wait

-- Clients are numbered; each request is allowed.
abbrev lib : Library
lib = record {
  World = ℕ;
  Tls = ℕ;
  Client = ℕ;
  new_client = λ options n. (n, n + 1);
  allow = λ limiter address rate n. returns (ok 1, n);
  ping = λ c n. (none, n);
  flush_db = λ c n. (none, n);
}

abbrev start : Package lib
start = record { client = none; limiter = none; world = 0 }

abbrev two : List (Option (RedisConfig ℕ))
two = some (config (pos 2)) ∷ some (config (pos 0)) ∷ some (config (pos 9)) ∷ none ∷ []

abbrev second_client : RedisClient lib
second_client = record { client = 1; limiter = some 1 }

two-connected :
    connect_all lib two none start
    ≡ (some second_client, record { client = some 1; limiter = some 1; world = 2 })
unfolding new_client client_options resp_version
two-connected = refl

rate_limiter-connect_all_example :
    rate_limiter lib
      (pos 60)
      (some "10.0.0.1")
      (record { client = some 1; limiter = some 1; world = 2 })
    ≡ client_rate_limiter lib
        (pos 60)
        (some "10.0.0.1")
        second_client
        (record { client = some 1; limiter = some 1; world = 2 })
rate_limiter-connect_all_example =
    rate_limiter-connect_all lib two start (record { client = some 1; limiter = some 1; world = 2 })
      second_client (pos 60) (some "10.0.0.1") refl two-connected
