-- ===== src/Redis/Cache.antt =====
-- redis/cache.go: the cache, with `encoding/json` for the values.
pub mod Calls
pub mod Laws
pub mod Events
pub mod History
use go_cook.Shared.{
  String, Bool, true, false, Option, none, some, List, ◌<>◌, Error, new, message, Result, ok, err,
  to_result, Action, pure, Call, panics, returns, ◌>>=◌, ◌>>◌, from_result,
}
use go_cook.Shared.Int.{ℤ, duration, second}

-- The commands of go-redis that the cache calls, and JSON; `Value` is `interface{}`, bytes are text.
pub record Server : Type 1 where
  pub World : Type 0
  pub Value : Type 0
  pub Location : Type 0
  pub Query : Type 0
  pub json_marshal : Value → Result String
  pub json_unmarshal : String → Result Value
  pub set : String → String → ℤ → World → Option Error × World
  pub get : String → World → Result String × World
  pub del : String → World → Option Error × World
  pub set_nx : String → Value → ℤ → World → Result Bool × World
  pub geo_add : String → Location → World → Option Error × World
  pub geo_radius : String → String → Query → World → Result (List Location) × World
  pub publish : String → Value → World → Option Error × World

-- `getRedisTimeout`, from what `strconv.Atoi` makes of REDIS_EXPIRATION
pub get_redis_timeout : ℤ → ℤ
unfolding duration
get_redis_timeout seconds = duration seconds second

module _ (server : Server) where
  open server use {World, Value, Location, Query}

  abbrev pub command : (World → Option Error × World) → Action World Bool
  command f world =
      let (e, world') = f world in elim e [ none ↦ (ok true, world') | some x ↦ (err x, world') ]

  -- `Set`
  unfoldable pub set : String → Value → ℤ → Action World Bool
  set key value expire = do
    data_text ← from_result (server.json_marshal value)
    command (server.set key data_text expire)

  -- `Get`
  unfoldable pub get : String → Action World Value
  get key = do
    found ← server.get key
    elim (server.json_unmarshal found) [
      | ok value ↦ pure value
      | err e ↦ from_result (err (new ("json unmarshal err: " <> message e)))
    ]

  -- `Del`
  unfoldable pub del : String → Action World (Unit {0})
  del key world = let (e, world') = server.del key world in (to_result e, world')

  -- `HDel` and `HGet`
  abbrev pub h_del : String → Call Bool
  h_del key = panics

  abbrev pub h_get : String → Call Value
  h_get key = panics

  -- `SetNX`: the value is not encoded
  unfoldable pub set_nx : String → Value → ℤ → Action World Bool
  set_nx key value expire = server.set_nx key value expire

  -- `GeoAdd`
  pub geo_add : String → Location → Action World Bool
  geo_add key location = command (server.geo_add key location)

  -- `GeoRadiusByMember`
  pub geo_radius_by_member : String → String → Query → Action World (List Location)
  geo_radius_by_member key member query = server.geo_radius key member query

  -- `Publish`
  pub publish : String → Value → Action World Bool
  publish channel value = command (server.publish channel value)
