-- ===== src/Redis/Cache/Calls.antt =====
-- Calls of redis/cache.go by an application, one after the other.
use go_cook.Shared.{◌≡◌, inl, inr, String, List, [], ◌∷◌, arith, Result-split}
use go_cook.Shared.Int.{ℤ}
use go_cook.Redis.Cache.{Server, set, get, del, set_nx}

-- A call of the cache.
pub data CacheCall (server : Server) : Type 0 where
  sets : String → server.Value → ℤ → CacheCall server
  sets_nx : String → server.Value → ℤ → CacheCall server
  gets_key : String → CacheCall server
  dels : String → CacheCall server

module _ (server : Server) where
  open server use {World}

  -- The world after a call, and after a sequence of calls.
  abbrev pub next_world : CacheCall server → World → World
  next_world (sets key value expire) w = (set server key value expire w).1
  next_world (sets_nx key value expire) w = (set_nx server key value expire w).1
  next_world (gets_key key) w = (get server key w).1
  next_world (dels key) w = (del server key w).1

  abbrev pub run_all : List (CacheCall server) → World → World
  run_all [] w = w
  run_all (call ∷ rest) w = run_all rest (next_world call w)

  -- `Get` changes the world as GET does, however it ends.
  pub get-world : (key : String) (w : World) → (get server key w).1 ≡ (server.get key w).1
  unfolding get
  get-world key w = elim (Result-split (server.get key w).0) [
    | inl (text, h) ↦ elim (Result-split (server.json_unmarshal text)) [
      | inl (value, h') ↦ ground arith
      | inr (e, h') ↦ ground arith
    ]
    | inr (e, h) ↦ ground arith
  ]
