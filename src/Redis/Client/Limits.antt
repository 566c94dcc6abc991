-- ===== src/Redis/Client/Limits.antt =====
-- For which client the limiters of redis/redis.go count.
use mathlib.Core.Path.{subst}
use go_cook.Shared.{
  ◌≡◌, refl, ap, ◌⊎◌, inl, inr, String, Option, none, some, arith, Error, ok, err, Result-split,
  List, [], ◌∷◌,
}
use go_cook.Shared.Int.{ℤ}
use go_cook.Redis.Options.{RedisConfig, client_options}
use go_cook.Redis.Client.{
  Library, Package, RedisClient, new_client, allow, rate_limiter, client_rate_limiter,
}

module _ (lib : Library) where
  open lib use {World, Tls, Client}

  -- Clients made one after the other, where a failure makes none: the last that was made, and the
  -- package after that.
  abbrev pub connect_all :
      List (Option (RedisConfig Tls))
      → Option (RedisClient lib)
      → Package lib
      → Option (RedisClient lib) × Package lib
  connect_all [] last p = (last, p)
  connect_all (given ∷ rest) last p =
      let (made, q) = new_client lib given p in
      elim made [ ok c ↦ connect_all rest (some c) q | err e ↦ connect_all rest last q ]

  -- The package's limiter is that of a client, if any was made.
  abbrev pub Speaks : Option (RedisClient lib) → Package lib → Type 0
  Speaks none p = p.limiter ≡ none
  Speaks (some c) p = p.limiter ≡ c.limiter

  new_client-Speaks :
      (given : Option (RedisConfig Tls)) (p : Package lib)
      → ((c : RedisClient lib) × ((new_client lib given p).0 ≡ ok c)
          × Speaks (some c) (new_client lib given p).1)
        ⊎ ((e : Error) × (new_client lib given p ≡ (err e, p)))
  unfolding new_client
  new_client-Speaks none p = inr (_, refl)
  new_client-Speaks (some cfg) p = elim (Result-split (client_options cfg)) [
    | inl (o, h) ↦
        let made = (lib.new_client o p.world).0 in
        inl (record { client = made; limiter = some made }, ground arith, ground arith)
    | inr (e, h) ↦ inr (e, ground arith)
  ]

  connect_all-Speaks :
      (given : List (Option (RedisConfig Tls))) (last : Option (RedisClient lib)) (p : Package lib)
      → Speaks last p
      → Speaks (connect_all given last p).0 (connect_all given last p).1
  connect_all-Speaks [] last p h = h
  connect_all-Speaks (given ∷ rest) last p h = elim (new_client-Speaks given p) [
    | inl (c, e, s) ↦ ground (arith, connect_all-Speaks rest (some c) (new_client lib given p).1 s)
    | inr (e, q) ↦ ground (arith, connect_all-Speaks rest last p h)
  ]

  -- In a process whose package has no limiter at first, whatever clients it makes, the package's
  -- `RateLimiter` counts as that of the client that was made last: configurations that are refused
  -- leave it as it was.
  pub rate_limiter-connect_all :
      (given : List (Option (RedisConfig Tls))) (start p : Package lib) (c : RedisClient lib)
      (rate : ℤ) (address : Option String)
      → start.limiter ≡ none
      → connect_all given none start ≡ (some c, p)
      → rate_limiter lib rate address p ≡ client_rate_limiter lib rate address c p
  unfolding rate_limiter client_rate_limiter
  rate_limiter-connect_all given start p c rate address h e =
      let same : p.limiter ≡ c.limiter =
        subst (λ y. Speaks y.0 y.1) e (connect_all-Speaks given none start h) in
      ap (λ limiter. allow lib rate address limiter p) same
