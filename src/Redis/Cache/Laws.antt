-- ===== src/Redis/Cache/Laws.antt =====
-- What `Get` of redis/cache.go returns after `Set`, with other calls between them.
use go_cook.Shared.{
  ◌≡◌, ℕ, zero, suc, ◌+◌, ◌*◌, ◌/◌, ◌≤◌, ltb, leb, if◌then◌else◌, refl, ◌⊎◌, inl, inr, String, Bool,
  true, false, Option, none, some, List, [], ◌∷◌, arith, Error, is_error, ok, err, Result-split,
  All, ◌==◌,
}
use go_cook.Shared.Int.{ℤ, pos}
use go_cook.Redis.Cache.{Server, set, get, del, set_nx}
use go_cook.Redis.Cache.Calls.{
  CacheCall, sets, sets_nx, gets_key, dels, next_world, run_all, get-world,
}

abbrev pub redis_nil : String
redis_nil = "redis.Nil"

-- The deadline of a key that is set at `t` for a time in nanoseconds: none for zero, and else the
-- time that go-redis sends, whole milliseconds and at least one.
abbrev pub deadline : ℕ → ℕ → Option ℕ
deadline t zero = none
deadline t (suc n) =
    let whole = suc n / 1000000 in some (t + (if leb whole 0 then 1 else whole) * 1000000)

-- A key with this deadline has not expired at `t`.
abbrev pub lives : Option ℕ → ℕ → Bool
lives none t = true
lives (some d) t = ltb t d

-- A server on which a key that SET has stored holds its text until its deadline, or SET or DEL of this
-- key, and which answers GET until then with the text or with an error that is not `redis.Nil`; its
-- clock, `now`, is read as it carries out the next command. And JSON that decodes what it has encoded
-- into the generic form of the value.
pub record Keeps (server : Server) (generic : server.Value → server.Value) : Type 0 where
  pub now : server.World → ℕ
  pub held : server.World → String → Option (String × Option ℕ)
  pub set_later :
      (key text : String) (expire : ℤ) (w : server.World)
      → now w ≤ now (server.set key text expire w).1
  pub set_nx_later :
      (key : String) (value : server.Value) (expire : ℤ) (w : server.World)
      → now w ≤ now (server.set_nx key value expire w).1
  pub del_later : (key : String) (w : server.World) → now w ≤ now (server.del key w).1
  pub get_later : (key : String) (w : server.World) → now w ≤ now (server.get key w).1
  pub stored :
      (key text : String) (n : ℕ) (w w' : server.World)
      → server.set key text (pos n) w ≡ (none, w')
      → held w' key ≡ some (text, deadline (now w) n)
  pub set_other :
      (key text : String) (expire : ℤ) (w : server.World) (j old : String) (d : Option ℕ)
      → (key == j) ≡ false
      → lives d (now w) ≡ true
      → held w j ≡ some (old, d)
      → held (server.set key text expire w).1 j ≡ some (old, d)
  pub set_nx_kept :
      (key : String) (value : server.Value) (expire : ℤ) (w : server.World) (j old : String)
      (d : Option ℕ)
      → lives d (now w) ≡ true
      → held w j ≡ some (old, d)
      → held (server.set_nx key value expire w).1 j ≡ some (old, d)
  pub del_other :
      (key : String) (w : server.World) (j old : String) (d : Option ℕ)
      → (key == j) ≡ false
      → lives d (now w) ≡ true
      → held w j ≡ some (old, d)
      → held (server.del key w).1 j ≡ some (old, d)
  pub get_kept :
      (key : String) (w : server.World) (j old : String) (d : Option ℕ)
      → lives d (now w) ≡ true
      → held w j ≡ some (old, d)
      → held (server.get key w).1 j ≡ some (old, d)
  pub found :
      (key text : String) (d : Option ℕ) (w : server.World)
      → lives d (now w) ≡ true
      → held w key ≡ some (text, d)
      → ((server.get key w).0 ≡ ok text)
        ⊎ ((e : Error) × ((server.get key w).0 ≡ err e) × (is_error e redis_nil ≡ false))
  pub decoded :
      (value : server.Value) (text : String)
      → server.json_marshal value ≡ ok text
      → server.json_unmarshal text ≡ ok (generic value)

-- The calls that may change what a key holds: `Set` and `Del` of it. `SetNX` does not replace.
abbrev pub replaces : {server : Server} → CacheCall server → String → Bool
replaces (sets key _ _) j = key == j
replaces (sets_nx _ _ _) j = false
replaces (gets_key _) j = false
replaces (dels key) j = key == j

module _ (server : Server) (generic : server.Value → server.Value)
    (keeps : Keeps server generic) where
  open server use {World, Value}
  open keeps use {now, held}

  lives-earlier : (d : Option ℕ) (t t' : ℕ) → t ≤ t' → lives d t' ≡ true → lives d t ≡ true
  lives-earlier none t t' h l = refl
  lives-earlier (some e) t t' h l = ground arith

  next_world-later : (call : CacheCall server) (w : World) → now w ≤ now (next_world server call w)
  unfolding set set_nx del
  next_world-later (sets key value expire) w = elim (Result-split (server.json_marshal value)) [
    | inl (fresh, h) ↦ ground (arith, keeps.set_later key fresh expire w)
    | inr (e, h) ↦ ground arith
  ]
  next_world-later (sets_nx key value expire) w = keeps.set_nx_later key value expire w
  next_world-later (gets_key key) w = rw (get-world server key w) (keeps.get_later key w)
  next_world-later (dels key) w = ground (arith, keeps.del_later key w)

  run_all-later :
      (calls : List (CacheCall server)) (w : World) → now w ≤ now (run_all server calls w)
  run_all-later [] w = omega arith
  run_all-later (call ∷ rest) w =
      omega (arith, next_world-later call w, run_all-later rest (next_world server call w))

  call-held :
      (call : CacheCall server) (w : World) (j text : String) (d : Option ℕ)
      → replaces call j ≡ false
      → lives d (now w) ≡ true
      → held w j ≡ some (text, d)
      → held (next_world server call w) j ≡ some (text, d)
  unfolding set set_nx get del
  call-held (sets key value expire) w j text d other alive there =
      elim (Result-split (server.json_marshal value)) [
        | inl (fresh, h) ↦ ground (arith, keeps.set_other key fresh expire w j text d)
        | inr (e, h) ↦ ground arith
      ]
  call-held (sets_nx key value expire) w j text d other alive there =
      keeps.set_nx_kept key value expire w j text d alive there
  call-held (gets_key key) w j text d other alive there =
      rw (get-world server key w) (keeps.get_kept key w j text d alive there)
  call-held (dels key) w j text d other alive there = ground (arith, keeps.del_other key w j text d)

  -- A deadline that has not passed after the calls had not passed during them.
  run_all-held :
      (calls : List (CacheCall server)) (w : World) (j text : String) (d : Option ℕ)
      → All (λ call. replaces call j ≡ false) calls
      → lives d (now (run_all server calls w)) ≡ true
      → held w j ≡ some (text, d)
      → held (run_all server calls w) j ≡ some (text, d)
  run_all-held [] w j text d other alive there = there
  run_all-held (call ∷ rest) w j text d other alive there =
      run_all-held rest (next_world server call w) j text d other.1 alive (
        call-held call w j text d other.0
          (lives-earlier d (now w) (now (run_all server (call ∷ rest) w))
            (run_all-later (call ∷ rest) w) alive)
          there)

  pub get-set :
      (key : String) (value : Value) (expire : ℕ) (w w' : World) (calls : List (CacheCall server))
      → set server key value (pos expire) w ≡ (ok true, w')
      → All (λ call. replaces call key ≡ false) calls
      → lives (deadline (now w) expire) (now (run_all server calls w')) ≡ true
      → let answer = (get server key (run_all server calls w')).0 in
        (answer ≡ ok (generic value))
        ⊎ ((e : Error) × (answer ≡ err e) × (is_error e redis_nil ≡ false))
  unfolding set get
  get-set key value expire w w' calls done other alive =
      let d = deadline (now w) expire in
      elim (Result-split (server.json_marshal value)) [
        | inl (text, h) ↦
            let v = run_all server calls w' in
            let confirmed : server.set key text (pos expire) w ≡ (none, w') = ground arith in
            let there : held v key ≡ some (text, d) =
              run_all-held calls w' key text d other alive
                (keeps.stored key text expire w w' confirmed) in
            elim (keeps.found key text d v alive there) [
              | inl answered ↦ inl (ground (arith, keeps.decoded value text h))
              | inr (e, failed, known) ↦ inr (e, ground arith, known)
            ]
        | inr (e, h) ↦ absurd (ground arith)
      ]
