-- ===== src/Redis/Cache/History.antt =====
-- What `Get` of redis/cache.go can return after any calls of `Set`, `SetNX`, `Get` and `Del`.
use go_cook.Shared.{
  ◌≡◌, refl, inl, inr, String, Bool, true, Option, none, some, List, [], ◌∷◌, arith, Error, Result,
  ok, err, Result-split, member, to_result,
}
use go_cook.Shared.Int.{ℤ}
use go_cook.Redis.Cache.{Server, command, set, get, del, set_nx}
use go_cook.Redis.Cache.Calls.{CacheCall, sets, sets_nx, gets_key, dels, next_world, get-world}
use go_cook.Redis.Cache.Events.{
  Event, wrote, tried, deleted, quiet, Allows, possible, possible-Allows, written, written_nx,
  erased,
}

-- A server that keeps texts under keys, which may expire at any time: what a key holds, and the text
-- that go-redis writes for a value that is not encoded.
pub record KeyStore (server : Server) : Type 0 where
  pub held : server.World → String → Option String
  pub plain : server.Value → String
  pub set-Allows :
      (key text : String) (expire : ℤ) (w : server.World) (j : String)
      → let x = server.set key text expire w in
        Allows (written key text x.0) j (held w j) (held x.1 j)
  pub set_nx-Allows :
      (key : String) (value : server.Value) (expire : ℤ) (w : server.World) (j : String)
      → let x = server.set_nx key value expire w in
        Allows (written_nx key (plain value) x.0) j (held w j) (held x.1 j)
  pub del-Allows :
      (key : String) (w : server.World) (j : String)
      → let x = server.del key w in Allows (erased key x.0) j (held w j) (held x.1 j)
  pub get-Allows :
      (key : String) (w : server.World) (j : String)
      → Allows quiet j (held w j) (held (server.get key w).1 j)
  pub found :
      (key text : String) (w : server.World)
      → (server.get key w).0 ≡ ok text
      → held w key ≡ some text

module _ (server : Server) (store : KeyStore server) where
  open server use {World, Value}
  open store use {held, plain}

  -- The event of `Set`: none where the value has no encoding.
  abbrev encoded : String → Result String → Result Bool → Event
  encoded key (ok text) (ok _) = wrote key text
  encoded key (ok text) (err e) = tried key text
  encoded key (err e) x = quiet

  abbrev cleared : String → Result (Unit {0}) → Event
  cleared key (ok _) = deleted key
  cleared key (err e) = quiet

  -- The event of a call, by what the cache returns.
  abbrev pub event : CacheCall server → World → Event
  event (sets key value expire) w =
      encoded key (server.json_marshal value) (set server key value expire w).0
  event (sets_nx key value expire) w =
      written_nx key (plain value) (set_nx server key value expire w).0
  event (gets_key key) w = quiet
  event (dels key) w = cleared key (del server key w).0

  confirmed-Allows :
      (key text j : String) (w : World) (y : Option Error × World)
      → Allows (written key text y.0) j (held w j) (held y.1 j)
      → Allows
          (encoded key (ok text) (command server (λ _. y) w).0)
          j
          (held w j)
          (held (command server (λ _. y) w).1 j)
  confirmed-Allows key text j w (none, w') h = h
  confirmed-Allows key text j w (some e, w') h = h

  cleared-Allows :
      (key j : String) (w : World) (y : Option Error × World)
      → Allows (erased key y.0) j (held w j) (held y.1 j)
      → Allows (cleared key (to_result y.0)) j (held w j) (held y.1 j)
  cleared-Allows key j w (none, w') h = h
  cleared-Allows key j w (some e, w') h = h

  event-Allows :
      (call : CacheCall server) (w : World) (j : String)
      → Allows (event call w) j (held w j) (held (next_world server call w) j)
  unfolding set set_nx get del
  event-Allows (sets key value expire) w j = elim (Result-split (server.json_marshal value)) [
    | inl (text, h) ↦ rw h (
        confirmed-Allows key text j w (server.set key text expire w)
          (store.set-Allows key text expire w j))
    | inr (e, h) ↦ rw h (inl refl)
  ]
  event-Allows (sets_nx key value expire) w j = store.set_nx-Allows key value expire w j
  event-Allows (gets_key key) w j = rw (get-world server key w) (store.get-Allows key w j)
  event-Allows (dels key) w j = cleared-Allows key j w (server.del key w) (store.del-Allows key w j)

  get-found :
      (key : String) (w : World) (value : Value)
      → (get server key w).0 ≡ ok value
      → (text : String) × (held w key ≡ some text) × (server.json_unmarshal text ≡ ok value)
  unfolding get
  get-found key w value answered = elim (Result-split (server.get key w).0) [
    | inl (text, h) ↦ elim (Result-split (server.json_unmarshal text)) [
      | inl (value', h') ↦ (text, store.found key text w h, ground arith)
      | inr (e, h') ↦ absurd (ground arith)
    ]
    | inr (e, h) ↦ absurd (ground arith)
  ]

  -- Every text that a key holds is a possible one.
  abbrev IsSound : World → List Event → Type 0
  IsSound w h = (j text : String) → held w j ≡ some text → member text (possible j h) ≡ true

  event-IsSound :
      (e : Event) (h : List Event) (w w' : World)
      → ((j : String) → Allows e j (held w j) (held w' j))
      → IsSound w h
      → IsSound w' (e ∷ h)
  event-IsSound e h w w' allowed sound j text there =
      possible-Allows e h j text (held w j) (held w' j) (allowed j) (sound j) there

  -- The world and the events after a sequence of calls.
  abbrev pub run : List (CacheCall server) → World → List Event → World × List Event
  run [] w h = (w, h)
  run (call ∷ rest) w h = run rest (next_world server call w) (event call w ∷ h)

  run-IsSound :
      (calls : List (CacheCall server)) (w : World) (h : List Event)
      → IsSound w h
      → IsSound (run calls w h).0 (run calls w h).1
  run-IsSound [] w h sound = sound
  run-IsSound (call ∷ rest) w h sound =
      run-IsSound rest (next_world server call w) (event call w ∷ h)
        (event-IsSound (event call w) h w (next_world server call w) (event-Allows call w) sound)

  -- After any calls of `Set`, `SetNX`, `Get` and `Del` on a server without keys at first, a value that
  -- `Get` returns is decoded from a text that the last confirmed call wrote under this key, or that a
  -- failed call since then may have written: never from one that a confirmed call has replaced or
  -- deleted, and never from one of another key.
  pub get-possible :
      (calls : List (CacheCall server)) (w : World) (key : String) (value : Value)
      → ((j : String) → held w j ≡ none)
      → (get server key (run calls w []).0).0 ≡ ok value
      → (text : String) × (member text (possible key (run calls w []).1) ≡ true)
        × (server.json_unmarshal text ≡ ok value)
  get-possible calls w key value empty answered =
      let (text, there, decoded) = get-found key (run calls w []).0 value answered in
      (
        text,
        run-IsSound calls w [] (λ j t h. absurd (ground (arith, empty j))) key text there,
        decoded,
      )
