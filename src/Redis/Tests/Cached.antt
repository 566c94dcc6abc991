-- ===== src/Redis/Tests/Cached.antt =====
-- The cache of redis/cache.go on servers that keep keys.
use go_cook.Shared.{
  ℕ, suc, ◌≤◌, sentinel, Bool, if◌then◌else◌, ◌≡◌, refl, String, true, false, Option, none, some,
  List, [], ◌∷◌, arith, inl, inr, ◌⊎◌, member, ◌==◌, String-discrete, Result, ok, err,
}
use go_cook.Shared.Int.{ℤ, pos, negsuc}
use go_cook.Shared.Dict.{Dict, lookup, insert, lookup-insert}
use go_cook.Redis.Cache.{Server, set, set_nx, get, del}
use go_cook.Redis.Cache.Events.{possible, AtKey}
use go_cook.Redis.Cache.History.{KeyStore, run, get-possible}
use go_cook.Redis.Cache.Calls.{CacheCall, sets, sets_nx, gets_key, dels}
use go_cook.Redis.Cache.Laws.{redis_nil, deadline, lives, Keeps}

abbrev or_nil : Option String → Result String
or_nil none = err (sentinel redis_nil)
or_nil (some text) = ok text

remove : {A : Type 0} → String → Dict A → Dict A
remove key [] = []
remove key ((j, text) ∷ d) = let rest = remove key d in if j == key then rest else (j, text) ∷ rest

lookup-remove :
    {A : Type 0}
    → (key j : String) (d : Dict A) → (key == j) ≡ false
    → lookup j (remove key d) ≡ lookup j d
unfolding lookup remove
lookup-remove key j [] other = refl
lookup-remove key j ((i, text) ∷ d) other = ground (arith, lookup-remove key j d other)

-- What a key holds, while it lives.
alive_at : ℕ → Option (String × Option ℕ) → Option String
alive_at t none = none
alive_at t (some (text, d)) = if lives d t then some text else none

abbrev Shelf : Type 0
Shelf = ℕ × Dict (String × Option ℕ)

-- The expiry of a SET, which has none where it is negative.
abbrev set_until : ℕ → ℤ → Option ℕ
set_until t (pos n) = deadline t n
set_until t (negsuc n) = none

insert_new : String → String → ℤ → Shelf → Option String → Result Bool × Shelf
insert_new key text expire (t, d) none = (ok true, (suc t, insert key (text, set_until t expire) d))
insert_new key text expire (t, d) (some _) = (ok false, (suc t, d))

insert_new-kept :
    (key fresh : String) (expire : ℤ) (t : ℕ) (j old : String) (e : Option ℕ)
    (d : Dict (String × Option ℕ))
    → lives e t ≡ true
    → lookup j d ≡ some (old, e)
    → lookup j (insert_new key fresh expire (t, d) (alive_at t (lookup key d))).1.1 ≡ some (old, e)
unfolding insert_new alive_at
insert_new-kept key fresh expire t j old e d alive there =
    ground (arith, lookup-insert key j (fresh, set_until t expire) d)

insert_new-later :
    (key fresh : String) (expire : ℤ) (w : Shelf) (x : Option String)
    → w.0 ≤ (insert_new key fresh expire w x).1.0
unfolding insert_new
insert_new-later key fresh expire (t, d) none = omega arith
insert_new-later key fresh expire (t, d) (some _) = omega arith

-- A server whose clock ticks with every command, on which keys expire; a value is its own JSON text.
abbrev keeper : Server
keeper = record {
  World = Shelf;
  Value = String;
  Location = String;
  Query = String;
  json_marshal = λ v. ok v;
  json_unmarshal = λ text. ok text;
  set = λ key text expire w. (none, (suc w.0, insert key (text, set_until w.0 expire) w.1));
  get = λ key w. (or_nil (alive_at w.0 (lookup key w.1)), (suc w.0, w.1));
  del = λ key w. (none, (suc w.0, remove key w.1));
  set_nx = λ key v expire w. insert_new key v expire w (alive_at w.0 (lookup key w.1));
  geo_add = λ key l w. (none, w);
  geo_radius = λ key member q w. (ok [], w);
  publish = λ channel v w. (none, w);
}

alive_at-found :
    (text : String) (d : Option ℕ) (t : ℕ) (x : Option (String × Option ℕ))
    → lives d t ≡ true
    → x ≡ some (text, d)
    → or_nil (alive_at t x) ≡ ok text
unfolding alive_at
alive_at-found text d t none alive h = absurd (ground arith)
alive_at-found text d t (some (text', d')) alive h = ground arith

abbrev keeper-Keeps : Keeps keeper (λ v. v)
keeper-Keeps = record {
  now = λ w. w.0;
  held = λ w j. lookup j w.1;
  set_later = λ key text expire w. omega arith;
  set_nx_later = λ key v expire w. insert_new-later key v expire w (alive_at w.0 (lookup key w.1));
  del_later = λ key w. omega arith;
  get_later = λ key w. omega arith;
  stored = λ key text n w w' h. ground (arith, lookup-insert key key (text, deadline w.0 n) w.1);
  set_other = λ key text expire w j old d other alive there.
      ground (arith, lookup-insert key j (text, set_until w.0 expire) w.1);
  set_nx_kept = λ key v expire w j old d alive there.
      insert_new-kept key v expire w.0 j old d w.1 alive there;
  del_other = λ key w j old d other alive there. ground (arith, lookup-remove key j w.1);
  get_kept = λ key w j old d alive there. there;
  found = λ key text d w alive there. inl (alive_at-found text d w.0 (lookup key w.1) alive there);
  decoded = λ v text h. ground arith;
}

abbrev later : List (CacheCall keeper)
later =
    sets "user:2" "bob" (pos 60)
    ∷ sets_nx "user:1" "eve" (pos 0)
    ∷ gets_key "user:1"
    ∷ dels "user:2"
    ∷ []

abbrev ada_shelf : Shelf
ada_shelf = (1, ("user:1", ("ada", some 2000000)) ∷ [])

-- A server with room for one key.
abbrev slot_at : String → Option (String × String) → Option String
slot_at j none = none
slot_at j (some (key, text)) = elim (key == j) [ true ↦ some text | false ↦ none ]

abbrev slot : Server
slot = record {
  World = Option (String × String);
  Value = String;
  Location = String;
  Query = String;
  json_marshal = λ v. ok v;
  json_unmarshal = λ text. ok text;
  set = λ key text expire w. (none, some (key, text));
  get = λ key w. (or_nil (slot_at key w), w);
  del = λ key w. (none, none);
  set_nx = λ key v expire w. (ok false, w);
  geo_add = λ key l w. (none, w);
  geo_radius = λ key member q w. (ok [], w);
  publish = λ channel v w. (none, w);
}

slot_found : (text : String) (x : Option String) → or_nil x ≡ ok text → x ≡ some text
slot_found text none h = absurd (ground arith)
slot_found text (some t) h = ground arith

abbrev slot-KeyStore : KeyStore slot
slot-KeyStore = record {
  held = λ w j. slot_at j w;
  plain = λ v. v;
  set-Allows = λ key text expire w j.
      elim (key == j)
        as (λ b.
          AtKey b (λ _ new'. (new' ≡ some text) ⊎ (new' ≡ none)) (slot_at j w)
            (elim b as (λ _. Option String) [ true ↦ some text | false ↦ none ])) [
              | true ↦ inl refl
              | false ↦ inr refl
            ];
  set_nx-Allows = λ key value expire w j. inl refl;
  del-Allows = λ key w j.
      elim (key == j) as (λ b. AtKey b (λ _ new'. new' ≡ none) (slot_at j w) none) [
        | true ↦ refl
        | false ↦ inr refl
      ];
  get-Allows = λ key w j. inl refl;
  found = λ key text w h. slot_found text (slot_at key w) h;
}

abbrev three_calls : List (CacheCall slot)
three_calls = sets "user:2" "bob" (pos 0) ∷ sets "user:1" "ada" (pos 60) ∷ gets_key "user:1" ∷ []

get-possible_example :
    (text : String) × (member text
        (possible "user:1" (run slot slot-KeyStore three_calls none []).1)
      ≡ true)
    × (slot.json_unmarshal text ≡ ok "ada")
unfolding set get String-discrete
get-possible_example =
    get-possible slot slot-KeyStore three_calls none "user:1" "ada" (λ j. refl) refl
