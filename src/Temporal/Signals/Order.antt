-- ===== src/Temporal/Signals/Order.antt =====
-- Signals by name, in the order in which the loops of temporal/signals.go receive them.
use go_cook.Shared.{◌≡◌, String, List, [], ◌∷◌, ◌++◌, arith, if◌then◌else◌, ◌==◌}

-- A map of lists with one of them changed.
abbrev pub put_at : {V : Type 0} → String → List V → (String → List V) → String → List V
put_at name l f k = if name == k then l else f k

module _ {L V : Type 0} (name_of : L → String) where
  -- The signals of one name.
  unfoldable pub signals_of : String → List (L × V) → List V
  signals_of name [] = []
  signals_of name ((l, v) ∷ rest) =
      let more = signals_of name rest in if name_of l == name then v ∷ more else more

  pub signals_of-append :
      (name : String) (early : List (L × V)) (l : L) (v : V)
      → signals_of name (early ++ (l, v) ∷ [])
        ≡ signals_of name early ++ (if name_of l == name then v ∷ [] else [])
  unfolding signals_of
  signals_of-append name [] l v = ground arith
  signals_of-append name ((m, u) ∷ early) l v = ground (arith, signals_of-append name early l v)
