-- ===== src/Redis/Cache/Events.antt =====
-- What the calls of redis/cache.go do to keys, and the texts that a key may then hold.
use go_cook.Shared.{
  ◌≡◌, sym, ◌∙◌, ◌⊎◌, inl, inr, String, Bool, true, false, Option, none, some, List, [], ◌∷◌, arith,
  Error, Result, ok, err, member, ◌==◌,
}

-- What a call does to the keys: it writes a text under a key, may have written it, or deletes a key.
pub data Event : Type 0 where
  wrote : String → String → Event
  tried : String → String → Event
  deleted : String → Event
  quiet : Event

-- A key that a command does not write stays, or has expired.
abbrev pub Stays : Option String → Option String → Type 0
Stays old new = (new ≡ old) ⊎ (new ≡ none)

-- What a key may hold after an event, from what it held before.
abbrev pub AtKey :
    Bool → (Option String → Option String → Type 0) → Option String → Option String → Type 0
AtKey true P old new = P old new
AtKey false P old new = Stays old new

abbrev pub Allows : Event → String → Option String → Option String → Type 0
Allows (wrote key text) j old new =
    AtKey (key == j) (λ _ new'. (new' ≡ some text) ⊎ (new' ≡ none)) old new
Allows (tried key text) j old new =
    AtKey (key == j) (λ old' new'. (new' ≡ some text) ⊎ Stays old' new') old new
Allows (deleted key) j old new = AtKey (key == j) (λ _ new'. new' ≡ none) old new
Allows quiet j old new = Stays old new

-- The texts that a key may hold after the events, of which the newest is first: the last one that is
-- certain, and those that may have been written since.
unfoldable pub possible : String → List Event → List String
possible j [] = []
possible j (wrote key text ∷ h) =
    let rest = possible j h in elim (key == j) [ true ↦ text ∷ [] | false ↦ rest ]
possible j (tried key text ∷ h) =
    let rest = possible j h in elim (key == j) [ true ↦ text ∷ rest | false ↦ rest ]
possible j (deleted key ∷ h) =
    let rest = possible j h in elim (key == j) [ true ↦ [] | false ↦ rest ]
possible j (quiet ∷ h) = possible j h

Stays-possible :
    (text : String) (old new : Option String) (l : List String)
    → Stays old new
    → ((t : String) → old ≡ some t → member t l ≡ true)
    → new ≡ some text
    → member text l ≡ true
Stays-possible text old new l (inl same) sound there = sound text (sym same ∙ there)
Stays-possible text old new l (inr gone) sound there = absurd (ground arith)

AtKey-possible :
    (b : Bool) (P : Option String → Option String → Type 0) (text : String)
    (old new : Option String) (l l' : List String)
    → AtKey b P old new
    → (P old new → member text l' ≡ true)
    → ((t : String) → old ≡ some t → member t l ≡ true)
    → new ≡ some text
    → member text (elim b [ true ↦ l' | false ↦ l ]) ≡ true
AtKey-possible true P text old new l l' h own sound there = own h
AtKey-possible false P text old new l l' h own sound there =
    Stays-possible text old new l h sound there

pub possible-Allows :
    (e : Event) (h : List Event) (j text : String) (old new : Option String)
    → Allows e j old new
    → ((t : String) → old ≡ some t → member t (possible j h) ≡ true)
    → new ≡ some text
    → member text (possible j (e ∷ h)) ≡ true
unfolding possible
possible-Allows (wrote key t) h j text old new allowed sound there =
    AtKey-possible (key == j) (λ _ new'. (new' ≡ some t) ⊎ (new' ≡ none)) text old new
      (possible j h) (t ∷ []) allowed
      (λ own. elim own [ inl e ↦ ground arith | inr e ↦ absurd (ground arith) ]) sound there
possible-Allows (tried key t) h j text old new allowed sound there =
    AtKey-possible (key == j) (λ old' new'. (new' ≡ some t) ⊎ Stays old' new') text old new
      (possible j h) (t ∷ possible j h) allowed
      (λ own. elim own [
        | inl e ↦ ground arith
        | inr stays ↦ ground (arith, Stays-possible text old new (possible j h) stays sound there)
      ])
      sound there
possible-Allows (deleted key) h j text old new allowed sound there =
    AtKey-possible (key == j) (λ _ new'. new' ≡ none) text old new (possible j h) [] allowed
      (λ e. absurd (ground arith)) sound there
possible-Allows quiet h j text old new allowed sound there =
    Stays-possible text old new (possible j h) allowed sound there

-- The event of a command that writes a text, by whether the server confirms it, and of DEL.
abbrev pub written : String → String → Option Error → Event
written key text none = wrote key text
written key text (some e) = tried key text

abbrev pub written_nx : String → String → Result Bool → Event
written_nx key text (ok true) = wrote key text
written_nx key text (ok false) = quiet
written_nx key text (err e) = tried key text

abbrev pub erased : String → Option Error → Event
erased key none = deleted key
erased key (some e) = quiet
