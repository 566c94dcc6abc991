-- ===== src/Tigris/Handler.antt =====
-- What `GetStorageManager` of tigris/storage_manager.go names.
use go_cook.Shared.{◌≡◌, refl, String, Option, none, some, List, [], ◌∷◌}
use go_cook.Tigris.{
  StorageManager, StorageHandler, name_of, set_storage_manager, get_storage_manager,
}

module _ (Tigris S3 : Type 0) where
  -- Managers set one after the other.
  abbrev pub set_all :
      List (StorageManager Tigris S3) → StorageHandler Tigris S3 → StorageHandler Tigris S3
  set_all [] h = h
  set_all (manager ∷ rest) h = set_all rest (set_storage_manager Tigris S3 manager h)

  -- The name of the last manager that has one, and the last manager.
  abbrev pub last_name : List (StorageManager Tigris S3) → String → String
  last_name [] old = old
  last_name (manager ∷ rest) old =
      last_name rest (elim (name_of Tigris S3 manager) [ none ↦ old | some name ↦ name ])

  abbrev pub last_manager :
      List (StorageManager Tigris S3)
      → Option (StorageManager Tigris S3)
      → Option (StorageManager Tigris S3)
  last_manager [] old = old
  last_manager (manager ∷ rest) old = last_manager rest (some manager)

  -- After any settings the manager is the last that was set, but the name is that of the last Tigris
  -- or S3 client: another implementation of the interface leaves the name as it was.
  pub set_all-last :
      (managers : List (StorageManager Tigris S3)) (h : StorageHandler Tigris S3)
      → (get_storage_manager Tigris S3 (set_all managers h)
          ≡ last_name managers h.current_storage_manager)
        × ((set_all managers h).storage_manager ≡ last_manager managers h.storage_manager)
  unfolding set_storage_manager
  set_all-last [] h = (refl, refl)
  set_all-last (manager ∷ rest) h = set_all-last rest (set_storage_manager Tigris S3 manager h)
