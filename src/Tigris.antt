-- ===== src/Tigris.antt =====
-- The package tigris: object storage by Tigris or S3.
pub mod Handler
pub mod Objects
pub mod Tests
use go_cook.Shared.{
  ◌≡◌, ◌⊎◌, String, Option, none, some, List, [], ◌∷◌, Error, Result, ok, err, Action, pure, Call,
  panics, returns, to_result, ◌>>=◌, ◌>>◌,
}
use go_cook.Shared.Format.{sprintf, str}

-- `StorageManagerConfig`
pub record StorageManagerConfig : Type 0 where
  pub access_key_id : String
  pub secret_access_key : String
  pub endpoint_url : String
  pub region : String

-- What a client calls of the SDK of Tigris, or of S3: each client has an SDK of its own. A body that
-- breaks off is read as far as it goes.
pub record Storage : Type 1 where
  pub World : Type 0
  pub Client : Type 0
  pub Body : Type 0
  pub Object : Type 0
  pub create_client : StorageManagerConfig → World → Result Client × World
  pub create_bucket : Client → String → World → Option Error × World
  pub put_object : Client → String → String → String → World → Option Error × World
  pub get_object : Client → String → String → World → Result Body × World
  pub read_all : Body → World → (String × Option Error) × World
  pub list_objects : Client → String → World → Result (List Object) × World

-- `*tigrisClient` and `*s3Client`, each with the client of its SDK, or another implementation of
-- `StorageManager`
pub data StorageManager (Tigris S3 : Type 0) : Type 0 where
  tigris_client : StorageManagerConfig → Tigris → StorageManager Tigris S3
  s3_client : StorageManagerConfig → S3 → StorageManager Tigris S3
  another : StorageManager Tigris S3

-- `PutObject`, which both uploads begin with
abbrev pub put :
    (storage : Storage)
    → storage.Client
    → String
    → String
    → String
    → Action storage.World (Unit {0})
put storage client bucket key file world =
    let (e, world') = storage.put_object client bucket key file world in (to_result e, world')

-- `tigrisClient` over the Tigris SDK
module _ (tigris : Storage) where
  open tigris use {World, Client, Object}

  -- `NewTigrisClient`
  pub new_tigris_client :
      {S3 : Type 0} → StorageManagerConfig → Action World (StorageManager Client S3)
  new_tigris_client config = do
    client ← tigris.create_client config
    pure (tigris_client config client)

  -- `CreateBucket`
  unfoldable pub tigris_create_bucket : Client → String → Action World (Unit {0})
  tigris_create_bucket client bucket world =
      let (e, world') = tigris.create_bucket client bucket world in (to_result e, world')

  -- `CreateForkBucket`
  abbrev pub tigris_create_fork_bucket : String → String → World → Call (Result (Unit {0}) × World)
  tigris_create_fork_bucket bucket fork world = panics

  -- `UploadObject`
  unfoldable pub tigris_upload_object : Client → String → String → String → Action World String
  tigris_upload_object client bucket key file = do
    put tigris client bucket key file
    pure (sprintf "https://%s.fly.storage.tigris.dev/%s" (str bucket ∷ str key ∷ []))

  -- `DownloadObject`: the error of reading the body is dropped
  unfoldable pub tigris_download_object : Client → String → String → Action World String
  tigris_download_object client bucket name = do
    body ← tigris.get_object client bucket name
    read ← (λ world. let (x, world') = tigris.read_all body world in (ok x, world'))
    pure read.0

  -- `ListObject`
  unfoldable pub tigris_list_object : Client → String → Action World (List Object)
  tigris_list_object client bucket = tigris.list_objects client bucket

-- `s3Client` over the SDK of S3
module _ (s3 : Storage) where
  open s3 use {World, Client, Object}

  -- `NewS3Client`
  pub new_s3_client :
      {Tigris : Type 0} → StorageManagerConfig → Action World (StorageManager Tigris Client)
  new_s3_client config = do client ← s3.create_client config; pure (s3_client config client)

  -- `CreateBucket`
  unfoldable pub s3_create_bucket : Client → String → Action World (Unit {0})
  s3_create_bucket client bucket world =
      let (e, world') = s3.create_bucket client bucket world in (to_result e, world')

  -- `CreateForkBucket`, which does nothing
  abbrev pub s3_create_fork_bucket : String → String → World → Call (Result (Unit {0}) × World)
  s3_create_fork_bucket bucket fork world = returns (ok tt, world)

  -- `UploadObject`, in a region
  unfoldable pub s3_upload_object : String → Client → String → String → String → Action World String
  s3_upload_object region client bucket key file = do
    put s3 client bucket key file
    pure (sprintf "https://%s.s3.%s.amazonaws.com/%s" (str bucket ∷ str region ∷ str key ∷ []))

  -- `DownloadObject`: the error of reading the body is dropped
  unfoldable pub s3_download_object : Client → String → String → Action World String
  s3_download_object client bucket name = do
    body ← s3.get_object client bucket name
    read ← (λ world. let (x, world') = s3.read_all body world in (ok x, world'))
    pure read.0

  -- `ListObject`
  unfoldable pub s3_list_object : Client → String → Action World (List Object)
  s3_list_object client bucket = s3.list_objects client bucket

module _ (Tigris S3 : Type 0) where
  -- `StorageHandler`
  pub record StorageHandler : Type 0 where
    pub config : StorageManagerConfig
    pub storage_manager : Option (StorageManager Tigris S3)
    pub current_storage_manager : String

  -- `InitStorageHandler`
  abbrev pub init_storage_handler : StorageManagerConfig → StorageHandler
  init_storage_handler config = record {
    config = config;
    storage_manager = none;
    current_storage_manager = "";
  }

  -- The name that a manager goes by, if it is one of the two.
  abbrev pub name_of : StorageManager Tigris S3 → Option String
  name_of (tigris_client _ _) = some "TIGRIS"
  name_of (s3_client _ _) = some "S3"
  name_of another = none

  -- `SetStorageManager`
  unfoldable pub set_storage_manager : StorageManager Tigris S3 → StorageHandler → StorageHandler
  set_storage_manager manager h = record h {
    storage_manager = some manager;
    current_storage_manager = elim (name_of manager) [
      | none ↦ h.current_storage_manager
      | some name ↦ name
    ];
  }

  -- `GetStorageManager`
  abbrev pub get_storage_manager : StorageHandler → String
  get_storage_manager h = h.current_storage_manager
