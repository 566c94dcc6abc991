-- ===== src/Tigris/Objects.antt =====
-- What `DownloadObject` of tigris/tigris.go and tigris/s3.go returns after `UploadObject`.
use go_cook.Shared.{◌≡◌, ◌⊎◌, String, Option, none, some, ◌<>◌, Error, Result, ok, err, Action}
use go_cook.Tigris.{
  Storage, tigris_upload_object, s3_upload_object, tigris_download_object, s3_download_object,
}

-- A storage that holds the objects it has confirmed, answers a request for one with an error or with a
-- body of its content, and whose bodies are read to their end, or to an error before it.
pub record ObjectStore (storage : Storage) : Type 0 where
  pub held : storage.World → String → String → Option String
  pub content : storage.Body → String
  pub stored :
      (client : storage.Client) (bucket key file : String) (w w' : storage.World)
      → storage.put_object client bucket key file w ≡ (none, w')
      → held w' bucket key ≡ some file
  pub served :
      (client : storage.Client) (bucket key file : String) (w v : storage.World)
      (body : storage.Body)
      → held w bucket key ≡ some file
      → storage.get_object client bucket key w ≡ (ok body, v)
      → content body ≡ file
  pub read :
      (body : storage.Body) (v : storage.World)
      → (rest : String) × (content body ≡ (storage.read_all body v).0.0 <> rest)
        × ((rest ≡ "") ⊎ ((e : Error) × ((storage.read_all body v).0.1 ≡ some e)))

-- The two clients.
pub data Backend : Type 0 where
  tigris s3 : Backend

-- Each client over an SDK of its own; the region is that of S3.
module _ (sdk : Backend → Storage) where
  -- `UploadObject` and `DownloadObject` of a client, as `StorageManager` calls them
  abbrev pub upload :
      (b : Backend)
      → String
      → (sdk b).Client
      → String
      → String
      → String
      → Action (sdk b).World String
  upload tigris region client bucket key file =
      tigris_upload_object (sdk tigris) client bucket key file
  upload s3 region client bucket key file = s3_upload_object (sdk s3) region client bucket key file

  abbrev pub download :
      (b : Backend) → (sdk b).Client → String → String → Action (sdk b).World String
  download tigris client bucket key = tigris_download_object (sdk tigris) client bucket key
  download s3 client bucket key = s3_download_object (sdk s3) client bucket key

  -- What a download makes of the answer to its request: its error; or a text without an error, which
  -- is the file, or the part of it before an error of the body.
  abbrev pub Serves :
      (b : Backend)
      → String
      → Result (sdk b).Body × (sdk b).World
      → Result String × (sdk b).World
      → Type 0
  Serves b file (err e, v) y = y ≡ (err e, v)
  Serves b file (ok body, v) y =
      (text : String) × (rest : String) × (y ≡ (ok text, ((sdk b).read_all body v).1))
      × (file ≡ text <> rest)
      × ((rest ≡ "") ⊎ ((e : Error) × (((sdk b).read_all body v).0.1 ≡ some e)))
