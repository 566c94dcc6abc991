-- ===== src/Elasticsearch.antt =====
-- elasticsearch/elasticsearch.go: indices and documents.
pub mod Bulk
pub mod Schema
pub mod Tests
use mathlib.Core.Quot
use go_cook.Shared.{
  String, Bool, true, false, Option, none, some, List, [], ◌∷◌, ◌++◌, if◌then◌else◌, ◌==◌, ◌<>◌,
  Error, new, Result, ok, err, Action, pure, fail, to_result, ◌>>=◌, ◌>>◌, from_result,
}
use go_cook.Shared.Int.{ℤ, pos}
use go_cook.Shared.Dict.{Dict, insert}
use go_cook.Shared.GoMap.{GoMap}
use go_cook.Shared.Format.{quote}

-- The properties of `valueTypeMapping`.
pub data Property : Type 0 where
  integer_number boolean date float_number byte_number : Property

-- The typed client of go-elasticsearch, whose mapping of an index is a Go map, and JSON; `Value` is `interface{}`. `index` says whether there
-- is a response, `get_found` whether the document was found.
pub record Cluster : Type 1 where
  pub World : Type 0
  pub Value : Type 0
  pub Request : Type 0
  pub Response : Type 0
  pub json_marshal : Value → Result String
  pub create : String → GoMap Property → World → Option Error × World
  pub delete : String → World → Option Error × World
  pub exists : String → World → Result Bool × World
  pub index : String → String → World → Result Bool × World
  pub get_found : String → String → World → Result Bool × World
  pub update : String → String → String → World → Option Error × World
  pub delete_document : String → String → World → Option Error × World
  pub search : String → Request → World → Result Response × World

-- `valueTypeMapping`
unfoldable pub property_of : String → Option Property
property_of field_type =
    if field_type == "integer"
    then some integer_number
    else if field_type == "boolean"
    then some boolean
    else if field_type == "date"
    then some date
    else if field_type == "float"
    then some float_number
    else if field_type == "byte"
    then some byte_number
    else none

-- The loop of `CreateIndex`, in one order of the schema.
unfoldable pub type_mapping : Dict String → Dict Property → Result (Dict Property)
type_mapping [] mapping = ok mapping
type_mapping ((field, field_type) ∷ rest) mapping = elim (property_of field_type) [
  | none ↦ err (new ("unsupported field type " <> quote field_type <> " for field " <> quote field))
  | some property ↦ type_mapping rest (insert field property mapping)
]

module _ (cluster : Cluster) where
  open cluster use {World, Value, Request, Response}

  abbrev call : (World → Option Error × World) → Action World (Unit {0})
  call f world = let (e, world') = f world in (to_result e, world')

  -- `CreateIndex`
  unfoldable pub create_index : String → Dict String → Action World (Unit {0})
  create_index name schema = do
    mapping ← from_result (type_mapping schema [])
    call (cluster.create name (Quot.mk mapping))

  -- `DeleteIndex`
  pub delete_index : String → Action World (Unit {0})
  delete_index name = call (cluster.delete name)

  -- `IndexExists`
  pub index_exists : String → Action World Bool
  index_exists name = cluster.exists name

  -- `InsertDocument`
  unfoldable pub insert_document : String → Value → Action World Bool
  insert_document name document = do
    encoded ← from_result (cluster.json_marshal document)
    cluster.index name encoded

  -- `GetDocument`: no branch returns the document
  pub get_document : String → String → Action World (Option String)
  get_document name id = do cluster.get_found name id; pure none

  -- `UpdateDocument`
  pub update_document : String → String → Value → Action World Bool
  update_document name id document = do
    encoded ← from_result (cluster.json_marshal document)
    call (cluster.update name id encoded)
    pure true

  -- `DeleteDocument`
  pub delete_document : String → String → Action World (Unit {0})
  delete_document name id = call (cluster.delete_document name id)

  -- `BulkInsert`
  unfoldable pub bulk_insert : String → List Value → Action World (Unit {0})
  unfolding insert_document
  bulk_insert name [] = pure tt
  bulk_insert name (document ∷ rest) = do insert_document name document; bulk_insert name rest

  -- `SearchDocument`
  pub search_document : String → Request → Action World Response
  search_document name request = cluster.search name request

  -- `Count`
  pub count : String → Request → Action World ℤ
  count name request = pure (pos 0)
