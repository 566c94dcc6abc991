-- ===== src/Elasticsearch/Tests.antt =====
-- The package elasticsearch on a small cluster.
use mathlib.Core.List.{Permᴰ}
use mathlib.Core.Quot
use go_cook.Shared.{
  refl, String-discrete, ◌≡◌, ◌⊎◌, String, true, none, List, [], ◌∷◌, Error, new, ok, err, ◌==◌,
  if◌then◌else◌,
}
use go_cook.Shared.Dict.{Dict, lookup}
use go_cook.Shared.GoMap.{Distinct}
use go_cook.Elasticsearch.{Cluster, Property, create_index, bulk_insert}
use go_cook.Elasticsearch.Bulk.{InsertsPrefix, bulk_insert-InsertsPrefix}
use go_cook.Elasticsearch.Schema.{Maps, Rejects, asks, create_index-visits}

-- A cluster that keeps what it is given, newest first, and takes no document "bad".
abbrev cluster : Cluster
cluster = record {
  World = List String;
  Value = String;
  Request = String;
  Response = String;
  json_marshal = λ v. ok v;
  create = λ name mapping w. (none, name ∷ w);
  delete = λ name w. (none, w);
  exists = λ name w. (ok true, w);
  index = λ name encoded w.
      if encoded == "bad" then (err (new "rejected"), w) else (ok true, encoded ∷ w);
  get_found = λ name id w. (ok true, w);
  update = λ name id encoded w. (none, w);
  delete_document = λ name id w. (none, w);
  search = λ name request w. (ok "", w);
}

bulk_insert-InsertsPrefix_example :
    InsertsPrefix cluster "users"
      ("ada" ∷ "bad" ∷ "eve" ∷ [])
      []
      (bulk_insert cluster "users" ("ada" ∷ "bad" ∷ "eve" ∷ []) [])
bulk_insert-InsertsPrefix_example =
    bulk_insert-InsertsPrefix cluster "users" ("ada" ∷ "bad" ∷ "eve" ∷ []) []

-- One schema, in two orders.
abbrev schema : Dict String
schema = ("age", "integer") ∷ ("born", "date") ∷ []

abbrev visited : Dict String
visited = ("born", "date") ∷ ("age", "integer") ∷ []

schema-Distinct : Distinct schema
unfolding lookup String-discrete
schema-Distinct = (refl, (refl, tt))

create_index-visits_example :
    ((mapping : Dict Property) × Maps schema mapping
      × (create_index cluster "users" schema [] ≡ asks cluster "users" [] (Quot.mk mapping))
      × (create_index cluster "users" visited [] ≡ asks cluster "users" [] (Quot.mk mapping)))
    ⊎ ((e : Error) × (e' : Error) × Rejects schema e
        × Rejects schema e'
        × (create_index cluster "users" schema [] ≡ (err e, []))
        × (create_index cluster "users" visited [] ≡ (err e', [])))
create_index-visits_example =
    create_index-visits cluster "users" [] schema visited schema-Distinct (Permᴰ.swap refl refl)
