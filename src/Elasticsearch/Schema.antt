-- ===== src/Elasticsearch/Schema.antt =====
-- Which schemas `CreateIndex` of elasticsearch/elasticsearch.go accepts, in whatever order it visits
-- them.
use mathlib.Core.List.{Permᴰ}
use mathlib.Core.Quot
use go_cook.Shared.{
  ◌≡◌, refl, sym, ◌∙◌, ap, ◌⊎◌, inl, inr, String, Option, none, some, [], ◌∷◌, arith, Error, new,
  to_result, Result, ok, err, Option-cases, ◌<>◌, ◌||◌,
}
use go_cook.Shared.Dict.{Dict, lookup, insert, has, lookup-insert}
use go_cook.Shared.Format.{quote}
use go_cook.Shared.GoMap.{GoMap, Distinct, Distinct-perm, SameEntries, perm-SameEntries}
use go_cook.Elasticsearch.{Property, Cluster, property_of, type_mapping, create_index}

-- The property of a field of a schema.
abbrev property_at : Option String → Option Property
property_at none = none
property_at (some field_type) = property_of field_type

-- A schema and its mapping: the same fields, each with the property of its type.
abbrev pub Maps : Dict String → Dict Property → Type 0
Maps schema mapping =
    (k : String)
    → (has k mapping ≡ has k schema) × (lookup k mapping ≡ property_at (lookup k schema))

-- The error for a field of the schema whose type has no property.
abbrev pub Rejects : Dict String → Error → Type 0
Rejects schema e =
    (field : String) × (field_type : String) × (lookup field schema ≡ some field_type)
    × (property_of field_type ≡ none)
    × (e ≡ new ("unsupported field type " <> quote field_type <> " for field " <> quote field))

abbrev Covers : Dict String → Dict Property → Dict Property → Type 0
Covers schema front mapping =
    (k : String)
    → (has k mapping ≡ (has k schema || has k front))
      × (lookup k mapping
          ≡ elim (lookup k schema) [ some t ↦ property_of t | none ↦ lookup k front ])

type_mapping-cases :
    (schema : Dict String) (front : Dict Property)
    → Distinct schema
    → ((mapping : Dict Property) × Covers schema front mapping
        × (type_mapping schema front ≡ ok mapping))
      ⊎ ((e : Error) × Rejects schema e × (type_mapping schema front ≡ err e))
unfolding type_mapping lookup
type_mapping-cases [] front h = inl (front, λ k. (refl, refl), refl)
type_mapping-cases ((field, field_type) ∷ rest) front h =
    elim (Option-cases (property_of field_type)) [
      | inl bad ↦ inr (
        new ("unsupported field type " <> quote field_type <> " for field " <> quote field),
        (field, field_type, ground arith, bad, refl),
        ground arith,
      )
      | inr (property, good) ↦ elim (type_mapping-cases rest (insert field property front) h.1) [
        | inl (mapping, covers, eq) ↦ inl (
          mapping,
          λ k. (
            ground (arith, covers k, h.0, lookup-insert field k property front),
            ground (arith, covers k, h.0, lookup-insert field k property front),
          ),
          ground arith,
        )
        | inr (e, (name, name_type, there, bad, text), eq) ↦
            inr (e, (name, name_type, ground (arith, h.0), bad, text), ground arith)
      ]
    ]

module _ (cluster : Cluster) (name : String) (world : cluster.World) where
  -- The answer of the server to the request for an index with a mapping.
  abbrev pub asks : GoMap Property → Result (Unit {0}) × cluster.World
  asks mapping = let (e, world') = cluster.create name mapping world in (to_result e, world')

  create_index-cases :
      (schema : Dict String)
      → Distinct schema
      → ((mapping : Dict Property) × Maps schema mapping
          × (create_index cluster name schema world ≡ asks (Quot.mk mapping)))
        ⊎ ((e : Error) × Rejects schema e
            × (create_index cluster name schema world ≡ (err e, world)))
  unfolding create_index lookup
  create_index-cases schema h = elim (type_mapping-cases schema [] h) [
    | inl (mapping, m, eq) ↦
        inl (mapping, λ k. (ground (arith, m k), ground (arith, m k)), ground arith)
    | inr (e, u, eq) ↦ inr (e, u, ground arith)
  ]

  -- A schema with a mapping has no field of an unsupported type.
  Maps-Rejects :
      {A : Type 0} (schema visited : Dict String) (mapping : Dict Property) (e : Error)
      → SameEntries schema visited
      → Maps schema mapping
      → Rejects visited e
      → A
  Maps-Rejects schema visited mapping e same m (field, t, there, bad, _) =
      absurd (ground (arith, m field, same field))

  -- In whatever order `CreateIndex` visits a schema, it asks the server for the index with the same
  -- mapping of all fields, each with the property of its type, and returns the server's answer; or,
  -- where a field has an unsupported type, it asks for nothing in any order and returns the error of
  -- such a field, which may be another in another order.
  pub create_index-visits :
      (schema visited : Dict String)
      → Distinct schema
      → Permᴰ schema visited
      → ((mapping : Dict Property) × Maps schema mapping
          × (create_index cluster name schema world ≡ asks (Quot.mk mapping))
          × (create_index cluster name visited world ≡ asks (Quot.mk mapping)))
        ⊎ ((e : Error) × (e' : Error) × Rejects schema e
            × Rejects schema e'
            × (create_index cluster name schema world ≡ (err e, world))
            × (create_index cluster name visited world ≡ (err e', world)))
  create_index-visits schema visited h p =
      let same = perm-SameEntries p h in
      elim (create_index-cases schema h) [
        | inl (mapping, m, eq) ↦ elim (create_index-cases visited (Distinct-perm p h)) [
          | inl (mapping', m', eq') ↦
              let agree : SameEntries mapping' mapping =
                λ k. (m' k).1 ∙ ap property_at (sym (same k)) ∙ sym (m k).1 in
              inl (mapping, m, eq, eq' ∙ ap asks (Quot.sound agree))
          | inr (e, u, eq') ↦ Maps-Rejects schema visited mapping e same m u
        ]
        | inr (e, u, eq) ↦ elim (create_index-cases visited (Distinct-perm p h)) [
          | inl (mapping', m', eq') ↦
              Maps-Rejects visited schema mapping' e (λ k. sym (same k)) m' u
          | inr (e', (field, t, there, bad, text), eq') ↦
              inr (e, e', u, (field, t, same field ∙ there, bad, text), eq, eq')
        ]
      ]
