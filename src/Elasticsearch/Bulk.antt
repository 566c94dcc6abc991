-- ===== src/Elasticsearch/Bulk.antt =====
-- How many documents `BulkInsert` of elasticsearch/elasticsearch.go inserts.
use go_cook.Shared.{
  ◌≡◌, refl, ap, ◌∙◌, ◌⊎◌, inl, inr, String, Bool, List, [], ◌∷◌, ◌++◌, arith, Error, Result, ok,
  err, Result-split,
}
use go_cook.Elasticsearch.{Cluster, insert_document, bulk_insert}

module _ (cluster : Cluster) (name : String) where
  open cluster use {World, Value}

  -- Documents that are all inserted, from one world to another.
  pub data Inserts : List Value → World → World → Type 0 where
    done : {world : World} → Inserts [] world world
    next :
        {document : Value} {rest : List Value} {world world' last : World} {answered : Bool}
        → insert_document cluster name document world ≡ (ok answered, world')
        → Inserts rest world' last
        → Inserts (document ∷ rest) world last

  -- All documents are inserted, or those before the first that fails.
  abbrev pub InsertsPrefix : List Value → World → Result (Unit {0}) × World → Type 0
  InsertsPrefix documents world x =
      ((last : World) × Inserts documents world last × (x ≡ (ok tt, last)))
      ⊎ ((front : List Value) × (document : Value) × (back : List Value) × (before : World)
          × (last : World) × (e : Error) × (documents ≡ front ++ document ∷ back)
          × Inserts front world before
          × (insert_document cluster name document before ≡ (err e, last))
          × (x ≡ (err e, last)))

  InsertsPrefix-next :
      {document : Value} {rest : List Value} {world world' : World} {answered : Bool}
      {x y : Result (Unit {0}) × World}
      → insert_document cluster name document world ≡ (ok answered, world')
      → x ≡ y
      → InsertsPrefix rest world' y
      → InsertsPrefix (document ∷ rest) world x
  InsertsPrefix-next {document} h same (inl (last, all, eq)) = inl (last, next h all, same ∙ eq)
  InsertsPrefix-next {document} h same
        (inr (front, bad, back, before, last, e, eq, some, fails, stops)) =
      inr (
        document ∷ front,
        bad,
        back,
        before,
        last,
        e,
        ap (λ documents. document ∷ documents) eq,
        next h some,
        fails,
        same ∙ stops,
      )

  -- `BulkInsert` inserts the documents in order. It returns nil when all were inserted, and otherwise
  -- the error of the first that was not: those before it stay, those behind it are not tried.
  pub bulk_insert-InsertsPrefix :
      (documents : List Value) (world : World)
      → InsertsPrefix documents world (bulk_insert cluster name documents world)
  unfolding bulk_insert
  bulk_insert-InsertsPrefix [] world = inl (world, done, refl)
  bulk_insert-InsertsPrefix (document ∷ rest) world =
      let world' = (insert_document cluster name document world).1 in
      elim (Result-split (insert_document cluster name document world).0) [
        | inl (answered, h) ↦
            InsertsPrefix-next {answered = answered} (ground arith) (ground arith)
              (bulk_insert-InsertsPrefix rest world')
        | inr (e, h) ↦
            inr ([], document, rest, world, world', e, refl, done, ground arith, ground arith)
      ]
