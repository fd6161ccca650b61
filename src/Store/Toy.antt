-- ===== src/Store/Toy.antt =====
-- A serializer for the examples.
use auger.Base.{some, sym}
use auger.Store.{StoredCatalog, Serde}

-- A format that is the catalog itself.
abbrev pub serde : Serde
serde = record {
  Json = StoredCatalog;
  to_string = λ c. some c;
  from_str = λ c. some c;
  from_str-to_string = λ c t h. sym h;
}
