-- ===== src/Pushdown/Tests.antt =====
-- Examples for mongo/pushdown.rs: tests and witnesses.
use auger.Base.{true, [], ◌∷◌, some, ◌≡◌, refl, codes, text_eq}
use auger.Base.Int.{pos}
use auger.Arrow.{find, get_meta}
use auger.Bson.{Bson, Document, doc1}
use auger.Pushdown.Expr.{Operator, ScalarValue, Expr}
use auger.Pushdown.Literal.{scalar_to_bson}
use auger.Pushdown.Column.{column_ref_of, resolve_column, is_literal}
use auger.Pushdown.Translate.{translate, exactly, and_doc, nor_doc, not_null_doc, test_doc}
use auger.Pushdown.Guards.{IsSafe}
use auger.Pushdown.Engines.{is_holds, is_typed, denoted}
use auger.Pushdown.Exact.{translate-exact}
use auger.Pushdown.Toy.{lib, people, server, is_missing, order}
use auger.Pushdown.ToySql.{sql, conforms}

-- `NOT (age < 18) AND active`
abbrev adults : Expr
adults =
    Expr.binary
      (Expr.not (
        Expr.binary (Expr.column (codes "age")) Operator.lt
          (Expr.literal (ScalarValue.int32 (some (pos 18))))))
      Operator.and (Expr.column (codes "active"))

abbrev adults_filter : Document
adults_filter = and_doc (
    and_doc (
      nor_doc (test_doc (codes "age") (codes "$lt") (Bson.int32 (pos 18)) ∷ [])
      ∷ not_null_doc (codes "age")
      ∷ [])
    ∷ doc1 (codes "active") (Bson.boolean true)
    ∷ [])

adults-translate : translate lib people adults ≡ some (exactly adults_filter)
unfolding translate scalar_to_bson text_eq find get_meta
adults-translate = refl

adults-IsSafe : IsSafe lib people adults
unfolding is_typed resolve_column denoted text_eq find get_meta column_ref_of is_literal
adults-IsSafe = ((refl, tt), tt)

-- A row with the age 30 and the flag set.
active_adult : server.Row
unfolding server
active_adult = (some 30, some true)

translate-exact_example :
    server.matches adults_filter active_adult ≡ is_holds (sql.truth adults active_adult)
translate-exact_example =
    translate-exact lib people server sql conforms adults active_adult adults-IsSafe
      adults-translate refl

-- Both sides of the equation hold there: the row is an answer.
adults-hold : server.matches adults_filter active_adult ≡ true
unfolding server active_adult order is_missing
adults-hold = refl
