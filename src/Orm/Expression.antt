-- ===== src/Orm/Expression.antt =====
-- orm/builder.go with column.go, aggregate.go, expression.go, predicate.go and assignment.go: the
-- expressions of a query and how they are written. The registry is a function from entities to their
-- models, since it reads them by reflection.
use soil.Base.{ℕ, Option, none, some, List, [], ◌∷◌, ◌++◌, Bytes, codes}
use soil.Orm.Builder.{
  unknown_field, no_model, unsupported_expression, Model, find_field, M, ◌>>◌, skip, fail, write,
  add_args, case_of, found, quote,
}

-- `Table`
pub record Table (E : Type 0) : Type 0 where
  pub entity : E
  pub alias : Bytes

-- `Column`; its table is nil, or the `Table` that made it.
pub record Column (E : Type 0) : Type 0 where
  pub name : Bytes
  pub table : Option (Table E)
  pub alias : Bytes

-- `Expression`, nil included; a `Predicate` has a left side, an operator and a right side.
pub data Expression (V E : Type 0) : Type 0 where
  nothing : Expression V E
  column : Column E → Expression V E
  value : V → Expression V E
  aggregate : Bytes → Bytes → Bytes → Expression V E
  predicate : Expression V E → Bytes → Expression V E → Expression V E
  raw : Bytes → List V → Expression V E
  math : Expression V E → Bytes → Expression V E → Expression V E

pub record Predicate (V E : Type 0) : Type 0 where
  pub left : Expression V E
  pub op : Bytes
  pub right : Expression V E

abbrev pub col : {E : Type 0} → Bytes → Column E
col name = record { name = name; table = none; alias = [] }

-- `Column.As`
abbrev pub named_as : {E : Type 0} → Bytes → Column E → Column E
named_as alias c = record c { alias = alias }

-- `Table.As`
abbrev pub table_as : {E : Type 0} → Bytes → Table E → Table E
table_as alias t = record t { alias = alias }

-- `Table.Col`
abbrev pub table_col : {E : Type 0} → Bytes → Table E → Column E
table_col name t = record { name = name; table = some t; alias = [] }

module _ {V E : Type 0} where
  abbrev pub predicate_of : Predicate V E → Expression V E
  predicate_of p = predicate p.left p.op p.right

  -- `And`, `Or` and `Not`.
  abbrev pub both : Predicate V E → Predicate V E → Predicate V E
  both l r = record { left = predicate_of l; op = codes "AND"; right = predicate_of r }

  abbrev pub either : Predicate V E → Predicate V E → Predicate V E
  either l r = record { left = predicate_of l; op = codes "OR"; right = predicate_of r }

  abbrev pub negated : Predicate V E → Predicate V E
  negated p = record { left = nothing; op = codes "NOT"; right = predicate_of p }

  abbrev pub compared : Expression V E → Bytes → Expression V E → Predicate V E
  compared e op arg = record { left = e; op = op; right = arg }

  -- `Column.EQ`, `LT` and `GT`, whose argument `exprOf` has made an expression.
  abbrev pub equals : Column E → Expression V E → Predicate V E
  equals c arg = compared (column c) (codes "=") arg

  abbrev pub less : Column E → Expression V E → Predicate V E
  less c arg = compared (column c) (codes "<") arg

  abbrev pub greater : Column E → Expression V E → Predicate V E
  greater c arg = compared (column c) (codes ">") arg

  -- Those of an aggregate, whose alias they keep.
  abbrev pub aggregate_less : Bytes → Bytes → Bytes → Expression V E → Predicate V E
  aggregate_less fn arg alias e = compared (aggregate fn arg alias) (codes "<") e

  abbrev pub aggregate_equals : Bytes → Bytes → Bytes → Expression V E → Predicate V E
  aggregate_equals fn arg alias e = compared (aggregate fn arg alias) (codes "=") e

  abbrev pub aggregate_greater : Bytes → Bytes → Bytes → Expression V E → Predicate V E
  aggregate_greater fn arg alias e = compared (aggregate fn arg alias) (codes ">") e

  -- `RawExpression.AsPredicate`
  abbrev pub as_predicate : Bytes → List V → Predicate V E
  as_predicate s vs = record { left = raw s vs; op = []; right = nothing }

  -- `p = p.And(ps[i])`
  unfoldable pub all_of : Predicate V E → List (Predicate V E) → Predicate V E
  all_of p [] = p
  all_of p (r ∷ ps) = all_of (both p r) ps

-- `if t.alias == ""`
abbrev pub qualifier : Bytes → Bytes → Bytes
qualifier table [] = table
qualifier table (c ∷ s) = c ∷ s

module _ {V E : Type 0} (models : E → Option Model) (q : ℕ) (m : Model) where
  unfoldable pub write_alias : Bytes → M V
  write_alias [] = skip
  write_alias (c ∷ s) = do write (codes " AS "); quote q (c ∷ s)

  unfoldable pub build_own_column : Column E → M V
  unfolding write_alias
  build_own_column c =
      found (find_field c.name m.fields) (unknown_field c.name)
        (λ f. do quote q f.col_name; write_alias c.alias)

  unfoldable pub build_table_column : Column E → Table E → M V
  build_table_column c t = found (models t.entity) no_model (λ meta.
      found (find_field c.name meta.fields) (unknown_field c.name) (λ f. do
        quote q (qualifier meta.table_name t.alias)
        write (codes ".")
        quote q f.col_name))

  unfoldable pub build_column : Column E → M V
  unfolding build_own_column build_table_column
  build_column c = case_of c.table (build_own_column c) (build_table_column c)

  unfoldable pub build_aggregate : Bytes → Bytes → Bytes → M V
  unfolding build_column write_alias
  build_aggregate fn arg alias = do
    write fn
    write (codes "(")
    build_column (col arg)
    write (codes ")")
    write_alias alias

  -- `if e.op != ""`
  unfoldable pub write_op : Bytes → M V
  write_op [] = skip
  write_op (c ∷ s) = write (codes " " ++ ((c ∷ s) ++ codes " "))

  -- `buildSubExpr`, with what `buildExpression` does on anything but a predicate. On nil nothing is
  -- written, as `if e.right != nil` has it.
  unfoldable pub build_sub_expr : Expression V E → M V
  unfolding build_column build_aggregate write_op
  build_sub_expr nothing = skip
  build_sub_expr (column c) = build_column (record c { alias = [] })
  build_sub_expr (value v) = do write (codes "?"); add_args (v ∷ [])
  build_sub_expr (aggregate fn arg alias) = build_aggregate fn arg alias
  build_sub_expr (predicate l op r) = do
    write (codes "(")
    build_sub_expr l
    write_op op
    build_sub_expr r
    write (codes ")")
  build_sub_expr (raw s vs) = do write (codes "("); write s; add_args vs; write (codes ")")
  build_sub_expr (math l op r) = fail unsupported_expression

  unfoldable pub build_binary_expr : Expression V E → Bytes → Expression V E → M V
  unfolding build_sub_expr write_op
  build_binary_expr l op r = do build_sub_expr l; write_op op; build_sub_expr r

  unfoldable pub build_expression : Expression V E → M V
  unfolding build_binary_expr build_sub_expr
  build_expression (predicate l op r) = build_binary_expr l op r
  build_expression nothing = skip
  build_expression (column c) = build_sub_expr (column c)
  build_expression (value v) = build_sub_expr (value v)
  build_expression (aggregate fn arg alias) = build_sub_expr (aggregate fn arg alias)
  build_expression (raw s vs) = build_sub_expr (raw s vs)
  build_expression (math l op r) = fail unsupported_expression

  -- `buildPredicates`; the callers see to it that there is a first one.
  unfoldable pub build_predicates : Predicate V E → List (Predicate V E) → M V
  unfolding build_binary_expr all_of
  build_predicates p ps =
      let whole = all_of p ps in build_binary_expr whole.left whole.op whole.right

  -- The conditions that the user gave, or none.
  unfoldable pub build_user_where : Bytes → List (Predicate V E) → M V
  unfolding build_predicates
  build_user_where before [] = skip
  build_user_where before (p ∷ ps) = do write before; build_predicates p ps

  unfoldable pub build_where_with_soft_delete : List (Predicate V E) → M V
  unfolding build_user_where
  build_where_with_soft_delete ps =
      case_of m.deleted_at (build_user_where (codes " WHERE ") ps) (λ f. do
        write (codes " WHERE ")
        quote q f.col_name
        write (codes " IS NULL")
        build_user_where (codes " AND ") ps)
