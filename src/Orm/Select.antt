-- ===== src/Orm/Select.antt =====
-- orm/select.go and orm/table.go: SELECT statements.
use soil.Base.{ℕ, ◌-◌, ◌*◌, Option, List, [], ◌∷◌, ◌++◌, Bytes, codes, ltb, ◌==◌, if◌then◌else◌}
use soil.Orm.Builder.{
  no_model, unsupported_table, Model, M, ◌>>◌, skip, fail, write, add_args, found, quote, separated,
}
use soil.Orm.Expression.{
  Table, Column, Predicate, col, write_alias, build_column, build_aggregate, build_user_where,
  build_where_with_soft_delete,
}

-- `TableReference`; `other` is one of another type.
pub data TableRef (V E : Type 0) : Type 0 where
  own : TableRef V E
  table : Table E → TableRef V E
  join : TableRef V E → Bytes → TableRef V E → List (Predicate V E) → List Bytes → TableRef V E
  other : TableRef V E

-- `Selectable`
pub data Selectable (V E : Type 0) : Type 0 where
  column : Column E → Selectable V E
  aggregate : Bytes → Bytes → Bytes → Selectable V E
  raw : Bytes → List V → Selectable V E

pub record OrderBy : Type 0 where
  pub col : Bytes
  pub order : Bytes

-- `Selector`; an offset or a limit that is not positive is given as 0. `number` makes an argument of
-- one.
pub record Selector (V E : Type 0) : Type 0 where
  pub source : TableRef V E
  pub where_list : List (Predicate V E)
  pub columns : List (Selectable V E)
  pub group_by : List (Column E)
  pub having : List (Predicate V E)
  pub order_by : List OrderBy
  pub offset : ℕ
  pub limit : ℕ

-- `Asc` and `Desc`.
abbrev pub ascending : Bytes → OrderBy
ascending name = record { col = name; order = codes "ASC" }

abbrev pub descending : Bytes → OrderBy
descending name = record { col = name; order = codes "DESC" }

module _ {V E : Type 0} where
  -- `Join`, `LeftJoin` and `RightJoin` of a table or of a join, up to `On` or `Using`.
  abbrev pub join_on : TableRef V E → TableRef V E → List (Predicate V E) → TableRef V E
  join_on l r ps = join l (codes "JOIN") r ps []

  abbrev pub left_join_on : TableRef V E → TableRef V E → List (Predicate V E) → TableRef V E
  left_join_on l r ps = join l (codes "LEFT JOIN") r ps []

  abbrev pub right_join_on : TableRef V E → TableRef V E → List (Predicate V E) → TableRef V E
  right_join_on l r ps = join l (codes "RIGHT JOIN") r ps []

  abbrev pub join_using : TableRef V E → TableRef V E → List Bytes → TableRef V E
  join_using l r us = join l (codes "JOIN") r [] us

  -- `NewSelector`, and what the caller then sets.
  abbrev pub new_selector : Selector V E
  new_selector = record {
    source = own;
    where_list = [];
    columns = [];
    group_by = [];
    having = [];
    order_by = [];
    offset = 0;
    limit = 0;
  }

  abbrev pub from : TableRef V E → Selector V E → Selector V E
  from t s = record s { source = t }

  abbrev pub where_all : List (Predicate V E) → Selector V E → Selector V E
  where_all ps s = record s { where_list = ps }

  abbrev pub select : List (Selectable V E) → Selector V E → Selector V E
  select cs s = record s { columns = cs }

  abbrev pub grouped : List (Column E) → Selector V E → Selector V E
  grouped cs s = record s { group_by = cs }

  abbrev pub having_all : List (Predicate V E) → Selector V E → Selector V E
  having_all ps s = record s { having = ps }

  abbrev pub ordered : List OrderBy → Selector V E → Selector V E
  ordered os s = record s { order_by = os }

-- `Paginate`; a page or a size that is not positive is given as 0.
unfoldable pub paginate : {V E : Type 0} → ℕ → ℕ → Selector V E → Selector V E
paginate page size s =
    let page' = if page == 0 then 1 else page in
    let size' = if size == 0 then 10 else size in
    record s { limit = size'; offset = (page' - 1) * size' }

module _ {V E : Type 0} (models : E → Option Model) (q : ℕ) (m : Model) where
  unfoldable pub build_selectable : Selectable V E → M V
  build_selectable (column c) = build_column models q m c
  build_selectable (aggregate fn arg alias) = build_aggregate models q m fn arg alias
  build_selectable (raw s vs) = do write s; add_args vs

  unfoldable pub build_columns : List (Selectable V E) → M V
  unfolding build_selectable separated
  build_columns [] = write (codes "*")
  build_columns (c ∷ cs) = separated (codes ",") build_selectable (c ∷ cs)

  unfoldable pub build_using : List Bytes → M V
  build_using [] = skip
  build_using (u ∷ us) = do
    write (codes " USING (")
    separated (codes ", ") (λ name. build_column models q m (col name)) (u ∷ us)
    write (codes ")")

  unfoldable pub build_table : TableRef V E → M V
  unfolding build_using
  build_table own = quote q m.table_name
  build_table (table t) =
      found (models t.entity) no_model
        (λ meta. do quote q meta.table_name; write_alias models q m t.alias)
  build_table (join l typ r on using) = do
    write (codes "(")
    build_table l
    write (codes " " ++ (typ ++ codes " "))
    build_table r
    build_using using
    build_user_where models q m (codes " ON ") on
    write (codes ")")
  build_table other = fail unsupported_table

  unfoldable pub build_group_by : List (Column E) → M V
  build_group_by [] = skip
  build_group_by (c ∷ cs) = do
    write (codes " GROUP BY ")
    separated (codes ",") (build_column models q m) (c ∷ cs)

  unfoldable pub build_order : OrderBy → M V
  build_order o = do build_column models q m (col o.col); write (codes " " ++ o.order)

  unfoldable pub build_order_by : List OrderBy → M V
  unfolding build_order
  build_order_by [] = skip
  build_order_by (o ∷ os) = do
    write (codes " ORDER BY ")
    separated (codes ",") build_order (o ∷ os)

  unfoldable pub build_limit : (ℕ → V) → ℕ → ℕ → M V
  build_limit number limit offset =
      if ltb 0 limit
      then (write (codes " LIMIT ?") >> add_args (number limit ∷ []))
      else if ltb 0 offset
      then write (codes " LIMIT 18446744073709551615")
      else skip

  unfoldable pub build_offset : (ℕ → V) → ℕ → M V
  build_offset number offset =
      if ltb 0 offset then (write (codes " OFFSET ?") >> add_args (number offset ∷ [])) else skip

  unfoldable pub build_select : (ℕ → V) → Selector V E → M V
  unfolding build_columns build_table build_group_by build_order_by build_limit build_offset
  build_select number s = do
    write (codes "SELECT ")
    build_columns s.columns
    write (codes " FROM ")
    build_table s.source
    build_where_with_soft_delete models q m s.where_list
    build_group_by s.group_by
    build_user_where models q m (codes " HAVING ") s.having
    build_order_by s.order_by
    build_limit number s.limit s.offset
    build_offset number s.offset
    write (codes ";")
