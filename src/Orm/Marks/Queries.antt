-- ===== src/Orm/Marks/Queries.antt =====
-- orm/select.go: a placeholder for each argument of a SELECT.
use soil.Base.{
  All-map, ℕ, ◌≡◌, ◌≢◌, refl, arith, Option, some, List, [], ◌∷◌, ◌++◌, Bytes, codes, length, All,
  ltb, by_cases,
}
use soil.Orm.Builder.{Model, Builder, ok, empty}
use soil.Orm.Expression.{Column, col, build_column}
use soil.Orm.Select.{
  TableRef, own, table, join, other, Selectable, column, aggregate, raw, OrderBy, Selector,
  build_selectable, build_columns, build_using, build_table, build_group_by, build_order,
  build_order_by, build_limit, build_offset, build_select,
}
use soil.Orm.Marks.{marks, marks-append, IsPlain, IsPlainModel, IsBalanced}
use soil.Orm.Marks.Steps.{
  skip-IsBalanced, fail-IsBalanced, write-IsBalanced, seq-IsBalanced, mark-IsBalanced,
  case_of-IsBalanced, quote-IsBalanced, separated-IsBalanced, All-always, balanced-empty,
}
use soil.Orm.Marks.Expressions.{
  IsPlainColumn, IsPlainPredicate, write_alias-IsBalanced, build_column-IsBalanced,
  named-IsBalanced, build_aggregate-IsBalanced, build_user_where-IsBalanced, build_where-IsBalanced,
}

-- Of what a query selects.
unfoldable pub IsPlainSelectable : {V E : Type 0} → Selectable V E → Type 0
IsPlainSelectable (column c) = IsPlainColumn c
IsPlainSelectable (aggregate fn arg alias) = IsPlain fn × IsPlain alias
IsPlainSelectable (raw s vs) = marks s ≡ length vs

-- Of what a query selects from.
unfoldable pub IsPlainRef : {V E : Type 0} → TableRef V E → Type 0
IsPlainRef own = Unit
IsPlainRef (table t) = IsPlain t.alias
IsPlainRef (join l typ r on using) =
    IsPlainRef l × (IsPlain typ × (IsPlainRef r × All IsPlainPredicate on))
IsPlainRef other = Unit

pub record IsPlainSelector {V E : Type 0} (s : Selector V E) : Type 0 where
  pub source : IsPlainRef s.source
  pub where_list : All IsPlainPredicate s.where_list
  pub columns : All IsPlainSelectable s.columns
  pub group_by : All IsPlainColumn s.group_by
  pub having : All IsPlainPredicate s.having
  pub order_by : All (λ (o : OrderBy). IsPlain o.order) s.order_by

between_spaces : (s : Bytes) → IsPlain s → IsPlain (codes " " ++ (s ++ codes " "))
unfolding marks
between_spaces s h = omega (arith, h, marks-append s (codes " "))

module _ {V E : Type 0} (models : E → Option Model) (q : ℕ) (m : Model) (n : q ≢ b'?')
    (pm : IsPlainModel m)
    (known : (e : E) (meta : Model) → models e ≡ some meta → IsPlainModel meta) where
  build_selectable-IsBalanced :
      (s : Selectable V E) → IsPlainSelectable s → IsBalanced (build_selectable models q m s)
  unfolding build_selectable IsPlainSelectable
  build_selectable-IsBalanced (column c) h = build_column-IsBalanced models q m n pm known c h
  build_selectable-IsBalanced (aggregate fn arg alias) h =
      build_aggregate-IsBalanced models q m n pm known fn arg alias h.0 h.1
  build_selectable-IsBalanced (raw s vs) h = mark-IsBalanced s vs h

  build_columns-IsBalanced :
      (cs : List (Selectable V E))
      → All IsPlainSelectable cs
      → IsBalanced (build_columns models q m cs)
  unfolding build_columns marks
  build_columns-IsBalanced [] a = write-IsBalanced (codes "*") refl
  build_columns-IsBalanced (c ∷ cs) a =
      separated-IsBalanced (codes ",") (build_selectable models q m) (c ∷ cs) refl
        (All-map build_selectable-IsBalanced (c ∷ cs) a)

  build_using-IsBalanced : (us : List Bytes) → IsBalanced {V = V} (build_using models q m us)
  unfolding build_using marks
  build_using-IsBalanced [] = skip-IsBalanced
  build_using-IsBalanced (u ∷ us) = seq-IsBalanced (write-IsBalanced (codes " USING (") refl) (
      seq-IsBalanced
        (separated-IsBalanced (codes ", ") (λ name. build_column models q m (col name)) (u ∷ us)
          refl (All-always (λ name. named-IsBalanced models q m n pm known name) (u ∷ us)))
        (write-IsBalanced (codes ")") refl))

  build_table-IsBalanced : (t : TableRef V E) → IsPlainRef t → IsBalanced (build_table models q m t)
  unfolding build_table IsPlainRef marks
  build_table-IsBalanced own h = quote-IsBalanced q m.table_name n pm.table_name
  build_table-IsBalanced (table t) h =
      case_of-IsBalanced (λ e. fail-IsBalanced _)
        (λ meta e.
          seq-IsBalanced (quote-IsBalanced q meta.table_name n (known t.entity meta e).table_name)
            (write_alias-IsBalanced models q m n pm known t.alias h))
  build_table-IsBalanced (join l typ r on using) h =
      seq-IsBalanced (write-IsBalanced (codes "(") refl) (
        seq-IsBalanced (build_table-IsBalanced l h.0) (
          seq-IsBalanced
            (write-IsBalanced (codes " " ++ (typ ++ codes " ")) (between_spaces typ h.1.0))
            (seq-IsBalanced (build_table-IsBalanced r h.1.1.0) (
              seq-IsBalanced (build_using-IsBalanced using) (
                seq-IsBalanced
                  (build_user_where-IsBalanced models q m n pm known (codes " ON ") on refl h.1.1.1)
                  (write-IsBalanced (codes ")") refl))))))
  build_table-IsBalanced other h = fail-IsBalanced _

  build_group_by-IsBalanced :
      (cs : List (Column E))
      → All IsPlainColumn cs
      → IsBalanced {V = V} (build_group_by models q m cs)
  unfolding build_group_by marks
  build_group_by-IsBalanced [] a = skip-IsBalanced
  build_group_by-IsBalanced (c ∷ cs) a =
      seq-IsBalanced (write-IsBalanced (codes " GROUP BY ") refl) (
        separated-IsBalanced (codes ",") (build_column models q m) (c ∷ cs) refl
          (All-map (build_column-IsBalanced models q m n pm known) (c ∷ cs) a))

  build_order-IsBalanced :
      (o : OrderBy) → IsPlain o.order → IsBalanced {V = V} (build_order models q m o)
  unfolding build_order marks
  build_order-IsBalanced o h =
      seq-IsBalanced (named-IsBalanced models q m n pm known o.col)
        (write-IsBalanced (codes " " ++ o.order) (omega (arith, h)))

  build_order_by-IsBalanced :
      (os : List OrderBy)
      → All (λ (o : OrderBy). IsPlain o.order) os
      → IsBalanced {V = V} (build_order_by models q m os)
  unfolding build_order_by marks
  build_order_by-IsBalanced [] a = skip-IsBalanced
  build_order_by-IsBalanced (o ∷ os) a =
      seq-IsBalanced (write-IsBalanced (codes " ORDER BY ") refl) (
        separated-IsBalanced (codes ",") (build_order models q m) (o ∷ os) refl
          (All-map build_order-IsBalanced (o ∷ os) a))

  build_offset-IsBalanced :
      (number : ℕ → V) (offset : ℕ) → IsBalanced (build_offset models q m number offset)
  unfolding build_offset marks
  build_offset-IsBalanced number offset =
      by_cases IsBalanced (ltb 0 offset) _ _
        (λ e. mark-IsBalanced (codes " OFFSET ?") (number offset ∷ []) refl) (λ e. skip-IsBalanced)

  build_limit-IsBalanced :
      (number : ℕ → V) (limit offset : ℕ) → IsBalanced (build_limit models q m number limit offset)
  unfolding build_limit marks
  build_limit-IsBalanced number limit offset =
      by_cases IsBalanced (ltb 0 limit) _ _
        (λ e. mark-IsBalanced (codes " LIMIT ?") (number limit ∷ []) refl)
        (λ e.
          by_cases IsBalanced (ltb 0 offset) _ _
            (λ f. write-IsBalanced (codes " LIMIT 18446744073709551615") refl)
            (λ f. skip-IsBalanced))

  build_select-IsBalanced :
      (number : ℕ → V) (s : Selector V E)
      → IsPlainSelector s
      → IsBalanced (build_select models q m number s)
  unfolding build_select marks
  build_select-IsBalanced number s h = seq-IsBalanced (write-IsBalanced (codes "SELECT ") refl) (
      seq-IsBalanced (build_columns-IsBalanced s.columns h.columns) (
        seq-IsBalanced (write-IsBalanced (codes " FROM ") refl) (
          seq-IsBalanced (build_table-IsBalanced s.source h.source) (
            seq-IsBalanced (build_where-IsBalanced models q m n pm known s.where_list h.where_list)
              (seq-IsBalanced (build_group_by-IsBalanced s.group_by h.group_by) (
                seq-IsBalanced
                  (build_user_where-IsBalanced models q m n pm known (codes " HAVING ") s.having
                    refl h.having)
                  (seq-IsBalanced (build_order_by-IsBalanced s.order_by h.order_by) (
                    seq-IsBalanced (build_limit-IsBalanced number s.limit s.offset) (
                      seq-IsBalanced (build_offset-IsBalanced number s.offset)
                        (write-IsBalanced (codes ";") refl))))))))))

  -- A SELECT has a placeholder for each of its arguments, through joins, conditions, groups and limits,
  -- if the quoting byte, the names of tables and columns, aliases, operators and functions that it is
  -- built from are free of question marks, and each raw expression has one for each of its own arguments.
  pub marks-build_select :
      (number : ℕ → V) (s : Selector V E) (b : Builder V)
      → IsPlainSelector s
      → build_select models q m number s (empty V) ≡ ok b
      → marks b.sql ≡ length b.args
  marks-build_select number s b h e = balanced-empty (build_select-IsBalanced number s h) b e
