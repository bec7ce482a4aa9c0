-- ===== src/Orm/Marks/Expressions.antt =====
-- orm/builder.go: a placeholder for each argument, in the expressions and conditions of a query.
use soil.Base.{
  ℕ, ◌≡◌, ◌≢◌, refl, subst, arith, Option, none, some, List, [], ◌∷◌, ◌++◌, Bytes, codes, length,
  All,
}
use soil.Orm.Builder.{Field, Model, write, find_field}
use soil.Orm.Expression.{
  Table, Column, Expression, nothing, column, value, aggregate, predicate, raw, math, Predicate,
  predicate_of, both, all_of, qualifier, col, write_alias, build_own_column, build_table_column,
  build_column, build_aggregate, write_op, build_sub_expr, build_binary_expr, build_expression,
  build_predicates, build_user_where, build_where_with_soft_delete,
}
use soil.Orm.Marks.{
  marks, marks-append, IsPlain, IsPlainField, IsPlainOption, IsPlainModel, IsBalanced,
}
use soil.Orm.Marks.Steps.{
  skip-IsBalanced, fail-IsBalanced, write-IsBalanced, seq-IsBalanced, mark-IsBalanced,
  mark-then-IsBalanced, case_of-IsBalanced, quote-IsBalanced,
}

unfoldable pub IsPlainTable : {E : Type 0} → Option (Table E) → Type 0
IsPlainTable none = Unit
IsPlainTable (some t) = IsPlain t.alias

-- Of a column: its alias and that of its table are plain.
unfoldable pub IsPlainColumn : {E : Type 0} → Column E → Type 0
unfolding IsPlainTable
IsPlainColumn c = IsPlain c.alias × IsPlainTable c.table

-- Of an expression: the texts that are written as they are have no question mark, but for a raw
-- expression, which has one for each of its arguments.
unfoldable pub IsPlainExpression : {V E : Type 0} → Expression V E → Type 0
unfolding IsPlainColumn
IsPlainExpression nothing = Unit
IsPlainExpression (column c) = IsPlainColumn c
IsPlainExpression (value v) = Unit
IsPlainExpression (aggregate fn arg alias) = IsPlain fn × IsPlain alias
IsPlainExpression (predicate l op r) = IsPlainExpression l × (IsPlain op × IsPlainExpression r)
IsPlainExpression (raw s vs) = marks s ≡ length vs
IsPlainExpression (math l op r) = Unit

abbrev pub IsPlainPredicate : {V E : Type 0} → Predicate V E → Type 0
IsPlainPredicate p = IsPlainExpression (predicate_of p)

pub find_field-IsPlain :
    (name : Bytes) (fs : List Field) (f : Field)
    → All IsPlainField fs
    → find_field name fs ≡ some f
    → IsPlainField f
unfolding find_field
find_field-IsPlain name [] f a e = absurd (ground arith)
find_field-IsPlain name (g ∷ fs) f a e = ground (arith, find_field-IsPlain name fs f a.1)

qualifier-IsPlain : (t s : Bytes) → IsPlain t → IsPlain s → IsPlain (qualifier t s)
qualifier-IsPlain t [] h k = h
qualifier-IsPlain t (c ∷ s) h k = k

pub all_of-IsPlain :
    {V E : Type 0} (p : Predicate V E) (ps : List (Predicate V E))
    → IsPlainPredicate p
    → All IsPlainPredicate ps
    → IsPlainPredicate (all_of p ps)
unfolding all_of IsPlainExpression marks
all_of-IsPlain p [] h a = h
all_of-IsPlain p (r ∷ ps) h a = all_of-IsPlain (both p r) ps (h, (refl, a.0)) a.1

table_alias :
    {E : Type 0} (c : Column E) (t : Table E) → IsPlainColumn c → c.table ≡ some t → IsPlain t.alias
unfolding IsPlainColumn IsPlainTable
table_alias c t h e = subst IsPlainTable e h.1

module _ {V E : Type 0} (models : E → Option Model) (q : ℕ) (m : Model) (n : q ≢ b'?')
    (pm : IsPlainModel m)
    (known : (e : E) (meta : Model) → models e ≡ some meta → IsPlainModel meta) where
  pub write_alias-IsBalanced :
      (s : Bytes) → IsPlain s → IsBalanced {V = V} (write_alias models q m s)
  unfolding write_alias marks
  write_alias-IsBalanced [] h = skip-IsBalanced
  write_alias-IsBalanced (c ∷ s) h =
      seq-IsBalanced (write-IsBalanced (codes " AS ") refl) (quote-IsBalanced q (c ∷ s) n h)

  build_own_column-IsBalanced :
      (c : Column E) → IsPlainColumn c → IsBalanced {V = V} (build_own_column models q m c)
  unfolding build_own_column IsPlainColumn
  build_own_column-IsBalanced c h =
      case_of-IsBalanced (λ e. fail-IsBalanced _)
        (λ f e.
          seq-IsBalanced
            (quote-IsBalanced q f.col_name n (find_field-IsPlain c.name m.fields f pm.fields e))
            (write_alias-IsBalanced c.alias h.0))

  build_table_column-IsBalanced :
      (c : Column E) (t : Table E)
      → IsPlain t.alias
      → IsBalanced {V = V} (build_table_column models q m c t)
  unfolding build_table_column marks
  build_table_column-IsBalanced c t h =
      case_of-IsBalanced (λ e. fail-IsBalanced _)
        (λ meta k.
          let pk = known t.entity meta k in
          case_of-IsBalanced (λ e. fail-IsBalanced _)
            (λ f e.
              seq-IsBalanced
                (quote-IsBalanced q (qualifier meta.table_name t.alias) n
                  (qualifier-IsPlain meta.table_name t.alias pk.table_name h))
                (seq-IsBalanced (write-IsBalanced (codes ".") refl) (
                  quote-IsBalanced q f.col_name n
                    (find_field-IsPlain c.name meta.fields f pk.fields e)))))

  pub build_column-IsBalanced :
      (c : Column E) → IsPlainColumn c → IsBalanced {V = V} (build_column models q m c)
  unfolding build_column
  build_column-IsBalanced c h =
      case_of-IsBalanced (λ e. build_own_column-IsBalanced c h)
        (λ t e. build_table_column-IsBalanced c t (table_alias c t h e))

  pub named-IsBalanced : (name : Bytes) → IsBalanced {V = V} (build_column models q m (col name))
  unfolding IsPlainColumn IsPlainTable marks
  named-IsBalanced name = build_column-IsBalanced (col name) (refl, tt)

  pub build_aggregate-IsBalanced :
      (fn arg alias : Bytes)
      → IsPlain fn
      → IsPlain alias
      → IsBalanced {V = V} (build_aggregate models q m fn arg alias)
  unfolding build_aggregate marks
  build_aggregate-IsBalanced fn arg alias h k = seq-IsBalanced (write-IsBalanced fn h) (
      seq-IsBalanced (write-IsBalanced (codes "(") refl) (
        seq-IsBalanced (named-IsBalanced arg)
          (seq-IsBalanced (write-IsBalanced (codes ")") refl) (write_alias-IsBalanced alias k))))

  write_op-IsBalanced : (op : Bytes) → IsPlain op → IsBalanced {V = V} (write_op models q m op)
  unfolding write_op marks
  write_op-IsBalanced [] h = skip-IsBalanced
  write_op-IsBalanced (c ∷ s) h =
      write-IsBalanced (codes " " ++ ((c ∷ s) ++ codes " "))
        (omega (arith, h, marks-append (c ∷ s) (codes " ")))

  pub build_sub_expr-IsBalanced :
      (x : Expression V E) → IsPlainExpression x → IsBalanced (build_sub_expr models q m x)
  unfolding build_sub_expr IsPlainExpression IsPlainColumn marks
  build_sub_expr-IsBalanced nothing h = skip-IsBalanced
  build_sub_expr-IsBalanced (column c) h =
      build_column-IsBalanced (record c { alias = [] }) (refl, h.1)
  build_sub_expr-IsBalanced (value v) h = mark-IsBalanced (codes "?") (v ∷ []) refl
  build_sub_expr-IsBalanced (aggregate fn arg alias) h =
      build_aggregate-IsBalanced fn arg alias h.0 h.1
  build_sub_expr-IsBalanced (predicate l op r) h =
      seq-IsBalanced (write-IsBalanced (codes "(") refl) (
        seq-IsBalanced (build_sub_expr-IsBalanced l h.0) (
          seq-IsBalanced (write_op-IsBalanced op h.1.0) (
            seq-IsBalanced (build_sub_expr-IsBalanced r h.1.1)
              (write-IsBalanced (codes ")") refl))))
  build_sub_expr-IsBalanced (raw s vs) h =
      seq-IsBalanced (write-IsBalanced (codes "(") refl)
        (mark-then-IsBalanced s vs (write (codes ")")) h (write-IsBalanced (codes ")") refl))
  build_sub_expr-IsBalanced (math l op r) h = fail-IsBalanced _

  build_binary_expr-IsBalanced :
      (l : Expression V E) (op : Bytes) (r : Expression V E)
      → IsPlainExpression (predicate l op r)
      → IsBalanced (build_binary_expr models q m l op r)
  unfolding build_binary_expr IsPlainExpression
  build_binary_expr-IsBalanced l op r h =
      seq-IsBalanced (build_sub_expr-IsBalanced l h.0)
        (seq-IsBalanced (write_op-IsBalanced op h.1.0) (build_sub_expr-IsBalanced r h.1.1))

  pub build_expression-IsBalanced :
      (x : Expression V E) → IsPlainExpression x → IsBalanced (build_expression models q m x)
  unfolding build_expression
  build_expression-IsBalanced (predicate l op r) h = build_binary_expr-IsBalanced l op r h
  build_expression-IsBalanced nothing h = skip-IsBalanced
  build_expression-IsBalanced (column c) h = build_sub_expr-IsBalanced (column c) h
  build_expression-IsBalanced (value v) h = build_sub_expr-IsBalanced (value v) h
  build_expression-IsBalanced (aggregate fn arg alias) h =
      build_sub_expr-IsBalanced (aggregate fn arg alias) h
  build_expression-IsBalanced (raw s vs) h = build_sub_expr-IsBalanced (raw s vs) h
  build_expression-IsBalanced (math l op r) h = fail-IsBalanced _

  pub build_user_where-IsBalanced :
      (before : Bytes) (ps : List (Predicate V E))
      → IsPlain before
      → All IsPlainPredicate ps
      → IsBalanced (build_user_where models q m before ps)
  unfolding build_user_where build_predicates
  build_user_where-IsBalanced before [] h a = skip-IsBalanced
  build_user_where-IsBalanced before (p ∷ ps) h a =
      seq-IsBalanced (write-IsBalanced before h)
        (build_binary_expr-IsBalanced _ _ _ (all_of-IsPlain p ps a.0 a.1))

  pub build_where-IsBalanced :
      (ps : List (Predicate V E))
      → All IsPlainPredicate ps
      → IsBalanced (build_where_with_soft_delete models q m ps)
  unfolding build_where_with_soft_delete marks
  build_where-IsBalanced ps a =
      case_of-IsBalanced (λ e. build_user_where-IsBalanced (codes " WHERE ") ps refl a)
        (λ f e. seq-IsBalanced (write-IsBalanced (codes " WHERE ") refl) (
          seq-IsBalanced (quote-IsBalanced q f.col_name n (subst IsPlainOption e pm.deleted_at)) (
            seq-IsBalanced (write-IsBalanced (codes " IS NULL") refl)
              (build_user_where-IsBalanced (codes " AND ") ps refl a))))
