-- ===== src/Orm/Marks/Upserts.antt =====
-- orm/dialect.go: a placeholder for each argument of the clause on conflicts.
use soil.Base.{ℕ, ◌≡◌, ◌≢◌, refl, subst, Option, none, some, List, [], ◌∷◌, Bytes, codes, All}
use soil.Orm.Builder.{Error, Field, Model, M, find_field, found}
use soil.Orm.Expression.{Expression, col, build_column}
use soil.Orm.Insert.{
  Assignable, assignment, column, other, Upsert, Dialect, standard, mysql, sqlite, build_assignment,
  build_assigns, mysql_column, sqlite_column, build_upsert, build_conflict,
}
use soil.Orm.Marks.{marks, IsPlainField, IsPlainModel, IsBalanced}
use soil.Orm.Marks.Steps.{
  skip-IsBalanced, fail-IsBalanced, write-IsBalanced, seq-IsBalanced, case_of-IsBalanced,
  quote-IsBalanced, separated-IsBalanced, All-always,
}
use soil.Orm.Marks.Expressions.{
  IsPlainExpression, find_field-IsPlain, named-IsBalanced, build_expression-IsBalanced,
}

unfoldable pub IsPlainAssignable : {V E : Type 0} → Assignable V E → Type 0
IsPlainAssignable (assignment name e) = IsPlainExpression e
IsPlainAssignable (column c) = Unit
IsPlainAssignable other = Unit

unfoldable pub IsPlainUpsert : {V E : Type 0} → Option (Upsert V E) → Type 0
IsPlainUpsert none = Unit
IsPlainUpsert (some u) = All IsPlainAssignable u.assigns

module _ {V E : Type 0} (models : E → Option Model) (q : ℕ) (m : Model) (n : q ≢ b'?')
    (pm : IsPlainModel m)
    (known : (e : E) (meta : Model) → models e ≡ some meta → IsPlainModel meta) where
  pub build_assignment-IsBalanced :
      (name : Bytes) (e : Expression V E)
      → IsPlainExpression e
      → IsBalanced (build_assignment models q m name e)
  unfolding build_assignment marks
  build_assignment-IsBalanced name e h =
      seq-IsBalanced (named-IsBalanced models q m n pm known name) (
        seq-IsBalanced (write-IsBalanced (codes "=") refl)
          (build_expression-IsBalanced models q m n pm known e h))

  pub known_field :
      (each : Field → M V) (name : Bytes) (e : Error)
      → ((f : Field) → IsPlainField f → IsBalanced (each f))
      → IsBalanced (found (find_field name m.fields) e each)
  known_field each name x w =
      case_of-IsBalanced (λ e. fail-IsBalanced x)
        (λ f e. w f (find_field-IsPlain name m.fields f pm.fields e))

  build_assigns-IsBalanced :
      (each : Field → M V) (as' : List (Assignable V E))
      → ((f : Field) → IsPlainField f → IsBalanced (each f))
      → All IsPlainAssignable as'
      → IsBalanced (build_assigns models q m each as')
  unfolding build_assigns IsPlainAssignable marks
  build_assigns-IsBalanced each [] w a = skip-IsBalanced
  build_assigns-IsBalanced each (assignment name e ∷ more) w a =
      build_assignment-IsBalanced name e a.0
  build_assigns-IsBalanced each (other ∷ more) w a = fail-IsBalanced _
  build_assigns-IsBalanced each (column c ∷ []) w a = known_field each c.name _ w
  build_assigns-IsBalanced each (column c ∷ x ∷ more) w a =
      seq-IsBalanced (known_field each c.name _ w) (
        seq-IsBalanced (write-IsBalanced (codes ",") refl)
          (build_assigns-IsBalanced each (x ∷ more) w a.1))

  mysql_column-IsBalanced :
      (f : Field) → IsPlainField f → IsBalanced {V = V} (mysql_column models q m f)
  unfolding mysql_column marks
  mysql_column-IsBalanced f h =
      let quoted = quote-IsBalanced q f.col_name n h in
      seq-IsBalanced quoted (
        seq-IsBalanced (write-IsBalanced (codes "=VALUES(") refl)
          (seq-IsBalanced quoted (write-IsBalanced (codes ")") refl)))

  sqlite_column-IsBalanced :
      (f : Field) → IsPlainField f → IsBalanced {V = V} (sqlite_column models q m f)
  unfolding sqlite_column marks
  sqlite_column-IsBalanced f h =
      let quoted = quote-IsBalanced q f.col_name n h in
      seq-IsBalanced quoted (seq-IsBalanced (write-IsBalanced (codes "=excluded.") refl) quoted)

  build_upsert-IsBalanced :
      (d : Dialect) (u : Upsert V E)
      → All IsPlainAssignable u.assigns
      → IsBalanced (build_upsert models q m d u)
  unfolding build_upsert marks
  build_upsert-IsBalanced standard u a = fail-IsBalanced _
  build_upsert-IsBalanced mysql u a =
      seq-IsBalanced (write-IsBalanced (codes " ON DUPLICATE KEY UPDATE ") refl)
        (build_assigns-IsBalanced _ u.assigns mysql_column-IsBalanced a)
  build_upsert-IsBalanced sqlite u a =
      seq-IsBalanced (write-IsBalanced (codes " ON CONFLICT(") refl) (
        seq-IsBalanced
          (separated-IsBalanced (codes ",") (λ name. build_column models q m (col name))
            u.conflict_columns refl
            (All-always (λ name. named-IsBalanced models q m n pm known name) u.conflict_columns))
          (seq-IsBalanced (write-IsBalanced (codes ") DO UPDATE SET ") refl)
            (build_assigns-IsBalanced _ u.assigns sqlite_column-IsBalanced a)))

  pub build_conflict-IsBalanced :
      (d : Dialect) (o : Option (Upsert V E))
      → IsPlainUpsert o
      → IsBalanced (build_conflict models q m d o)
  unfolding build_conflict IsPlainUpsert
  build_conflict-IsBalanced d o h =
      case_of-IsBalanced (λ e. skip-IsBalanced)
        (λ u e. build_upsert-IsBalanced d u (subst IsPlainUpsert e h))
