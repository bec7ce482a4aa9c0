-- ===== src/Orm/Marks/Updates.antt =====
-- orm/updater.go and orm/delete.go: a placeholder for each argument of an UPDATE and of a DELETE.
use soil.Base.{
  All-map, ℕ, ◌≡◌, ◌≢◌, refl, subst, Option, none, some, List, [], ◌∷◌, Bytes, codes, length, All,
  by_cases, if◌then◌else◌, same,
}
use soil.Orm.Builder.{Field, Model, Builder, ok, ◌>>◌, write, empty, no_value}
use soil.Orm.Expression.{Predicate}
use soil.Orm.Insert.{Assignable, assignment, column, other}
use soil.Orm.Update.{
  Updater, plain_fields, build_increment, build_set_field, build_set_column, build_set,
  build_version_set, build_last_set, build_sets, has_where, build_version_where, build_update,
}
use soil.Orm.Delete.{Deleter, write_table, build_soft_delete, build_hard_delete, build_delete}
use soil.Orm.Marks.{marks, IsPlain, IsPlainField, IsPlainOption, IsPlainModel, IsBalanced}
use soil.Orm.Marks.Steps.{
  skip-IsBalanced, fail-IsBalanced, write-IsBalanced, seq-IsBalanced, mark-IsBalanced,
  mark-found-IsBalanced, mark-then-IsBalanced, case_of-IsBalanced, quote-IsBalanced,
  separated-IsBalanced, All-always, balanced-empty,
}
use soil.Orm.Marks.Expressions.{
  IsPlainPredicate, named-IsBalanced, build_user_where-IsBalanced, build_where-IsBalanced,
}
use soil.Orm.Marks.Upserts.{IsPlainAssignable, build_assignment-IsBalanced}

module _ {V E : Type 0} (models : E → Option Model) (q : ℕ) (m : Model) (n : q ≢ b'?')
    (pm : IsPlainModel m)
    (known : (e : E) (meta : Model) → models e ≡ some meta → IsPlainModel meta) where
  write_table-IsBalanced : (s : Bytes) → IsPlain s → IsBalanced {V = V} (write_table models q m s)
  unfolding write_table
  write_table-IsBalanced [] h = quote-IsBalanced q m.table_name n pm.table_name
  write_table-IsBalanced (c ∷ s) h = write-IsBalanced (c ∷ s) h

  build_soft_delete-IsBalanced :
      (now : V) (f : Field) (d : Deleter V E)
      → IsPlainField f
      → IsPlain d.table_name
      → All IsPlainPredicate d.where_list
      → IsBalanced (build_soft_delete models q m now f d)
  unfolding build_soft_delete marks
  build_soft_delete-IsBalanced now f d k h a =
      seq-IsBalanced (write-IsBalanced (codes "UPDATE ") refl) (
        seq-IsBalanced (write_table-IsBalanced d.table_name h) (
          seq-IsBalanced (write-IsBalanced (codes " SET ") refl) (
            seq-IsBalanced (quote-IsBalanced q f.col_name n k) (
              mark-then-IsBalanced (codes "=?") (now ∷ []) _ refl (
                seq-IsBalanced (build_where-IsBalanced models q m n pm known d.where_list a)
                  (write-IsBalanced (codes ";") refl))))))

  build_hard_delete-IsBalanced :
      (d : Deleter V E)
      → IsPlain d.table_name
      → All IsPlainPredicate d.where_list
      → IsBalanced (build_hard_delete models q m d)
  unfolding build_hard_delete marks
  build_hard_delete-IsBalanced d h a =
      seq-IsBalanced (write-IsBalanced (codes "DELETE FROM ") refl) (
        seq-IsBalanced (write_table-IsBalanced d.table_name h) (
          seq-IsBalanced
            (build_user_where-IsBalanced models q m n pm known (codes " WHERE ") d.where_list refl
              a)
            (write-IsBalanced (codes ";") refl)))

  -- A DELETE, soft or not, that is built with plain names has a placeholder for each of its arguments.
  pub marks-build_delete :
      (now : V) (d : Deleter V E) (b : Builder V)
      → IsPlain d.table_name
      → All IsPlainPredicate d.where_list
      → build_delete models q m now d (empty V) ≡ ok b
      → marks b.sql ≡ length b.args
  unfolding build_delete
  marks-build_delete now d b h a e =
      balanced-empty
        (case_of-IsBalanced {o = m.deleted_at} (λ e'. build_hard_delete-IsBalanced d h a)
          (λ f e'. build_soft_delete-IsBalanced now f d (subst IsPlainOption e' pm.deleted_at) h a))
        b e

plain_fields-IsPlain :
    (v : Option Field) (fs : List Field)
    → All IsPlainField fs
    → All IsPlainField (plain_fields v fs)
unfolding plain_fields
plain_fields-IsPlain none fs a = a
plain_fields-IsPlain (some v) [] a = tt
plain_fields-IsPlain (some v) (f ∷ fs) a =
    let rest = plain_fields-IsPlain (some v) fs a.1 in
    by_cases (All IsPlainField) (same f.go_name v.go_name) _ _ (λ e. rest) (λ e. (a.0, rest))

module _ {T V E : Type 0} (models : E → Option Model) (q : ℕ) (m : Model)
    (value_of : T → Bytes → Option V) (version_of : T → Field → Option V) (n : q ≢ b'?')
    (pm : IsPlainModel m)
    (known : (e : E) (meta : Model) → models e ≡ some meta → IsPlainModel meta) where
  build_increment-IsBalanced :
      (f : Field) → IsPlainField f → IsBalanced (build_increment models q m value_of version_of f)
  unfolding build_increment marks
  build_increment-IsBalanced f h =
      let quoted = quote-IsBalanced q f.col_name n h in
      seq-IsBalanced quoted (
        seq-IsBalanced (write-IsBalanced (codes "=") refl)
          (seq-IsBalanced quoted (write-IsBalanced (codes "+1") refl)))

  build_set_field-IsBalanced :
      (val : T) (name : Bytes)
      → IsBalanced (build_set_field models q m value_of version_of val name)
  unfolding build_set_field marks
  build_set_field-IsBalanced val name =
      seq-IsBalanced (named-IsBalanced models q m n pm known name)
        (mark-found-IsBalanced (codes "=?") (value_of val name) no_value refl)

  build_set_column-IsBalanced :
      (val : T) (name : Bytes)
      → IsBalanced (build_set_column models q m value_of version_of val name)
  unfolding build_set_column marks
  build_set_column-IsBalanced val name =
      case_of-IsBalanced (λ e. fail-IsBalanced no_value)
        (λ v e.
          seq-IsBalanced (named-IsBalanced models q m n pm known name)
            (mark-IsBalanced (codes "=?") (v ∷ []) refl))

  build_set-IsBalanced :
      (val : Option T) (a : Assignable V E)
      → IsPlainAssignable a
      → IsBalanced (build_set models q m value_of version_of val a)
  unfolding build_set IsPlainAssignable
  build_set-IsBalanced val (assignment name e) h =
      build_assignment-IsBalanced models q m n pm known name e h
  build_set-IsBalanced none (column c) h = fail-IsBalanced _
  build_set-IsBalanced (some val) (column c) h = build_set_column-IsBalanced val c.name
  build_set-IsBalanced none other h = skip-IsBalanced
  build_set-IsBalanced (some val) other h = skip-IsBalanced

  comma_increment :
      (f : Field)
      → m.version ≡ some f
      → IsBalanced (write (codes ",") >> build_increment models q m value_of version_of f)
  unfolding marks
  comma_increment f e =
      seq-IsBalanced (write-IsBalanced (codes ",") refl)
        (build_increment-IsBalanced f (subst IsPlainOption e pm.version))

  build_version_set-IsBalanced :
      (val : Option T) (assigns : List (Assignable V E))
      → IsBalanced (build_version_set models q m value_of version_of val assigns)
  unfolding build_version_set
  build_version_set-IsBalanced val assigns =
      case_of-IsBalanced (λ e. skip-IsBalanced)
        (λ f e. by_cases IsBalanced _ _ _ (λ t. comma_increment f e) (λ t. skip-IsBalanced))

  build_last_set-IsBalanced :
      (fs : List Field) → IsBalanced (build_last_set models q m value_of version_of fs)
  unfolding build_last_set
  build_last_set-IsBalanced [] =
      case_of-IsBalanced (λ e. skip-IsBalanced)
        (λ f e. build_increment-IsBalanced f (subst IsPlainOption e pm.version))
  build_last_set-IsBalanced (f ∷ fs) =
      case_of-IsBalanced (λ e. skip-IsBalanced) (λ v e. comma_increment v e)

  build_sets-IsBalanced :
      (val : Option T) (assigns : List (Assignable V E))
      → All IsPlainAssignable assigns
      → IsBalanced (build_sets models q m value_of version_of val assigns)
  unfolding build_sets marks
  build_sets-IsBalanced val (x ∷ assigns) a =
      seq-IsBalanced (write-IsBalanced (codes " SET ") refl) (
        seq-IsBalanced
          (separated-IsBalanced (codes ",") (build_set models q m value_of version_of val)
            (x ∷ assigns) refl (All-map (build_set-IsBalanced val) (x ∷ assigns) a))
          (build_version_set-IsBalanced val (x ∷ assigns)))
  build_sets-IsBalanced none [] a = fail-IsBalanced _
  build_sets-IsBalanced (some val) [] a = seq-IsBalanced (write-IsBalanced (codes " SET ") refl) (
      seq-IsBalanced
        (separated-IsBalanced (codes ",") _ (plain_fields m.version m.fields) refl (
          All-always (λ (f : Field). build_set_field-IsBalanced val f.go_name)
            (plain_fields m.version m.fields)))
        (build_last_set-IsBalanced (plain_fields m.version m.fields)))

  joiner-IsPlain :
      (ps : List (Predicate V E))
      → IsPlain
          (if has_where models q m value_of version_of ps then codes " AND " else codes " WHERE ")
  unfolding marks
  joiner-IsPlain ps =
      by_cases IsPlain (has_where models q m value_of version_of ps) (codes " AND ")
        (codes " WHERE ") (λ e. refl) (λ e. refl)

  build_version_where-IsBalanced :
      (val : Option T) (ps : List (Predicate V E))
      → IsBalanced (build_version_where models q m value_of version_of val ps)
  unfolding build_version_where marks
  build_version_where-IsBalanced none ps = skip-IsBalanced
  build_version_where-IsBalanced (some val) ps =
      case_of-IsBalanced (λ e. skip-IsBalanced)
        (λ f e. seq-IsBalanced (write-IsBalanced _ (joiner-IsPlain ps)) (
          seq-IsBalanced (quote-IsBalanced q f.col_name n (subst IsPlainOption e pm.version))
            (mark-found-IsBalanced (codes "=?") (version_of val f) no_value refl)))

  -- An UPDATE has a placeholder for each of its arguments, also where the version of the optimistic lock
  -- is one of them, if the names that it is built from are free of question marks, and each raw
  -- expression in its assignments and conditions has one for each of its own arguments.
  pub marks-build_update :
      (u : Updater T V E) (b : Builder V)
      → All IsPlainAssignable u.assigns
      → All IsPlainPredicate u.where_list
      → build_update models q m value_of version_of u (empty V) ≡ ok b
      → marks b.sql ≡ length b.args
  unfolding build_update marks
  marks-build_update u b h a e =
      balanced-empty
        (seq-IsBalanced (write-IsBalanced (codes "UPDATE ") refl) (
          seq-IsBalanced (quote-IsBalanced q m.table_name n pm.table_name) (
            seq-IsBalanced (build_sets-IsBalanced u.val u.assigns h) (
              seq-IsBalanced (build_where-IsBalanced models q m n pm known u.where_list a) (
                seq-IsBalanced (build_version_where-IsBalanced u.val u.where_list)
                  (write-IsBalanced (codes ";") refl))))))
        b e
