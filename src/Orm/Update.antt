-- ===== src/Orm/Update.antt =====
-- orm/updater.go: UPDATE statements, with the optimistic lock. The value of a field of the instance
-- comes from package valuer, its version from reflection.
use soil.Base.{
  ℕ, Bool, true, false, not, ◌&&◌, ◌||◌, Option, none, some, List, [], ◌∷◌, ◌++◌, Bytes, codes,
  same, if◌then◌else◌, is_some,
}
use soil.Orm.Builder.{
  no_value, nothing_to_set, Field, Model, M, ◌>>◌, skip, fail, write, add_args, case_of, found,
  quote, separated,
}
use soil.Orm.Expression.{Predicate, Expression, col, build_column, build_where_with_soft_delete}
use soil.Orm.Insert.{Assignable, assignment, column, other, build_assignment}

-- `Updater`, `val` the instance of `Update(val)`.
pub record Updater (T V E : Type 0) : Type 0 where
  pub assigns : List (Assignable V E)
  pub val : Option T
  pub where_list : List (Predicate V E)

module _ {T V E : Type 0} where
  abbrev pub new_updater : Updater T V E
  new_updater = record { assigns = []; val = none; where_list = [] }

  abbrev pub set : List (Assignable V E) → Updater T V E → Updater T V E
  set assigns u = record u { assigns = assigns }

  abbrev pub update : T → Updater T V E → Updater T V E
  update val u = record u { val = some val }

  abbrev pub update_where : List (Predicate V E) → Updater T V E → Updater T V E
  update_where ps u = record u { where_list = ps }

module _ {V E : Type 0} where
  -- Whether an assignment names a field.
  unfoldable pub names : Bytes → Assignable V E → Bool
  names field (assignment name e) = same name field
  names field (column c) = same c.name field
  names field other = false

  unfoldable pub any_names : Bytes → List (Assignable V E) → Bool
  any_names field [] = false
  any_names field (a ∷ rest) = names field a || any_names field rest

  unfoldable pub version_column_explicitly_set : Model → List (Assignable V E) → Bool
  unfolding any_names names
  version_column_explicitly_set m assigns = elim m.version [
    | none ↦ false
    | some f ↦ any_names f.go_name assigns
  ]

  unfoldable pub stamp : Option Field → V → List (Assignable V E) → List (Assignable V E)
  unfolding any_names names
  stamp none now assigns = assigns
  stamp (some f) now assigns =
      if any_names f.go_name assigns
      then assigns
      else assigns ++ (assignment f.go_name (Expression.value now) ∷ [])

  -- What `Exec` adds to the assignments, if there are any: the update time, unless it is set already.
  unfoldable pub stamped : Model → V → List (Assignable V E) → List (Assignable V E)
  unfolding stamp
  stamped m now [] = []
  stamped m now (a ∷ assigns) = stamp m.updated_at now (a ∷ assigns)

-- The fields that a whole instance sets: all but the version.
unfoldable pub plain_fields : Option Field → List Field → List Field
plain_fields none fs = fs
plain_fields (some v) [] = []
plain_fields (some v) (f ∷ fs) =
    let rest = plain_fields (some v) fs in if same f.go_name v.go_name then rest else f ∷ rest

module _ {T V E : Type 0} (models : E → Option Model) (q : ℕ) (m : Model)
    (value_of : T → Bytes → Option V) (version_of : T → Field → Option V) where
  -- `version=version+1`
  unfoldable pub build_increment : Field → M V
  build_increment f = do
    quote q f.col_name
    write (codes "=")
    quote q f.col_name
    write (codes "+1")

  unfoldable pub build_set_field : T → Bytes → M V
  build_set_field val name = do
    build_column models q m (col name)
    write (codes "=?")
    found (value_of val name) no_value (λ v. add_args (v ∷ []))

  -- A column that is assigned: its value is read before anything is written.
  unfoldable pub build_set_column : T → Bytes → M V
  build_set_column val name =
      found (value_of val name) no_value
        (λ v. do build_column models q m (col name); write (codes "=?"); add_args (v ∷ []))

  -- Nothing is written for an `Assignable` of another type. A column without an instance is an error
  -- or a fault of package valuer, which is an error here.
  unfoldable pub build_set : Option T → Assignable V E → M V
  unfolding build_set_column
  build_set val (assignment name e) = build_assignment models q m name e
  build_set none (column c) = fail no_value
  build_set (some val) (column c) = build_set_column val c.name
  build_set val other = skip

  unfoldable pub build_version_set : Option T → List (Assignable V E) → M V
  unfolding build_increment version_column_explicitly_set
  build_version_set val assigns = case_of m.version skip (λ f.
      if is_some val && not (version_column_explicitly_set m assigns)
      then (write (codes ",") >> build_increment f)
      else skip)

  -- The version behind the fields of a whole instance; a comma only if there are fields.
  unfoldable pub build_last_set : List Field → M V
  unfolding build_increment
  build_last_set [] = case_of m.version skip build_increment
  build_last_set (f ∷ fs) = case_of m.version skip (λ v. write (codes ",") >> build_increment v)

  unfoldable pub build_sets : Option T → List (Assignable V E) → M V
  unfolding build_set build_set_field build_version_set build_last_set plain_fields
  build_sets val (a ∷ assigns) = do
    write (codes " SET ")
    separated (codes ",") (build_set val) (a ∷ assigns)
    build_version_set val (a ∷ assigns)
  build_sets none [] = fail nothing_to_set
  build_sets (some val) [] = do
    write (codes " SET ")
    separated (codes ",") (λ (f : Field). build_set_field val f.go_name)
        (plain_fields m.version m.fields)
    build_last_set (plain_fields m.version m.fields)

  -- `hasWhere`
  unfoldable pub has_where : List (Predicate V E) → Bool
  has_where [] = is_some m.deleted_at
  has_where (p ∷ ps) = true

  unfoldable pub build_version_where : Option T → List (Predicate V E) → M V
  unfolding has_where
  build_version_where none ps = skip
  build_version_where (some val) ps = case_of m.version skip (λ f. do
    write (if has_where ps then codes " AND " else codes " WHERE ")
    quote q f.col_name
    write (codes "=?")
    found (version_of val f) no_value (λ v. add_args (v ∷ [])))

  unfoldable pub build_update : Updater T V E → M V
  unfolding build_sets build_version_where
  build_update u = do
    write (codes "UPDATE ")
    quote q m.table_name
    build_sets u.val u.assigns
    build_where_with_soft_delete models q m u.where_list
    build_version_where u.val u.where_list
    write (codes ";")
