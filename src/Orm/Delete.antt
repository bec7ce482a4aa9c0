-- ===== src/Orm/Delete.antt =====
-- orm/delete.go: DELETE statements, and the update that a soft delete is.
use soil.Base.{ℕ, Option, List, [], ◌∷◌, Bytes, codes}
use soil.Orm.Builder.{Field, Model, M, ◌>>◌, write, add_args, case_of, quote}
use soil.Orm.Expression.{Predicate, build_user_where, build_where_with_soft_delete}

-- `Deleter`
pub record Deleter (V E : Type 0) : Type 0 where
  pub table_name : Bytes
  pub where_list : List (Predicate V E)

module _ {V E : Type 0} where
  abbrev pub new_deleter : Deleter V E
  new_deleter = record { table_name = []; where_list = [] }

  abbrev pub delete_from : Bytes → Deleter V E → Deleter V E
  delete_from name d = record d { table_name = name }

  abbrev pub delete_where : List (Predicate V E) → Deleter V E → Deleter V E
  delete_where ps d = record d { where_list = ps }

module _ {V E : Type 0} (models : E → Option Model) (q : ℕ) (m : Model) where
  -- What the user gave to `From` is written as it is.
  unfoldable pub write_table : Bytes → M V
  write_table [] = quote q m.table_name
  write_table (c ∷ s) = write (c ∷ s)

  unfoldable pub build_soft_delete : V → Field → Deleter V E → M V
  unfolding write_table
  build_soft_delete now f d = do
    write (codes "UPDATE ")
    write_table d.table_name
    write (codes " SET ")
    quote q f.col_name
    write (codes "=?")
    add_args (now ∷ [])
    build_where_with_soft_delete models q m d.where_list
    write (codes ";")

  unfoldable pub build_hard_delete : Deleter V E → M V
  unfolding write_table
  build_hard_delete d = do
    write (codes "DELETE FROM ")
    write_table d.table_name
    build_user_where models q m (codes " WHERE ") d.where_list
    write (codes ";")

  unfoldable pub build_delete : V → Deleter V E → M V
  unfolding build_soft_delete build_hard_delete
  build_delete now d = case_of m.deleted_at (build_hard_delete d) (λ f. build_soft_delete now f d)
