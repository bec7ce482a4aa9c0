-- ===== src/Orm/Tests.antt =====
-- Runs of the query builders, and the theorems at them. Arguments and rows are numbers.
use soil.Base.{
  ℕ, zero, suc, ◌+◌, ◌≡◌, ◌≢◌, refl, ap, subst, arith, Bool, Option, none, some, List, [], ◌∷◌,
  ◌++◌, Bytes, codes, length, All,
}
use soil.Orm.Builder.{Field, Model, Builder, M, Result, ok, empty, quote}
use soil.Orm.Expression.{
  Table, Column, Expression, Predicate, col, greater, aggregate_less, named_as, table_as, either,
  as_predicate, build_where_with_soft_delete,
}
use soil.Orm.Select.{
  TableRef, Selectable, Selector, from, where_all, select, grouped, having_all, ordered, ascending,
  descending, join_using, new_selector, build_select,
}
use soil.Orm.Insert.{
  Assignable, Inserter, new_inserter, with_values, with_columns, on_duplicate, mysql, build_insert,
}
use soil.Orm.Update.{Updater, new_updater, update, update_where, build_update}
use soil.Orm.Delete.{Deleter, new_deleter, delete_where, build_delete}
use soil.Orm.Marks.{marks, IsPlainModel}
use soil.Orm.Marks.Expressions.{IsPlainColumn, IsPlainTable, IsPlainExpression, IsPlainPredicate}
use soil.Orm.Marks.Queries.{IsPlainSelectable, IsPlainRef, IsPlainSelector, marks-build_select}
use soil.Orm.Marks.Upserts.{IsPlainAssignable, IsPlainUpsert}
use soil.Orm.Marks.Inserts.{marks-build_insert}
use soil.Orm.Marks.Updates.{marks-build_update}
use soil.Orm.Quoting.{IsSeparate, read_quoted, read_quoted-quote}

abbrev quote_mark : ℕ
quote_mark = b'`'

abbrev id_field : Field
id_field = record { col_name = codes "id"; go_name = codes "Id" }

abbrev age_field : Field
age_field = record { col_name = codes "age"; go_name = codes "Age" }

abbrev deleted_field : Field
deleted_field = record { col_name = codes "deleted_at"; go_name = codes "DeletedAt" }

abbrev version_field : Field
version_field = record { col_name = codes "version"; go_name = codes "Version" }

abbrev user : Model
user = record {
  table_name = codes "user";
  fields = id_field ∷ age_field ∷ deleted_field ∷ version_field ∷ [];
  created_at = none;
  updated_at = some age_field;
  deleted_at = some deleted_field;
  version = some version_field;
}

-- All entities are of one model.
abbrev models : ℕ → Option Model
models e = some user

user_plain : IsPlainModel user
unfolding marks
user_plain = record {
  table_name = refl;
  fields = (refl, (refl, (refl, (refl, tt))));
  deleted_at = refl;
  version = refl;
}

model_or : Model → Option Model → Model
model_or m none = m
model_or m (some n) = n

known_plain : (e : ℕ) (meta : Model) → models e ≡ some meta → IsPlainModel meta
unfolding model_or
known_plain e meta h = subst IsPlainModel (ap (model_or user) h) user_plain

mark_is_plain : quote_mark ≢ b'?'
mark_is_plain = ground arith

abbrev older : Predicate ℕ ℕ
older = greater (col (codes "Age")) (Expression.value 18)

abbrev named : Predicate ℕ ℕ
named = as_predicate (codes "`name` = ?") (7 ∷ [])

older_plain : IsPlainPredicate older
unfolding IsPlainExpression IsPlainColumn IsPlainTable marks
older_plain = ((refl, tt), (refl, tt))

named_plain : IsPlainPredicate named
unfolding IsPlainExpression marks
named_plain = (refl, (refl, tt))

abbrev users : Table ℕ
users = record { entity = 0; alias = [] }

abbrev query : Selector ℕ ℕ
query =
    from (join_using (TableRef.table (table_as (codes "u") users)) TableRef.own (codes "Id" ∷ [])) (
      where_all (older ∷ named ∷ []) (
        select
          (Selectable.column (named_as (codes "key") (col (codes "Id")))
            ∷ Selectable.aggregate (codes "COUNT") (codes "Age") []
            ∷ [])
          (grouped (col (codes "Id") ∷ []) (
            having_all (aggregate_less (codes "COUNT") (codes "Age") [] (Expression.value 4) ∷ []) (
              ordered (descending (codes "Id") ∷ ascending (codes "Age") ∷ [])
                (record new_selector { offset = 20; limit = 10 }))))))

abbrev built : Builder ℕ
built = record {
  sql =
      codes
        "SELECT `id` AS `key`,COUNT(`age`) FROM (`user` AS `u` JOIN `user` USING (`id`)) WHERE `deleted_at` IS NULL AND (`age` > ?) AND ((`name` = ?)) GROUP BY `id` HAVING COUNT(`age`) < ? ORDER BY `id` DESC,`age` ASC LIMIT ? OFFSET ?;";
  args = 18 ∷ 7 ∷ 4 ∷ 10 ∷ 20 ∷ [];
}

select_runs : build_select models quote_mark user (λ n. n) query (empty ℕ) ≡ ok built
unfolding build_select soil.Orm.Builder.separated soil.Orm.Builder.◌>>◌ soil.Orm.Builder.write
    soil.Orm.Expression.build_column soil.Orm.Builder.case_of soil.Orm.Builder.find_field
    soil.Base.same quote soil.Orm.Expression.build_aggregate soil.Orm.Builder.skip
    build_where_with_soft_delete soil.Orm.Builder.add_args soil.Orm.Builder.doubled
select_runs = refl

query_plain : IsPlainSelector query
unfolding IsPlainRef IsPlainExpression IsPlainSelectable IsPlainColumn IsPlainTable marks
query_plain = record {
  source = (refl, (refl, (tt, tt)));
  where_list = (older_plain, (named_plain, tt));
  columns = ((refl, tt), ((refl, refl), tt));
  group_by = ((refl, tt), tt);
  having = (((refl, refl), (refl, tt)), tt);
  order_by = (refl, (refl, tt));
}

marks-build_select_example : marks built.sql ≡ length built.args
marks-build_select_example =
    marks-build_select models quote_mark user mark_is_plain user_plain known_plain (λ n. n) query
      built query_plain select_runs

-- The second condition is not bound to the deleted rows: `OR` binds less than `AND`.
abbrev either_built : Builder ℕ
either_built = record {
  sql = codes " WHERE `deleted_at` IS NULL AND (`age` > ?) OR ((`name` = ?))";
  args = 18 ∷ 7 ∷ [];
}

either_text :
    build_where_with_soft_delete models quote_mark user (either older named ∷ []) (empty ℕ)
    ≡ ok either_built
unfolding soil.Orm.Builder.◌>>◌ soil.Orm.Builder.write soil.Orm.Expression.build_column
    soil.Orm.Builder.case_of soil.Orm.Builder.find_field soil.Base.same quote
    soil.Orm.Expression.build_aggregate soil.Orm.Builder.skip build_where_with_soft_delete
    soil.Orm.Builder.add_args soil.Orm.Builder.doubled
either_text = refl

abbrev ins : Inserter ℕ ℕ ℕ
ins =
    on_duplicate []
      (Assignable.column (col (codes "Id"))
        ∷ Assignable.assignment (codes "Age") (Expression.value 9)
        ∷ Assignable.column (col (codes "Id"))
        ∷ [])
      (with_columns (codes "Id" ∷ codes "Age" ∷ []) (with_values (1 ∷ 2 ∷ []) new_inserter))

abbrev inserted : Builder ℕ
inserted = record {
  sql =
      codes
        "INSERT INTO `user`(`id`,`age`) VALUES (?,?),(?,?) ON DUPLICATE KEY UPDATE `id`=VALUES(`id`),`age`=?;";
  args = 1 ∷ 1 ∷ 2 ∷ 2 ∷ 9 ∷ [];
}

ins_built : build_insert (λ row f. some row) models mysql user ins (empty ℕ) ≡ ok inserted
unfolding build_insert soil.Orm.Builder.separated soil.Orm.Expression.build_expression
    soil.Orm.Builder.◌>>◌ soil.Orm.Builder.write soil.Orm.Expression.build_column
    soil.Orm.Builder.case_of soil.Orm.Builder.find_field soil.Base.same quote
    soil.Orm.Expression.build_aggregate soil.Orm.Builder.skip build_where_with_soft_delete
    soil.Orm.Builder.add_args soil.Orm.Builder.doubled
ins_built = refl

ins_plain : IsPlainUpsert ins.upsert
unfolding IsPlainUpsert IsPlainAssignable IsPlainExpression
ins_plain = (tt, (tt, (tt, tt)))

marks-build_insert_example : marks inserted.sql ≡ length inserted.args
marks-build_insert_example =
    marks-build_insert (λ row f. some row) models mysql user user_plain known_plain ins inserted
      ins_plain ins_built

abbrev upd : Updater ℕ ℕ ℕ
upd = update 5 (update_where (older ∷ []) new_updater)

abbrev updated : Builder ℕ
updated = record {
  sql =
      codes
        "UPDATE `user` SET `id`=?,`age`=?,`deleted_at`=?,`version`=`version`+1 WHERE `deleted_at` IS NULL AND `age` > ? AND `version`=?;";
  args = 5 ∷ 5 ∷ 5 ∷ 18 ∷ 3 ∷ [];
}

upd_built :
    build_update models quote_mark user (λ t name. some t) (λ t f. some 3) upd (empty ℕ)
    ≡ ok updated
unfolding build_update soil.Orm.Builder.separated soil.Orm.Builder.◌>>◌ soil.Orm.Builder.write
    soil.Orm.Expression.build_column soil.Orm.Builder.case_of soil.Orm.Builder.find_field
    soil.Base.same quote soil.Orm.Expression.build_aggregate soil.Orm.Builder.skip
    build_where_with_soft_delete soil.Orm.Builder.add_args soil.Orm.Builder.doubled
upd_built = refl

marks-build_update_example : marks updated.sql ≡ length updated.args
marks-build_update_example =
    marks-build_update models quote_mark user (λ t name. some t) (λ t f. some 3) mark_is_plain
      user_plain known_plain upd updated tt (older_plain, tt) upd_built

abbrev del : Deleter ℕ ℕ
del = delete_where (older ∷ []) new_deleter

abbrev deleted : Builder ℕ
deleted = record {
  sql = codes "UPDATE `user` SET `deleted_at`=? WHERE `deleted_at` IS NULL AND `age` > ?;";
  args = 77 ∷ 18 ∷ [];
}

del_built : build_delete models quote_mark user 77 del (empty ℕ) ≡ ok deleted
unfolding build_delete soil.Orm.Builder.◌>>◌ soil.Orm.Builder.write soil.Orm.Expression.build_column
    soil.Orm.Builder.case_of soil.Orm.Builder.find_field soil.Base.same quote
    soil.Orm.Expression.build_aggregate soil.Orm.Builder.skip build_where_with_soft_delete
    soil.Orm.Builder.add_args soil.Orm.Builder.doubled
del_built = refl

-- A name with quoting bytes in it.
abbrev evil : Bytes
evil = codes "id`; DROP"

abbrev evil_built : Builder ℕ
evil_built = record { sql = codes "`id``; DROP`"; args = [] }

evil_quoted : quote quote_mark evil (empty ℕ) ≡ ok evil_built
unfolding soil.Orm.Builder.◌>>◌ soil.Orm.Builder.write soil.Orm.Expression.build_column
    soil.Orm.Builder.case_of soil.Orm.Builder.find_field soil.Base.same quote
    soil.Orm.Expression.build_aggregate soil.Orm.Builder.skip build_where_with_soft_delete
    soil.Orm.Builder.add_args soil.Orm.Builder.doubled
evil_quoted = refl

read_quoted-quote_example :
    read_quoted quote_mark (evil_built.sql ++ codes " = ?") ≡ some (evil, codes " = ?")
unfolding IsSeparate
read_quoted-quote_example =
    read_quoted-quote quote_mark evil (codes " = ?") evil_built (ground arith) evil_quoted

abbrev ages : List (Assignable ℕ ℕ)
ages = Assignable.assignment (codes "Id") (Expression.value 1) ∷ []
