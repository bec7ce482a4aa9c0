-- ===== src/Orm/Insert.antt =====
-- orm/insert.go and orm/dialect.go: INSERT statements, what they do on a conflict, and chunks. The
-- value of a field of a row comes from package valuer, which reads it by reflection.
use soil.Base.{
  ℕ, zero, suc, Option, none, some, List, [], ◌∷◌, ◌++◌, Bytes, codes, length, take, drop, ◌==◌,
  if◌then◌else◌,
}
use soil.Orm.Builder.{
  unknown_field, no_value, zero_rows, unsupported_assignable, unsupported_upsert, Result, ok, err,
  Field, Model, find_field, M, ◌>>◌, skip, fail, write, add_args, case_of, found, quote, separated,
}
use soil.Orm.Expression.{Column, Expression, col, build_column, build_expression}

-- `Assignable`; `other` is one of another type.
pub data Assignable (V E : Type 0) : Type 0 where
  assignment : Bytes → Expression V E → Assignable V E
  column : Column E → Assignable V E
  other : Assignable V E

pub record Upsert (V E : Type 0) : Type 0 where
  pub conflict_columns : List Bytes
  pub assigns : List (Assignable V E)

pub data Dialect : Type 0 where
  standard mysql sqlite : Dialect

unfoldable pub quoter : Dialect → ℕ
quoter standard = b'"'
quoter mysql = b'`'
quoter sqlite = b'`'

-- `Inserter`
pub record Inserter (T V E : Type 0) : Type 0 where
  pub values : List T
  pub columns : List Bytes
  pub upsert : Option (Upsert V E)

module _ {T V E : Type 0} where
  abbrev pub new_inserter : Inserter T V E
  new_inserter = record { values = []; columns = []; upsert = none }

  -- `Values` and `Columns` add to what is there.
  abbrev pub with_values : List T → Inserter T V E → Inserter T V E
  with_values ts ins = record ins { values = ins.values ++ ts }

  abbrev pub with_columns : List Bytes → Inserter T V E → Inserter T V E
  with_columns cs ins = record ins { columns = ins.columns ++ cs }

  -- `OnDuplicateKey`, `ConflictColumns` and `Update`.
  abbrev pub on_duplicate : List Bytes → List (Assignable V E) → Inserter T V E → Inserter T V E
  on_duplicate conflicts assigns ins = record ins {
    upsert = some (record { conflict_columns = conflicts; assigns = assigns });
  }

module _ {V E : Type 0} (models : E → Option Model) (q : ℕ) (m : Model) where
  unfoldable pub build_assignment : Bytes → Expression V E → M V
  build_assignment name e = do
    build_column models q m (col name)
    write (codes "=")
    build_expression models q m e

  -- The loop over `upsert.assigns`: it returns at the first `Assignment`. `each` writes a column.
  unfoldable pub build_assigns : (Field → M V) → List (Assignable V E) → M V
  unfolding build_assignment
  build_assigns each [] = skip
  build_assigns each (assignment name e ∷ more) = build_assignment name e
  build_assigns each (other ∷ more) = fail unsupported_assignable
  build_assigns each (column c ∷ []) =
      found (find_field c.name m.fields) (unknown_field c.name) each
  build_assigns each (column c ∷ a ∷ more) = do
    found (find_field c.name m.fields) (unknown_field c.name) each
    write (codes ",")
    build_assigns each (a ∷ more)

  unfoldable pub mysql_column : Field → M V
  mysql_column f = do
    quote q f.col_name
    write (codes "=VALUES(")
    quote q f.col_name
    write (codes ")")

  unfoldable pub sqlite_column : Field → M V
  sqlite_column f = do quote q f.col_name; write (codes "=excluded."); quote q f.col_name

  unfoldable pub build_upsert : Dialect → Upsert V E → M V
  unfolding build_assigns mysql_column sqlite_column
  build_upsert standard u = fail unsupported_upsert
  build_upsert mysql u = do
    write (codes " ON DUPLICATE KEY UPDATE ")
    build_assigns mysql_column u.assigns
  build_upsert sqlite u = do
    write (codes " ON CONFLICT(")
    separated (codes ",") (λ name. build_column models q m (col name)) u.conflict_columns
    write (codes ") DO UPDATE SET ")
    build_assigns sqlite_column u.assigns

  unfoldable pub build_conflict : Dialect → Option (Upsert V E) → M V
  unfolding build_upsert
  build_conflict d o = case_of o skip (build_upsert d)

-- The fields that the user named.
unfoldable pub push_field : Bytes → Option Field → Result (List Field) → Result (List Field)
push_field c none r = err (unknown_field c)
push_field c (some f) (err e) = err e
push_field c (some f) (ok fs) = ok (f ∷ fs)

unfoldable pub named_fields : List Field → List Bytes → Result (List Field)
unfolding push_field
named_fields fields [] = ok []
named_fields fields (c ∷ cs) = push_field c (find_field c fields) (named_fields fields cs)

unfoldable pub insert_fields : Model → List Bytes → Result (List Field)
unfolding named_fields
insert_fields m [] = ok m.fields
insert_fields m (c ∷ cs) = named_fields m.fields (c ∷ cs)

module _ {T V : Type 0} (value_of : T → Field → Option V) where
  unfoldable pub build_value : T → Field → M V
  build_value row f = do write (codes "?"); found (value_of row f) no_value (λ v. add_args (v ∷ []))

  unfoldable pub build_row : List Field → T → M V
  unfolding build_value
  build_row fields row = do
    write (codes "(")
    separated (codes ",") (build_value row) fields
    write (codes ")")

  unfoldable pub build_statement :
      {E : Type 0} → (E → Option Model) → Dialect → Model → Inserter T V E → List Field → M V
  unfolding build_row build_conflict quoter
  build_statement models d m ins fields = do
    write (codes "INSERT INTO ")
    quote (quoter d) m.table_name
    write (codes "(")
    separated (codes ",") (λ (f : Field). quote (quoter d) f.col_name) fields
    write (codes ")")
    write (codes " VALUES ")
    separated (codes ",") (build_row fields) ins.values
    build_conflict models (quoter d) m d ins.upsert
    write (codes ";")

  unfoldable pub build_with_fields :
      {E : Type 0}
      → (E → Option Model)
      → Dialect
      → Model
      → Inserter T V E
      → Result (List Field)
      → M V
  unfolding build_statement
  build_with_fields models d m ins (err e) b = err e
  build_with_fields models d m ins (ok fields) b =
      build_statement models d m ins fields (record b { args = [] })

  -- `if len(i.values) == 0`
  unfoldable pub require_rows : List T → M V → M V
  require_rows [] k = fail zero_rows
  require_rows (t ∷ ts) k = k

  -- `Build`: the arguments of an earlier `Build` are dropped, its text is not.
  unfoldable pub build_insert :
      {E : Type 0} → (E → Option Model) → Dialect → Model → Inserter T V E → M V
  unfolding insert_fields build_with_fields require_rows
  build_insert models d m ins =
      require_rows ins.values (build_with_fields models d m ins (insert_fields m ins.columns))

-- `splitChunk` for a size that is positive; each round takes a value at least, so the number of
-- values is enough fuel.
unfoldable pub chunks_from : {T : Type 0} → ℕ → ℕ → List T → List (List T)
chunks_from zero size ts = []
chunks_from (suc fuel) size [] = []
chunks_from (suc fuel) size (t ∷ ts) =
    take size (t ∷ ts) ∷ chunks_from fuel size (drop size (t ∷ ts))

unfoldable pub split_chunk : {T : Type 0} → List T → ℕ → List (List T)
unfolding chunks_from
split_chunk [] size = [] ∷ []
split_chunk (t ∷ ts) size =
    if size == 0 then (t ∷ ts) ∷ [] else chunks_from (length (t ∷ ts)) size (t ∷ ts)
