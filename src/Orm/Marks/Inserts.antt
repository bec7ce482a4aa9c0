-- ===== src/Orm/Marks/Inserts.antt =====
-- orm/insert.go: a placeholder for each argument of an INSERT.
use soil.Base.{
  All-map, ◌≡◌, ◌≢◌, refl, subst, arith, Option, none, some, List, [], ◌∷◌, Bytes, codes, length,
  All,
}
use soil.Orm.Builder.{
  Field, Model, Builder, M, Result, ok, err, ok_injective, fail, quote, empty, no_value,
}
use soil.Orm.Insert.{
  Dialect, standard, mysql, sqlite, quoter, Inserter, push_field, named_fields, insert_fields,
  require_rows, build_with_fields, build_value, build_row, build_statement, build_insert,
}
use soil.Orm.Marks.{marks, IsPlainField, IsPlainModel, IsBalanced}
use soil.Orm.Marks.Steps.{
  write-IsBalanced, seq-IsBalanced, mark-found-IsBalanced, quote-IsBalanced, separated-IsBalanced,
  All-always, balanced-empty,
}
use soil.Orm.Marks.Expressions.{find_field-IsPlain}
use soil.Orm.Marks.Upserts.{IsPlainUpsert, build_conflict-IsBalanced}

push_field-IsPlain :
    (c : Bytes) (o : Option Field) (r : Result (List Field)) (fs : List Field)
    → ((f : Field) → o ≡ some f → IsPlainField f)
    → ((gs : List Field) → r ≡ ok gs → All IsPlainField gs)
    → push_field c o r ≡ ok fs
    → All IsPlainField fs
unfolding push_field
push_field-IsPlain c none r fs v w e = absurd (ground arith)
push_field-IsPlain c (some f) (err x) fs v w e = absurd (ground arith)
push_field-IsPlain c (some f) (ok gs) fs v w e =
    subst (All IsPlainField) (ok_injective e) (v f refl, w gs refl)

named_fields-IsPlain :
    (fields : List Field) (cs : List Bytes) (fs : List Field)
    → All IsPlainField fields
    → named_fields fields cs ≡ ok fs
    → All IsPlainField fs
unfolding named_fields
named_fields-IsPlain fields [] fs a e = subst (All IsPlainField) (ok_injective e) tt
named_fields-IsPlain fields (c ∷ cs) fs a e =
    push_field-IsPlain c _ _ fs (λ f k. find_field-IsPlain c fields f a k)
      (λ gs k. named_fields-IsPlain fields cs gs a k) e

insert_fields-IsPlain :
    (m : Model) (cs : List Bytes) (fs : List Field)
    → IsPlainModel m
    → insert_fields m cs ≡ ok fs
    → All IsPlainField fs
unfolding insert_fields
insert_fields-IsPlain m [] fs pm e = subst (All IsPlainField) (ok_injective e) pm.fields
insert_fields-IsPlain m (c ∷ cs) fs pm e = named_fields-IsPlain m.fields (c ∷ cs) fs pm.fields e

require_rows_inv :
    {T V : Type 0} (value_of : T → Field → Option V) (ts : List T) (k : M V) (b : Builder V)
    → require_rows value_of ts k (empty V) ≡ ok b
    → k (empty V) ≡ ok b
unfolding require_rows fail
require_rows_inv value_of [] k b e = absurd (ground arith)
require_rows_inv value_of (t ∷ ts) k b e = e

quoter_plain : (d : Dialect) → quoter d ≢ b'?'
unfolding quoter
quoter_plain standard = ground arith
quoter_plain mysql = ground arith
quoter_plain sqlite = ground arith

module _ {T V : Type 0} (value_of : T → Field → Option V) where
  build_row-IsBalanced :
      (fields : List Field) (row : T) → IsBalanced (build_row value_of fields row)
  unfolding build_row build_value marks
  build_row-IsBalanced fields row = seq-IsBalanced (write-IsBalanced (codes "(") refl) (
      seq-IsBalanced
        (separated-IsBalanced (codes ",") (build_value value_of row) fields refl (
          All-always (λ f. mark-found-IsBalanced (codes "?") (value_of row f) no_value refl)
            fields))
        (write-IsBalanced (codes ")") refl))

  module _ {E : Type 0} (models : E → Option Model) (d : Dialect) (m : Model) (pm : IsPlainModel m)
      (known : (e : E) (meta : Model) → models e ≡ some meta → IsPlainModel meta) where
    build_statement-IsBalanced :
        (ins : Inserter T V E) (fields : List Field)
        → All IsPlainField fields
        → IsPlainUpsert ins.upsert
        → IsBalanced (build_statement value_of models d m ins fields)
    unfolding build_statement marks
    build_statement-IsBalanced ins fields a h =
        let n = quoter_plain d in
        seq-IsBalanced (write-IsBalanced (codes "INSERT INTO ") refl) (
          seq-IsBalanced (quote-IsBalanced (quoter d) m.table_name n pm.table_name) (
            seq-IsBalanced (write-IsBalanced (codes "(") refl) (
              seq-IsBalanced
                (separated-IsBalanced (codes ",") (λ (f : Field). quote (quoter d) f.col_name)
                  fields refl
                  (All-map (λ f k. quote-IsBalanced (quoter d) f.col_name n k) fields a))
                (seq-IsBalanced (write-IsBalanced (codes ")") refl) (
                  seq-IsBalanced (write-IsBalanced (codes " VALUES ") refl) (
                    seq-IsBalanced
                      (separated-IsBalanced (codes ",") (build_row value_of fields) ins.values refl
                        (All-always (λ row. build_row-IsBalanced fields row) ins.values))
                      (seq-IsBalanced
                        (build_conflict-IsBalanced models (quoter d) m n pm known d ins.upsert h)
                        (write-IsBalanced (codes ";") refl))))))))

    marks-build_with_fields :
        (ins : Inserter T V E) (r : Result (List Field)) (b : Builder V)
        → ((fs : List Field) → r ≡ ok fs → All IsPlainField fs)
        → IsPlainUpsert ins.upsert
        → build_with_fields value_of models d m ins r (empty V) ≡ ok b
        → marks b.sql ≡ length b.args
    unfolding build_with_fields
    marks-build_with_fields ins (err x) b w h e = absurd (ground arith)
    marks-build_with_fields ins (ok fs) b w h e =
        balanced-empty (build_statement-IsBalanced ins fs (w fs refl) h) b e

    -- An INSERT has a placeholder for each of its arguments, with any upsert, if the names that it is
    -- built from are free of question marks, and each raw expression that the upsert assigns has one for
    -- each of its own arguments.
    pub marks-build_insert :
        (ins : Inserter T V E) (b : Builder V)
        → IsPlainUpsert ins.upsert
        → build_insert value_of models d m ins (empty V) ≡ ok b
        → marks b.sql ≡ length b.args
    unfolding build_insert
    marks-build_insert ins b h e =
        marks-build_with_fields ins (insert_fields m ins.columns) b
          (λ fs k. insert_fields-IsPlain m ins.columns fs pm k) h
          (require_rows_inv value_of ins.values _ b e)
