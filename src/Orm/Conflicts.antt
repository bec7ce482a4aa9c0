-- ===== src/Orm/Conflicts.antt =====
-- orm/dialect.go and orm/updater.go: which assignments a statement has.
use soil.Base.{ℕ, ◌≡◌, refl, Option, List, [], ◌∷◌, ◌++◌, Bytes, codes}
use soil.Orm.Builder.{
  Field, Model, Builder, M, Result, ok, err, and_then, ◌>>◌, write, find_field, found,
  unknown_field,
}
use soil.Orm.Expression.{Expression}
use soil.Orm.Insert.{
  Assignable, assignment, column, Dialect, standard, mysql, sqlite, other, build_assigns,
  mysql_column, sqlite_column, build_upsert,
}

and_then-cong :
    {V : Type 0} (r : Result (Builder V)) (k k' : M V)
    → ((b : Builder V) → k b ≡ k' b)
    → and_then r k ≡ and_then r k'
unfolding and_then
and_then-cong (ok b) k k' h = h b
and_then-cong (err e) k k' h = refl

module _ {V E : Type 0} (models : E → Option Model) (q : ℕ) (m : Model) where
  -- Steps that agree behind the same beginning agree.
  then_same :
      (x y k k' : M V)
      → ((b : Builder V) → k b ≡ k' b)
      → (b : Builder V) → (x >> (y >> k)) b ≡ (x >> (y >> k')) b
  unfolding ◌>>◌
  then_same x y k k' h b = and_then-cong (x b) (y >> k) (y >> k') (λ c. and_then-cong (y c) k k' h)

  then_one :
      (x k k' : M V) → ((b : Builder V) → k b ≡ k' b) → (b : Builder V) → (x >> k) b ≡ (x >> k') b
  unfolding ◌>>◌
  then_one x k k' h b = and_then-cong (x b) k k' h

  build_assigns-first :
      (each : Field → M V) (before after : List (Assignable V E)) (name : Bytes)
      (e : Expression V E) (b : Builder V)
      → build_assigns models q m each (before ++ (assignment name e ∷ after)) b
        ≡ build_assigns models q m each (before ++ (assignment name e ∷ [])) b
  unfolding build_assigns
  build_assigns-first each [] after name e b = refl
  build_assigns-first each (assignment n x ∷ before) after name e b = refl
  build_assigns-first each (other ∷ before) after name e b = refl
  build_assigns-first each (column c ∷ []) after name e b = refl
  build_assigns-first each (column c ∷ a ∷ before) after name e b =
      then_same (found (find_field c.name m.fields) (unknown_field c.name) each) (write (codes ","))
        _ _ (λ d. build_assigns-first each (a ∷ before) after name e d) b

  -- The clause on conflicts ends with the first assignment: whatever assignments and columns the
  -- caller has put behind it are not in the statement, in any dialect.
  pub build_upsert-first :
      (d : Dialect) (conflicts : List Bytes) (before after : List (Assignable V E)) (name : Bytes)
      (e : Expression V E) (b : Builder V)
      → build_upsert models q m d
          (record { conflict_columns = conflicts; assigns = before ++ (assignment name e ∷ after) })
          b
        ≡ build_upsert models q m d
            (record { conflict_columns = conflicts; assigns = before ++ (assignment name e ∷ []) })
            b
  unfolding build_upsert
  build_upsert-first standard conflicts before after name e b = refl
  build_upsert-first mysql conflicts before after name e b =
      then_one _ _ _ (λ c. build_assigns-first (mysql_column models q m) before after name e c) b
  build_upsert-first sqlite conflicts before after name e b =
      then_one _ _ _
        (λ c.
          then_same _ _ _ _
            (λ d. build_assigns-first (sqlite_column models q m) before after name e d) c)
        b
