-- ===== src/Orm/Marks.antt =====
-- orm: the placeholders of a query and its arguments.
pub mod Steps
pub mod Expressions
pub mod Queries
pub mod Upserts
pub mod Inserts
pub mod Updates
use soil.Base.{
  ℕ, ◌+◌, ◌≡◌, ◌≢◌, refl, arith, true, Option, none, some, List, [], ◌∷◌, ◌++◌, Bytes, ◌==◌,
  if◌then◌else◌, length, All,
}
use soil.Orm.Builder.{Field, Model, Builder, M, Result, ok}

-- How many placeholders a text has.
unfoldable pub marks : Bytes → ℕ
marks [] = 0
marks (c ∷ s) = (if c == b'?' then 1 else 0) + marks s

pub marks-append : (s t : Bytes) → marks (s ++ t) ≡ marks s + marks t
unfolding marks
marks-append [] t = omega arith
marks-append (c ∷ s) t = omega (arith, marks-append s t)

-- Of a name that is written into a query: there is no question mark in it.
abbrev pub IsPlain : Bytes → Type 0
IsPlain s = marks s ≡ 0

abbrev pub IsPlainField : Field → Type 0
IsPlainField f = IsPlain f.col_name

abbrev pub IsPlainOption : Option Field → Type 0
IsPlainOption none = Unit {0}
IsPlainOption (some f) = IsPlainField f

pub record IsPlainModel (m : Model) : Type 0 where
  pub table_name : IsPlain m.table_name
  pub fields : All IsPlainField m.fields
  pub deleted_at : IsPlainOption m.deleted_at
  pub version : IsPlainOption m.version

-- A step that writes a placeholder for each argument that it adds.
pub record IsBalanced {V : Type 0} (m : M V) : Type 0 where
  pub balance :
      (b b' : Builder V) → m b ≡ ok b' → marks b'.sql + length b.args ≡ marks b.sql + length b'.args
