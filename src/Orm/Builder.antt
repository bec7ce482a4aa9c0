-- ===== src/Orm/Builder.antt =====
-- orm/builder.go and orm/internal/model/model.go: what the builders write to, and the metadata that
-- they read. Arguments are of any type; what an error leaves behind in a builder is dropped.
use soil.Base.{
  ℕ, ◌≡◌, ap, Option, none, some, List, [], ◌∷◌, ◌++◌, Bytes, same, ◌==◌, if◌then◌else◌,
}

pub data Error : Type 0 where
  unknown_field : Bytes → Error
  no_model no_value zero_rows nothing_to_set : Error
  unsupported_expression unsupported_table unsupported_assignable unsupported_upsert : Error

pub data Result (A : Type 0) : Type 0 where
  ok : A → Result A
  err : Error → Result A

value_or : {A : Type 0} → A → Result A → A
value_or a (ok x) = x
value_or a (err e) = a

pub ok_injective : {A : Type 0} {x y : A} → ok x ≡ ok y → x ≡ y
unfolding value_or
ok_injective {x = x} e = ap (value_or x) e

pub record Field : Type 0 where
  pub col_name : Bytes
  pub go_name : Bytes

-- `Model`: `fields` in the order of the struct; `FieldMap` is the search by name in them.
pub record Model : Type 0 where
  pub table_name : Bytes
  pub fields : List Field
  pub created_at : Option Field
  pub updated_at : Option Field
  pub deleted_at : Option Field
  pub version : Option Field

unfoldable pub find_field : Bytes → List Field → Option Field
find_field name [] = none
find_field name (f ∷ fs) =
    let rest = find_field name fs in if same f.go_name name then some f else rest

-- `sqlStrBuilder` and `args`.
pub record Builder (V : Type 0) : Type 0 where
  pub sql : Bytes
  pub args : List V

-- A step of a builder: it writes, or it stops with an error.
abbrev pub M : Type 0 → Type 0
M V = Builder V → Result (Builder V)

-- `if err := …; err != nil { return err }`
unfoldable pub and_then : {V : Type 0} → Result (Builder V) → M V → Result (Builder V)
and_then (ok b) k = k b
and_then (err e) k = err e

infixl 5 ◌>>◌
unfoldable pub ◌>>◌ : {V : Type 0} → M V → M V → M V
unfolding and_then
◌>>◌ m k b = and_then (m b) k

-- `strings.ReplaceAll(name, q, qq)` for the quoting byte.
unfoldable pub doubled : ℕ → Bytes → Bytes
doubled q [] = []
doubled q (c ∷ s) = let rest = doubled q s in if c == q then q ∷ q ∷ rest else c ∷ rest

module _ {V : Type 0} where
  unfoldable pub skip : M V
  skip b = ok b

  unfoldable pub fail : Error → M V
  fail e b = err e

  unfoldable pub write : Bytes → M V
  write s b = ok (record b { sql = b.sql ++ s })

  unfoldable pub add_args : List V → M V
  add_args vs b = ok (record b { args = b.args ++ vs })

  -- A test for nil, and what is done with a value.
  unfoldable pub case_of : {A : Type 0} → Option A → M V → (A → M V) → M V
  case_of none m k = m
  case_of (some a) m k = k a

  -- `if !ok { return err }`
  abbrev pub found : {A : Type 0} → Option A → Error → (A → M V) → M V
  found o e k = case_of o (fail e) k

  unfoldable pub quote : ℕ → Bytes → M V
  quote q name = do write (q ∷ []); write (doubled q name); write (q ∷ [])

  -- Items with a separator between them.
  unfoldable pub separated : {A : Type 0} → Bytes → (A → M V) → List A → M V
  separated sep each [] = skip
  separated sep each (x ∷ []) = each x
  separated sep each (x ∷ y ∷ xs) = do each x; write sep; separated sep each (y ∷ xs)

-- `Query`, from a builder at the end of a `Build`.
abbrev pub empty : (V : Type 0) → Builder V
empty V = record { sql = []; args = [] }
