-- ===== src/Orm/Registry.antt =====
-- orm/internal/model/registry.go: from the fields of a struct to the model of its table. What
-- reflection says of a field is given; names are in ASCII. The map of columns is left out.
use soil.Base.{
  ℕ, ◌+◌, ◌≡◌, refl, ap, ◌∙◌, arith, Bool, true, false, not, ◌&&◌, ◌||◌, Option, none, some, List,
  [], ◌∷◌, Bytes, codes, same, split, last_is, leb, if◌then◌else◌, is_some, All, by_cases,
}
use soil.Orm.Builder.{Field, Model}

-- `reflect.StructField`: the name, what the tag `orm` says, if there is one, and whether
-- `isIntegerKind` holds of the type.
pub record StructField : Type 0 where
  pub name : Bytes
  pub tag : Option Bytes
  pub is_integer : Bool

unfoldable pub is_upper : ℕ → Bool
is_upper c = leb b'A' c && leb c b'Z'

unfoldable pub is_lower : ℕ → Bool
is_lower c = leb b'a' c && leb c b'z'

unfoldable pub to_lower : ℕ → ℕ
unfolding is_upper
to_lower c = if is_upper c then c + 32 else c

unfoldable pub next_is_lower : Bytes → Bool
unfolding is_lower
next_is_lower [] = false
next_is_lower (d ∷ s) = is_lower d

-- Whether an underscore goes before a byte, by the one before it and those behind it.
unfoldable pub starts_word : Option ℕ → ℕ → Bytes → Bool
unfolding is_upper next_is_lower
starts_word none c s = false
starts_word (some prev) c s = is_upper c && (not (is_upper prev) || next_is_lower s)

unfoldable pub camel_from : Option ℕ → Bytes → Bytes
unfolding starts_word to_lower
camel_from prev [] = []
camel_from prev (c ∷ s) =
    let rest = camel_from (some c) s in
    if starts_word prev c s then b'_' ∷ to_lower c ∷ rest else to_lower c ∷ rest

-- `Camel2Case`
unfoldable pub camel2_case : Bytes → Bytes
unfolding camel_from
camel2_case s = camel_from none s

unfoldable pub drop_last : Bytes → Bytes
drop_last [] = []
drop_last (c ∷ []) = []
drop_last (c ∷ d ∷ s) = c ∷ drop_last (d ∷ s)

abbrev pub Tags : Type 0
Tags = List (Bytes × Bytes)

unfoldable pub pair_of : List Bytes → Option (Bytes × Bytes)
unfolding drop_last
pair_of [] = none
pair_of (k ∷ []) = none
pair_of (k ∷ v ∷ []) = some (k, drop_last v)
pair_of (k ∷ v ∷ w ∷ more) = none

unfoldable pub push_pair : Option (Bytes × Bytes) → Option Tags → Option Tags
push_pair none ts = none
push_pair (some p) none = none
push_pair (some p) (some ts) = some (p ∷ ts)

-- The pairs in order; none is the error for a segment.
unfoldable pub parse_segments : List Bytes → Option Tags
unfolding pair_of push_pair
parse_segments [] = some []
parse_segments (seg ∷ segs) =
    let rest = push_pair (pair_of (split b'(' seg)) (parse_segments segs) in
    if last_is b')' seg then rest else none

-- `parseTag`
unfoldable pub parse_tag : Option Bytes → Option Tags
unfolding parse_segments
parse_tag none = some []
parse_tag (some tag) = parse_segments (split b';' tag)

-- `tags[key]`: the last pair with the key is the one in the map.
unfoldable pub tag_value : Bytes → Tags → Option Bytes
tag_value key [] = none
tag_value key ((k, v) ∷ ts) = elim (tag_value key ts) [
  | some w ↦ some w
  | none ↦ if same k key then some v else none
]

unfoldable pub column_name : StructField → Option Bytes → Bytes
unfolding camel2_case
column_name f none = camel2_case f.name
column_name f (some []) = camel2_case f.name
column_name f (some (c ∷ s)) = c ∷ s

-- Whether a field has a role, by a tag or by its name.
unfoldable pub marked : Bytes → Bytes → StructField → Tags → Bool
marked key name f ts = is_some (tag_value key ts) || same f.name name

-- `parseModel` of the fields behind one: a later field takes a role over.
unfoldable pub or_earlier : Option Field → Bool → Field → Option Field
or_earlier none is_marked f = if is_marked then some f else none
or_earlier (some later) is_marked f = some later

unfoldable pub add_field : StructField → Tags → Model → Model
unfolding column_name marked or_earlier
add_field f ts m =
    let field : Field = record {
      col_name = column_name f (tag_value (codes "column") ts);
      go_name = f.name;
    } in
    record m {
      fields = field ∷ m.fields;
      created_at =
          or_earlier m.created_at (marked (codes "created_at") (codes "CreatedAt") f ts) field;
      updated_at =
          or_earlier m.updated_at (marked (codes "updated_at") (codes "UpdatedAt") f ts) field;
      deleted_at =
          or_earlier m.deleted_at (marked (codes "deleted_at") (codes "DeletedAt") f ts) field;
      version =
          or_earlier m.version (marked (codes "version") (codes "Version") f ts && f.is_integer)
            field;
    }

unfoldable pub with_field : StructField → Option Tags → Option Model → Option Model
unfolding add_field
with_field f none m = none
with_field f (some ts) none = none
with_field f (some ts) (some m) = some (add_field f ts m)

unfoldable pub parse_fields : Bytes → List StructField → Option Model
unfolding with_field parse_tag
parse_fields table [] = some (record {
  table_name = table;
  fields = [];
  created_at = none;
  updated_at = none;
  deleted_at = none;
  version = none;
})
parse_fields table (f ∷ fs) = with_field f (parse_tag f.tag) (parse_fields table fs)

-- `parseModel`; `table` is what `TableName` says, `type_name` the name of the struct.
unfoldable pub parse_model : Bytes → Bytes → List StructField → Option Model
unfolding parse_fields camel2_case
parse_model [] type_name fs = parse_fields (camel2_case type_name) fs
parse_model (c ∷ table) type_name fs = parse_fields (c ∷ table) fs

abbrev IsSmall : ℕ → Type 0
IsSmall c = is_upper c ≡ false

to_lower-IsSmall : (c : ℕ) → IsSmall (to_lower c)
unfolding to_lower is_upper
to_lower-IsSmall c = ground arith

camel_from-IsSmall : (prev : Option ℕ) (s : Bytes) → All IsSmall (camel_from prev s)
unfolding camel_from
camel_from-IsSmall prev [] = tt
camel_from-IsSmall prev (c ∷ s) =
    let first = to_lower-IsSmall c in
    let rest = camel_from-IsSmall (some c) s in
    by_cases (All IsSmall) (starts_word prev c s) _ _
      (λ e. (unfold is_upper in refl, (first, rest))) (λ e. (first, rest))

to_lower_small : (c : ℕ) → IsSmall c → to_lower c ≡ c
unfolding to_lower
to_lower_small c h = ground arith

no_word : (prev : Option ℕ) (c : ℕ) (s : Bytes) → IsSmall c → starts_word prev c s ≡ true → ⊥
unfolding starts_word
no_word none c s h e = ground arith
no_word (some p) c s h e = ground arith

camel_from-small : (prev : Option ℕ) (s : Bytes) → All IsSmall s → camel_from prev s ≡ s
unfolding camel_from
camel_from-small prev [] a = refl
camel_from-small prev (c ∷ s) a =
    by_cases (λ r. r ≡ c ∷ s) (starts_word prev c s) _ _ (λ e. absurd (no_word prev c s a.0 e))
      (λ e.
        ap (λ d. d ∷ camel_from (some c) s) (to_lower_small c a.0)
        ∙ ap (λ t. c ∷ t) (camel_from-small (some c) s a.1))

-- A column name in the form that `Camel2Case` gives is left as it is by another `Camel2Case`.
camel2_case-camel2_case : (s : Bytes) → camel2_case (camel2_case s) ≡ camel2_case s
unfolding camel2_case
camel2_case-camel2_case s = camel_from-small none (camel_from none s) (camel_from-IsSmall none s)
