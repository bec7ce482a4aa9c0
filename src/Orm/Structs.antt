-- ===== src/Orm/Structs.antt =====
-- Runs of the registry on the fields of a struct.
use soil.Base.{◌≡◌, refl, true, false, none, some, List, [], ◌∷◌, codes}
use soil.Orm.Builder.{Model}
use soil.Orm.Registry.{StructField, camel2_case, parse_model}

http_server : camel2_case (codes "HTTPServerId") ≡ codes "http_server_id"
unfolding camel2_case
http_server = refl

-- A struct with a tag, a version and a field whose name is taken apart.
abbrev struct_fields : List StructField
struct_fields =
    record {
      name = codes "UserName";
      tag = some (codes "column(name);size(60)");
      is_integer = false;
    }
    ∷ record { name = codes "Version"; tag = none; is_integer = true }
    ∷ []

abbrev parsed : Model
parsed = record {
  table_name = codes "user_detail";
  fields =
      record { col_name = codes "name"; go_name = codes "UserName" }
      ∷ record { col_name = codes "version"; go_name = codes "Version" }
      ∷ [];
  created_at = none;
  updated_at = none;
  deleted_at = none;
  version = some (record { col_name = codes "version"; go_name = codes "Version" });
}

struct_parsed : parse_model [] (codes "UserDetail") struct_fields ≡ some parsed
unfolding parse_model soil.Base.split soil.Base.last_is soil.Orm.Registry.tag_value soil.Base.same
struct_parsed = refl
