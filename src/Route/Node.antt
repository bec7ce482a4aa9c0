-- ===== src/Route/Node.antt =====
-- web/route.go: `nodeType`, `node` and `childOrCreate` with the functions that it calls.
-- A node has one parent, so a pointer to a child is a position in the tree. Package `regexp` is
-- the parameter `Regexp R`; handlers are values of any type `H`, and `nil` is `none`.
use soil.Base.{
  split_first, ℕ, Bool, true, false, not, ◌||◌, Option, none, some, [], ◌∷◌, Bytes, codes, same,
  ◌==◌, if◌then◌else◌,
}

pub data NodeType : Type 0 where
  static reg param any : NodeType

-- `compile` gives none where `regexp.Compile` gives an error; `source` is `String`.
pub record Regexp (R : Type 0) : Type 0 where
  pub compile : Bytes → Option R
  pub source : R → Bytes
  pub is_match : R → Bytes → Bool

pub record Info (H R : Type 0) : Type 0 where
  pub typ : NodeType
  pub path : Bytes
  pub param_name : Bytes
  pub reg_expr : Option R
  pub handler : Option H

mutual
  pub data Node (H R : Type 0) : Type 0 where
    -- The children by path, then `starChild`, `paramChild` and `regexChild`.
    node : Info H R → Children H R → Slot H R → Slot H R → Slot H R → Node H R

  pub data Children (H R : Type 0) : Type 0 where
    nil : Children H R
    cons : Bytes → Node H R → Children H R → Children H R

  pub data Slot (H R : Type 0) : Type 0 where
    absent : Slot H R
    present : Node H R → Slot H R

pub data Panic : Type 0 where
  star_after_param star_after_regex param_after_star param_after_regex : Panic
  regex_after_star regex_after_param param_conflict regex_conflict bad_regex : Panic
  nil_regexp index_out_of_range : Panic
  empty_path no_leading_slash trailing_slash root_taken double_slash routing_conflict : Panic

-- Which child of a node a pointer names.
pub data Place : Type 0 where
  at_child : Bytes → Place
  at_star at_param at_regex : Place

-- The node after the call and the child that the call returns, or the panic that left it as it was.
pub data Step (H R : Type 0) : Type 0 where
  panics : Panic → Step H R
  returns : Node H R → Place → Node H R → Step H R

module _ {H R : Type 0} where
  abbrev pub info : Node H R → Info H R
  info (node i cs s p r) = i

  abbrev pub set_handler : Option H → Node H R → Node H R
  set_handler h (node i cs s p r) = node (record i { handler = h }) cs s p r

  abbrev pub has : Slot H R → Bool
  has absent = false
  has (present c) = true

  -- `&node{path: path, typ: typ, paramName: name, regExpr: expr}`
  abbrev pub new_node : NodeType → Bytes → Bytes → Option R → Node H R
  new_node t path name expr =
      node record { typ = t; path = path; param_name = name; reg_expr = expr; handler = none } nil
        absent absent absent

  -- `n.children[path]`
  unfoldable pub lookup : Bytes → Children H R → Option (Node H R)
  lookup k nil = none
  lookup k (cons j c cs) = let rest = lookup k cs in if same k j then some c else rest

  -- `n.children[path] = child`
  unfoldable pub store : Bytes → Node H R → Children H R → Children H R
  store k d nil = cons k d nil
  store k d (cons j c cs) =
      let rest = cons j c (store k d cs) in if same k j then cons j d cs else rest

  -- What a write through the pointer that `child_or_create` returned does to the parent.
  unfoldable pub put_child : Place → Node H R → Node H R → Node H R
  put_child (at_child k) c (node i cs s p r) = node i (store k c cs) s p r
  put_child at_star c (node i cs s p r) = node i cs (present c) p r
  put_child at_param c (node i cs s p r) = node i cs s (present c) r
  put_child at_regex c (node i cs s p r) = node i cs s p (present c)

-- `exp[:len(exp)-1]` if `exp` ends in the byte.
unfoldable pub cut_last : ℕ → Bytes → Option Bytes
cut_last b [] = none
cut_last b (c ∷ []) = if c == b then some [] else none
cut_last b (c ∷ d ∷ s) = elim (cut_last b (d ∷ s)) [ none ↦ none | some t ↦ some (c ∷ t) ]

-- `parseParam`, for a path whose first byte, the colon, is gone already.
pub data Param : Type 0 where
  plain : Bytes → Param
  pattern_of : Bytes → Bytes → Param

unfoldable pub parse_param : Bytes → Param
parse_param path = elim (split_first b'(' path) [
  | none ↦ plain path
  | some (name, exp) ↦ elim (cut_last b')' exp) [ none ↦ plain path | some e ↦ pattern_of name e ]
]

module _ {H R : Type 0} where
  unfoldable pub child_or_create_star : Bytes → Node H R → Step H R
  child_or_create_star path (node i cs s (present c) r) = panics star_after_param
  child_or_create_star path (node i cs s absent (present c)) = panics star_after_regex
  child_or_create_star path (node i cs (present c) absent absent) =
      returns (node i cs (present c) absent absent) at_star c
  child_or_create_star path (node i cs absent absent absent) =
      let c = new_node any path [] none in returns (node i cs (present c) absent absent) at_star c

  unfoldable pub child_or_create_param : Bytes → Bytes → Node H R → Step H R
  child_or_create_param path name (node i cs (present c) p r) = panics param_after_star
  child_or_create_param path name (node i cs absent p (present c)) = panics param_after_regex
  child_or_create_param path name (node i cs absent absent absent) =
      let c = new_node param path name none in
      returns (node i cs absent (present c) absent) at_param c
  child_or_create_param path name (node i cs absent (present c) absent) =
      if same (info c).path path
      then returns (node i cs absent (present c) absent) at_param c
      else panics param_conflict

  unfoldable pub child_or_create_static : Bytes → Node H R → Step H R
  child_or_create_static path (node i cs s p r) =
      let c = new_node static path [] none in
      elim (lookup path cs) [
        | none ↦ returns (node i (store path c cs) s p r) (at_child path) c
        | some d ↦ returns (node i cs s p r) (at_child path) d
      ]

  -- `n.regExpr.String() != exp || n.paramName != paramName`, read off the parent as the code has
  -- it; `String` on a nil `*Regexp` faults, which is none.
  unfoldable pub regex_differs : Regexp R → Info H R → Bytes → Bytes → Option Bool
  regex_differs re i exp name = elim i.reg_expr [
    | none ↦ none
    | some e ↦ some (not (same (re.source e) exp) || not (same i.param_name name))
  ]

  unfoldable pub child_or_create_regex : Regexp R → Bytes → Bytes → Bytes → Node H R → Step H R
  unfolding regex_differs
  child_or_create_regex re path exp name (node i cs (present c) p r) = panics regex_after_star
  child_or_create_regex re path exp name (node i cs absent (present c) r) = panics regex_after_param
  child_or_create_regex re path exp name (node i cs absent absent absent) = elim (re.compile exp) [
    | none ↦ panics bad_regex
    | some e ↦
        let c = new_node reg path name (some e) in
        returns (node i cs absent absent (present c)) at_regex c
  ]
  child_or_create_regex re path exp name (node i cs absent absent (present c)) =
      elim (regex_differs re i exp name) [
        | none ↦ panics nil_regexp
        | some true ↦ panics regex_conflict
        | some false ↦ returns (node i cs absent absent (present c)) at_regex c
      ]

  -- `childOrCreateParam` or `childOrCreateRegex`, as `parseParam` says.
  unfoldable pub child_or_create_colon : Regexp R → Bytes → Bytes → Node H R → Step H R
  unfolding child_or_create_param child_or_create_regex
  child_or_create_colon re path name n = elim (parse_param name) [
    | plain name' ↦ child_or_create_param path name' n
    | pattern_of name' exp ↦ child_or_create_regex re path exp name' n
  ]

  -- `path[0]` faults on the empty path.
  unfoldable pub child_or_create : Regexp R → Bytes → Node H R → Step H R
  unfolding child_or_create_star child_or_create_colon child_or_create_static
  child_or_create re [] n = panics index_out_of_range
  child_or_create re (b ∷ name) n =
      if same (b ∷ name) (codes "*")
      then child_or_create_star (b ∷ name) n
      else if b == b':'
      then child_or_create_colon re (b ∷ name) name n
      else child_or_create_static (b ∷ name) n
