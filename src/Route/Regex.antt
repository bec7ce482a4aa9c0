-- ===== src/Route/Regex.antt =====
-- web/route.go: a regular-expression segment that two routes share.
use soil.Base.{◌≡◌, none, inl, inr, sym, ◌∙◌, ◌∷◌, Bytes, same, arith, Option-cases}
use soil.Route.Node.{
  Regexp, Node, node, absent, present, pattern_of, parse_param, nil_regexp, at_regex, panics,
  returns, info, put_child, child_or_create, child_or_create_colon, child_or_create_regex,
}

module _ {H R : Type 0} where
  regex_twice :
      (re : Regexp R) (path exp name : Bytes) (n n' c : Node H R)
      → (info n).reg_expr ≡ none
      → child_or_create_regex re path exp name n ≡ returns n' at_regex c
      → (c' : Node H R)
      → child_or_create_regex re path exp name (put_child at_regex c' n') ≡ panics nil_regexp
  unfolding child_or_create_regex put_child
  regex_twice re path exp name (node i cs (present s) p r) n' c h e c' = cc
  regex_twice re path exp name (node i cs absent (present p) r) n' c h e c' = cc
  regex_twice re path exp name (node i cs absent absent (present r)) n' c h e c' = ground arith
  regex_twice re path exp name (node i cs absent absent absent) n' c h e c' =
      elim (Option-cases (re.compile exp)) [ inl q ↦ ground arith | inr (x, q) ↦ ground arith ]

regex_path :
    {H R : Type 0} (re : Regexp R) (path name exp : Bytes) (n : Node H R)
    → parse_param path ≡ pattern_of name exp
    → child_or_create re (b':' ∷ path) n ≡ child_or_create_regex re (b':' ∷ path) exp name n
unfolding child_or_create same
regex_path re path name exp n p = rw (p, child_or_create_colon)

-- Once a node that is no regular-expression node itself has got a child for a segment with a
-- regular expression, every further route through that same segment faults on a nil `*Regexp`: the
-- comparison reads the parent's expression in place of the child's.
pub regex_again_faults :
    {H R : Type 0} (re : Regexp R) (path name exp : Bytes) (n n' c : Node H R)
    → parse_param path ≡ pattern_of name exp
    → (info n).reg_expr ≡ none
    → child_or_create re (b':' ∷ path) n ≡ returns n' at_regex c
    → (c' : Node H R)
    → child_or_create re (b':' ∷ path) (put_child at_regex c' n') ≡ panics nil_regexp
regex_again_faults re path name exp n n' c p h e c' =
    let before = sym (regex_path re path name exp n p) ∙ e in
    regex_path re path name exp (put_child at_regex c' n') p
    ∙ regex_twice re (b':' ∷ path) exp name n n' c h before c'
