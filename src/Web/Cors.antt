-- ===== src/Web/Cors.antt =====
-- web/middleware/cors/cors.go
pub mod Headers
pub mod Credentials
use soil.Base.{
  ℕ, zero, suc, ℤ, pos, negsuc, ◌+◌, ◌/◌, ◌%◌, ◌==◌, Bool, true, false, ◌&&◌, ◌||◌, Option, none,
  some, List, [], ◌∷◌, ◌++◌, Bytes, codes, same, if◌then◌else◌,
}
use soil.Web.Exchange.{Header, Response, set, add, write_header, itoa}
use soil.Web.Context.{Context, set_header, get_header, abort}
use soil.Web.Server.{returned, Handler, Middleware, join_comma}

-- `MiddlewareBuilder`
pub record Cors : Type 0 where
  pub allow_origins : List Bytes
  pub allow_methods : List Bytes
  pub allow_headers : List Bytes
  pub expose_headers : List Bytes
  pub allow_credentials : Bool
  pub max_age : ℤ

-- `Create`; the setters of the builder each assign one field.
abbrev pub create : Cors
create = record {
  allow_origins = [];
  allow_methods =
      codes "GET"
      ∷ codes "POST"
      ∷ codes "PUT"
      ∷ codes "DELETE"
      ∷ codes "PATCH"
      ∷ codes "OPTIONS"
      ∷ codes "HEAD"
      ∷ [];
  allow_headers = [];
  expose_headers = [];
  allow_credentials = false;
  max_age = pos 43200;
}

unfoldable pub wildcard_in : List Bytes → Bool
wildcard_in [] = false
wildcard_in (o ∷ os) = same o (codes "*") || wildcard_in os

unfoldable pub has_wildcard_origin : Cors → Bool
unfolding wildcard_in
has_wildcard_origin mb = wildcard_in mb.allow_origins

-- The loop of `matchOrigin`.
unfoldable pub first_match : Bytes → List Bytes → Bytes
first_match origin [] = []
first_match origin (o ∷ os) =
    let rest = first_match origin os in
    if same o (codes "*") then codes "*" else if same o origin then origin else rest

unfoldable pub match_origin : Cors → Bytes → Bytes
unfolding first_match
match_origin mb [] = []
match_origin mb (b ∷ origin) = first_match (b ∷ origin) mb.allow_origins

unfoldable pub is_empty : Bytes → Bool
is_empty [] = true
is_empty (b ∷ s) = false

-- A header for a list that is not empty.
unfoldable pub set_list : Bytes → List Bytes → Header → Header
unfolding join_comma
set_list key [] h = h
set_list key (v ∷ vs) h = set key (join_comma (v ∷ vs)) h

unfoldable pub set_max_age : ℤ → Header → Header
unfolding itoa
set_max_age (pos zero) h = h
set_max_age (pos (suc n)) h = set (codes "Access-Control-Max-Age") (itoa 20 (suc n)) h
set_max_age (negsuc n) h = h

unfoldable pub set_credentials : Bool → Header → Header
set_credentials true h = set (codes "Access-Control-Allow-Credentials") (codes "true") h
set_credentials false h = h

-- The headers of a preflight request's response.
unfoldable pub preflight_headers : Cors → Bytes → Header → Header
unfolding set_list set_max_age set_credentials
preflight_headers mb origin h =
    let h1 =
      set_credentials mb.allow_credentials (set (codes "Access-Control-Allow-Origin") origin h) in
    let h2 = set_list (codes "Access-Control-Allow-Methods") mb.allow_methods h1 in
    let h3 = set_list (codes "Access-Control-Allow-Headers") mb.allow_headers h2 in
    add (codes "Vary") (codes "Origin") (set_max_age mb.max_age h3)

unfoldable pub preflight : Cors → Bytes → Context → Context
unfolding preflight_headers is_empty abort
preflight mb origin c =
    let h = if is_empty origin then c.resp.header else preflight_headers mb origin c.resp.header in
    let c' = record c { resp = write_header 204 (record c.resp { header = h }) } in abort 204 [] c'

unfoldable pub expose : List Bytes → Context → Context
unfolding join_comma
expose [] c = c
expose (v ∷ vs) c = set_header (codes "Access-Control-Expose-Headers") (join_comma (v ∷ vs)) c

unfoldable pub allow_credentials_if : Bool → Context → Context
allow_credentials_if true c = set_header (codes "Access-Control-Allow-Credentials") (codes "true") c
allow_credentials_if false c = c

-- The context that an ordinary request goes on with.
unfoldable pub with_policy : Cors → Bytes → Context → Context
unfolding expose allow_credentials_if is_empty
with_policy mb origin c =
    if is_empty origin
    then c
    else set_header (codes "Vary") (codes "Origin") (
        expose mb.expose_headers (
          allow_credentials_if mb.allow_credentials
            (set_header (codes "Access-Control-Allow-Origin") origin c)))

unfoldable pub handle : Cors → Middleware
unfolding match_origin preflight with_policy get_header
handle mb next c =
    let allow_origin = match_origin mb (get_header (codes "Origin") c) in
    if same c.req.meth (codes "OPTIONS")
    then returned (preflight mb allow_origin c)
    else next (with_policy mb allow_origin c)

-- `Build`; none is its panic.
unfoldable pub build : Cors → Option Middleware
unfolding has_wildcard_origin handle
build mb = if has_wildcard_origin mb && mb.allow_credentials then none else some (handle mb)
