-- ===== src/Web/Server.antt =====
-- web/server.go: how a request runs through the middlewares, the router and the handler, and how the
-- response is written. Listening, TLS and signals are net/http's. A handler is a function on
-- contexts; one with a state of its own is modelled where that state is.
pub mod Answers
pub mod Reuse
use soil.Base.{
  ℕ, Bool, true, false, Option, none, some, List, [], ◌∷◌, ◌++◌, Bytes, codes, ltb, if◌then◌else◌,
}
use soil.Route.Node.{Regexp, Node, info, Panic}
use soil.Route.Insert.{Router, add_route}
use soil.Route.Find.{MatchInfo, find_route}
use soil.Route.Group.{wrap_all, rooted, trim_suffix}
use soil.Web.Exchange.{Header, Request, Response, add, write_header, write_body, completed}
use soil.Web.Context.{Context, reset, new_context, set_header, headers_of}

-- How a handler ends.
pub data Outcome : Type 0 where
  returned panicked : Context → Outcome

abbrev pub Handler : Type 0
Handler = Context → Outcome

abbrev pub Middleware : Type 0
Middleware = Handler → Handler

-- What stands behind a call in a handler.
abbrev pub then_run : Outcome → Handler → Outcome
then_run (returned c) k = k c
then_run (panicked c) k = panicked c

abbrev pub context_of : Outcome → Context
context_of (returned c) = c
context_of (panicked c) = c

unfoldable pub add_values : Bytes → List Bytes → Header → Header
add_values key [] h = h
add_values key (v ∷ vs) h = add_values key vs (add key v h)

-- The loops of `flashResp` over the headers.
unfoldable pub add_headers : Header → Header → Header
unfolding add_values
add_headers [] h = h
add_headers ((k, vs) ∷ more) h = add_headers more (add_values k vs h)

abbrev pub write_some : Bytes → Response → Response
write_some [] r = r
write_some (b ∷ bs) r = write_body (b ∷ bs) r

unfoldable pub flash_resp : Context → Context
unfolding add_headers write_body
flash_resp c =
    let r = record c.resp { header = add_headers (headers_of c.resp_headers) c.resp.header } in
    let r' = if ltb 0 c.status then write_header c.status r else r in
    record c { resp = write_some c.resp_data r' }

-- `strings.Join(parts, ", ")`
unfoldable pub join_comma : List Bytes → Bytes
join_comma [] = []
join_comma (p ∷ []) = p
join_comma (p ∷ q ∷ ps) = p ++ (codes ", " ++ join_comma (q ∷ ps))

unfoldable pub not_found_response : Context → Context
not_found_response c = record c { status = 404; resp_data = codes "404 page not found" }

module _ {R : Type 0} where
  -- The branches of `serve` without a handler.
  unfoldable pub refuse : Option (MatchInfo Handler R) → Context → Context
  unfolding not_found_response join_comma
  refuse none c = not_found_response c
  refuse (some mi) c =
      if mi.method_not_allowed
      then set_header (codes "Allow") (join_comma mi.allowed_methods)
          (record c { status = 405; resp_data = codes "405 method not allowed" })
      else not_found_response c

  abbrev pub handler_of : Option (Node Handler R) → Option Handler
  handler_of none = none
  handler_of (some n) = (info n).handler

  unfoldable pub dispatch : MatchInfo Handler R → Option Handler → Context → Outcome
  unfolding refuse
  dispatch mi none c = returned (refuse (some mi) c)
  dispatch mi (some h) c =
      h (record c { path_params = mi.param_path; matched_route = mi.matched_path })

  unfoldable pub serve_match : Option (MatchInfo Handler R) → Context → Outcome
  unfolding dispatch refuse
  serve_match none c = returned (refuse none c)
  serve_match (some mi) c = dispatch mi (handler_of mi.node) c

-- The middleware `m` of `ServeHTTP`, round all others.
unfoldable pub flashing : Middleware
unfolding flash_resp
flashing next c =
    then_run (next c) (λ c'. if c'.is_done then returned c' else returned (flash_resp c'))

-- What the client gets; none if the handler panics, for which net/http drops the connection.
unfoldable pub answer : Outcome → Option Response
unfolding completed
answer (returned c) = some (completed c.resp)
answer (panicked c) = none

-- `Use`, on the middlewares that there are.
unfoldable pub add_server_middlewares : List Middleware → List Middleware → List Middleware
add_server_middlewares mdls more = mdls ++ more

module _ {R : Type 0} (re : Regexp R) (router : Router Handler R) where
  unfoldable pub serve : Handler
  unfolding serve_match
  serve c = serve_match (find_route re router c.req.meth c.req.path) c

  -- `ServeHTTP` with the context that it has taken from the pool: how it ends, with the context as it
  -- is then, and the context that it puts back.
  unfoldable pub serve_http : List Middleware → Context → Response → Request → Outcome × Context
  unfolding reset flashing serve wrap_all
  serve_http mdls taken response request =
      let c = record (reset taken) { req = request; resp = response } in
      let out = flashing (wrap_all mdls serve) c in (out, reset (context_of out))

-- `Static`: the route of a directory, where `serve_file` is the file server of net/http behind
-- `http.StripPrefix`.
unfoldable pub static_handler : (Bytes → Request → Response → Response) → Bytes → Handler
static_handler serve_file prefix c =
    returned (record c { resp = serve_file prefix c.req c.resp; is_done = true })

unfoldable pub static_files :
    {R : Type 0}
    → Regexp R
    → (Bytes → Request → Response → Response)
    → Bytes
    → Router Handler R
    → Router Handler R × Option Panic
unfolding static_handler rooted trim_suffix
static_files re serve_file prefix router =
    let clean = trim_suffix (rooted prefix) in
    add_route re router (codes "GET") (clean ++ codes "/*") (some (static_handler serve_file clean))
