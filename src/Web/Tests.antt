-- ===== src/Web/Tests.antt =====
-- Runs of the HTTP server, and the theorems at them.
use soil.Base.{
  ℕ, ◌≡◌, ◌≢◌, refl, Bool, true, false, Option, none, some, List, [], ◌∷◌, ◌++◌, Bytes, codes, same,
  map, In, inl, arith, if◌then◌else◌,
}
use soil.Route.Node.{Regexp, Node}
use soil.Route.Insert.{Router, add_route}
use soil.Web.Exchange.{Request, Response, get}
use soil.Web.Context.{Context, new_context, nil_request, nil_response, resp_string, get_header}
use soil.Web.Server.{
  Outcome, returned, panicked, Handler, Middleware, serve_http, answer, context_of,
}
use soil.Web.Server.Answers.{serve_http-unmatched, Refuses}
use soil.Web.Server.Reuse.{ContextPool, serve_all, alone, serve_all-alone}
use soil.Web.Middlewares.{recovery}
use soil.Web.Middlewares.Recovery.{serve_http-recovery}
use soil.Web.Cors.{Cors, create, build, handle}
use soil.Web.Cors.Headers.{origin_key}
use soil.Web.Cors.Credentials.{collected, headers_at, build_credentials}

routing : Unit {0}
unfolding serve_http answer resp_string add_route soil.Route.Find.find_route
    soil.Route.Insert.tree_of same soil.Route.Insert.add_checked soil.Route.Insert.set_tree
    soil.Route.Find.find_in_tree soil.Base.split soil.Base.trim soil.Route.Find.child_of
    soil.Route.Insert.insert soil.Route.Node.child_or_create soil.Route.Node.lookup
    soil.Route.Node.put_child soil.Route.Node.store soil.Web.Exchange.set soil.Web.Exchange.add
routing = tt

abbrev texts : Regexp Bytes
texts = record { compile = λ e. some e; source = λ e. e; is_match = same }

abbrev greet : Handler
greet c = returned (resp_string 200 (codes "hi") c)

abbrev no_routes : Router Handler Bytes
no_routes = []

abbrev asking : Bytes → Bytes → Request
asking m p = record nil_request { meth = m; path = p }

abbrev greeting : Router Handler Bytes
greeting = (add_route texts no_routes (codes "GET") (codes "/a") (some greet)).0

greeted :
    answer
      (serve_http texts greeting [] new_context nil_response (asking (codes "GET") (codes "/a"))).0
    ≡ some (record {
      header = (codes "Content-Type", codes "text/plain; charset=utf-8" ∷ []) ∷ [];
      sent = some (200, (codes "Content-Type", codes "text/plain; charset=utf-8" ∷ []) ∷ []);
      body = codes "hi";
    })
unfolding routing
greeted = refl

abbrev here : Request
here = asking (codes "GET") (codes "/a")

abbrev elsewhere : Request
elsewhere = asking (codes "POST") (codes "/a")

serve_http-unmatched_example :
    Refuses texts greeting elsewhere nil_response
      (answer (serve_http texts greeting [] new_context nil_response elsewhere).0)
unfolding routing
serve_http-unmatched_example =
    serve_http-unmatched texts greeting new_context nil_response elsewhere (tt, tt) refl refl

-- A pool that keeps one context.
abbrev one_context : ContextPool (Option Context)
one_context = record { take = λ p. (p, none); put = λ c p. some c }

serve_all-alone_example :
    serve_all one_context texts greeting [] none
      ((nil_response, here) ∷ (nil_response, elsewhere) ∷ [])
    ≡ map
        (alone one_context texts greeting [])
        ((nil_response, here) ∷ (nil_response, elsewhere) ∷ [])
serve_all-alone_example =
    serve_all-alone one_context texts greeting [] none
      ((nil_response, here) ∷ (nil_response, elsewhere) ∷ [])

-- A middleware that panics behind what it has set.
abbrev failing : Middleware
failing next c = panicked (record c { status = 200 })

serve_http-recovery_example :
    answer (serve_http texts greeting (recovery ∷ failing ∷ []) new_context nil_response here).0
    ≡ some (record { header = []; sent = some (500, []); body = codes "Internal Server Error" })
unfolding soil.Web.Server.add_headers
serve_http-recovery_example =
    serve_http-recovery texts greeting (failing ∷ []) new_context nil_response here
      (record new_context { resp = nil_response; req = here; status = 200 })
      (unfold soil.Route.Group.wrap_all in refl) refl

abbrev friendly : Cors
friendly = record create { allow_origins = codes "https://a.b" ∷ []; allow_credentials = true }

abbrev visiting : Context
visiting = record new_context {
  req = record here { header = (codes "Origin", codes "https://a.b" ∷ []) ∷ [] };
}

build_credentials_example :
    (get origin_key (headers_at collected (context_of (handle friendly returned visiting)))
      ≡ get_header (codes "Origin") visiting)
    × In (get_header (codes "Origin") visiting) (codes "https://a.b" ∷ [])
unfolding routing build handle get
build_credentials_example =
    build_credentials collected friendly (handle friendly) visiting refl refl (λ e. cc)
