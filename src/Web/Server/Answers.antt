-- ===== src/Web/Server/Answers.antt =====
-- web/server.go with web/route.go: what the client gets for a path that the router knows or does
-- not know.
use soil.Base.{
  ℕ, ◌≡◌, refl, ap, ◌∙◌, ◌⊎◌, ◌≢◌, ◌↔◌, inl, inr, true, Option, none, some, List, [], ◌∷◌, ◌++◌,
  Bytes, codes, All, In,
}
use soil.Route.Node.{Regexp, Node}
use soil.Route.Insert.{Router}
use soil.Route.Methods.{HasDistinct, Knows, find_route-none_iff, find_route-not_allowed}
use soil.Route.Find.{no_match, find_in_tree, find_own, other_methods, not_allowed, find_route}
use soil.Web.Exchange.{Header, Request, Response, add}
use soil.Web.Context.{Context, set_header}
use soil.Web.Server.{Handler, serve_http, answer, join_comma}

module _ {R : Type 0} (re : Regexp R) where
  -- What is sent by a response that has not been begun.
  abbrev pub sent_as : ℕ → Header → Bytes → Response → Response
  sent_as code header text w = record {
    header = header;
    sent = some (code, header);
    body = w.body ++ text;
  }

  unmatched :
      (router : Router Handler R) (m path : Bytes)
      → find_own re router m path ≡ none
      → find_route re router m path ≡ not_allowed (other_methods re m path router)
  unfolding find_route
  unmatched router m path e = rw (e, find_route)

  abbrev pub Refuses : Router Handler R → Request → Response → Option Response → Type 0
  Refuses router rq w out =
      (All (λ e. find_in_tree re e.1 rq.path ≡ none) router
        × (out ≡ some (sent_as 404 w.header (codes "404 page not found") w)))
      ⊎ ((ms : List Bytes) × (ms ≢ [])
          × ((k : Bytes)
              → In k ms ↔ (
                  (k ≢ rq.meth)
                  × (t : Node Handler R) × In (k, t) router
                  × Knows re rq.path (k, t)))
          × (out
              ≡ some (
                  sent_as 405 (add (codes "Allow") (join_comma ms) w.header)
                    (codes "405 method not allowed") w)))

  Refuses-by :
      (router : Router Handler R) (taken : Context) (w : Response) (rq : Request) (ms : List Bytes)
      → HasDistinct router
      → find_own re router rq.meth rq.path ≡ none
      → w.sent ≡ none
      → other_methods re rq.meth rq.path router ≡ ms
      → Refuses router rq w (answer (serve_http re router [] taken w rq).0)
  unfolding serve_http answer add soil.Web.Exchange.put_values set_header soil.Web.Exchange.set
  Refuses-by router taken w rq [] d own fresh e =
      let found : find_route re router rq.meth rq.path ≡ none =
        unmatched router rq.meth rq.path own
        ∙ ap (not_allowed {H = Handler} {R = R}) e
        ∙ (unfold not_allowed in refl) in
      inl ((find_route-none_iff re router rq.meth rq.path d).0 found, rw (found, fresh))
  Refuses-by router taken w rq (m ∷ ms) d own fresh e =
      let found : find_route re router rq.meth rq.path
          ≡ some (record no_match { method_not_allowed = true; allowed_methods = m ∷ ms }) =
        unmatched router rq.meth rq.path own
        ∙ ap (not_allowed {H = Handler} {R = R}) e
        ∙ (unfold not_allowed in refl) in
      let (own', some_method, exactly) =
        find_route-not_allowed re router rq.meth rq.path _ found refl in
      inr (m ∷ ms, some_method, exactly, rw (found, fresh))

  -- Where the tree of the request's method has no match, a server without middlewares answers 404 if no
  -- tree has one, and else 405, with the methods of the trees that have one in the header Allow.
  pub serve_http-unmatched :
      (router : Router Handler R) (taken : Context) (w : Response) (rq : Request)
      → HasDistinct router
      → find_own re router rq.meth rq.path ≡ none
      → w.sent ≡ none
      → Refuses router rq w (answer (serve_http re router [] taken w rq).0)
  serve_http-unmatched router taken w rq d own fresh =
      Refuses-by router taken w rq (other_methods re rq.meth rq.path router) d own fresh refl
