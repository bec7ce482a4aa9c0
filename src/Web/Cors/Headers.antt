-- ===== src/Web/Cors/Headers.antt =====
-- web/middleware/cors/cors.go: what the headers are that it sets.
use soil.Base.{
  zero, suc, pos, negsuc, ◌≡◌, ◌⊎◌, inl, inr, refl, sym, ap, ◌∙◌, Bool, true, false, List, [], ◌∷◌,
  ◌++◌, Bytes, codes, same, eq_of_same, In, Bool-cases, if◌then◌else◌, ℤ,
}
use soil.Web.Exchange.{Header, get, set, add, get-set, values_of-put_values}
use soil.Web.Context.{Context, headers_of, set_header}
use soil.Web.Cors.{
  Cors, wildcard_in, first_match, match_origin, is_empty, set_list, set_max_age, set_credentials,
  preflight_headers, with_policy, expose, allow_credentials_if,
}

abbrev pub credentials_key : Bytes
credentials_key = codes "Access-Control-Allow-Credentials"

abbrev pub origin_key : Bytes
origin_key = codes "Access-Control-Allow-Origin"

-- Without a wildcard, what matches is an origin of the list.
first_match_cases :
    (origin : Bytes) (os : List Bytes)
    → wildcard_in os ≡ false
    → (first_match origin os ≡ []) ⊎ ((first_match origin os ≡ origin) × In origin os)
unfolding wildcard_in first_match
first_match_cases origin [] h = inl refl
first_match_cases origin (o ∷ os) h = elim (Bool-cases (same o (codes "*"))) [
  | inl e ↦ cc (rw e at h)
  | inr e ↦ elim (Bool-cases (same o origin)) [
    | inl q ↦ inr (rw (e, q), inl (sym (eq_of_same o origin q)))
    | inr q ↦
        rw (e, q)
          (elim (first_match_cases origin os (rw e at h)) [
            | inl z ↦ inl z
            | inr (z, i) ↦ inr (z, inr i)
          ])
  ]
]

pub match_origin_cases :
    (mb : Cors) (origin : Bytes)
    → wildcard_in mb.allow_origins ≡ false
    → (match_origin mb origin ≡ [])
      ⊎ ((match_origin mb origin ≡ origin) × In origin mb.allow_origins)
unfolding match_origin
match_origin_cases mb [] h = inl refl
match_origin_cases mb (b ∷ s) h = first_match_cases (b ∷ s) mb.allow_origins h

module _ (j : Bytes) (h : Header) where
  get-add_other : (key v : Bytes) → same key j ≡ false → get j (add key v h) ≡ get j h
  unfolding get add
  get-add_other key v e = rw (values_of-put_values (λ vs. vs ++ (v ∷ [])) key j h, e)

  get-set_other : (key v : Bytes) → same key j ≡ false → get j (set key v h) ≡ get j h
  get-set_other key v e = rw (get-set key v j h, e)

  get-set_list_other :
      (key : Bytes) (vs : List Bytes) → same key j ≡ false → get j (set_list key vs h) ≡ get j h
  unfolding set_list
  get-set_list_other key [] e = refl
  get-set_list_other key (v ∷ vs) e = get-set_other key _ e

  get-set_max_age_other :
      (n : ℤ) → same (codes "Access-Control-Max-Age") j ≡ false → get j (set_max_age n h) ≡ get j h
  unfolding set_max_age
  get-set_max_age_other (pos zero) e = refl
  get-set_max_age_other (pos (suc n)) e = get-set_other _ _ e
  get-set_max_age_other (negsuc n) e = refl

get-set_credentials :
    (b : Bool) (h : Header)
    → get credentials_key (set_credentials b h)
      ≡ (if b then codes "true" else get credentials_key h)
unfolding set_credentials same
get-set_credentials true h = get-set credentials_key (codes "true") credentials_key h
get-set_credentials false h = refl

get-set_credentials_other :
    (b : Bool) (h : Header) → get origin_key (set_credentials b h) ≡ get origin_key h
unfolding set_credentials same
get-set_credentials_other true h = get-set_other origin_key h credentials_key (codes "true") refl
get-set_credentials_other false h = refl

-- What the two headers are in a preflight response.
pub get-preflight_headers :
    (mb : Cors) (origin : Bytes) (h : Header)
    → (get origin_key (preflight_headers mb origin h) ≡ origin)
      × (get credentials_key (preflight_headers mb origin h)
          ≡ (if mb.allow_credentials then codes "true" else get credentials_key h))
unfolding preflight_headers same
get-preflight_headers mb origin h = (
  get-add_other _ _ _ _ refl
      ∙ get-set_max_age_other _ _ mb.max_age refl
      ∙ get-set_list_other _ _ _ mb.allow_headers refl
      ∙ get-set_list_other _ _ _ mb.allow_methods refl
      ∙ get-set_credentials_other mb.allow_credentials _
      ∙ get-set origin_key origin origin_key h,
  get-add_other _ _ _ _ refl
      ∙ get-set_max_age_other _ _ mb.max_age refl
      ∙ get-set_list_other _ _ _ mb.allow_headers refl
      ∙ get-set_list_other _ _ _ mb.allow_methods refl
      ∙ get-set_credentials mb.allow_credentials _
      ∙ ap (λ t. if mb.allow_credentials then codes "true" else t)
          (get-set_other credentials_key h origin_key origin refl),
)

unfoldable pub collected_headers : Context → Header
collected_headers c = headers_of c.resp_headers

get-set_header_other :
    (j key v : Bytes) (c : Context)
    → same key j ≡ false
    → get j (collected_headers (set_header key v c)) ≡ get j (collected_headers c)
unfolding set_header collected_headers
get-set_header_other j key v c e = get-set_other j _ key v e

get-set_header :
    (key v : Bytes) (c : Context)
    → same key key ≡ true
    → get key (collected_headers (set_header key v c)) ≡ v
unfolding set_header collected_headers
get-set_header key v c e = rw (get-set key v key (collected_headers c), e)

get-expose :
    (j : Bytes) (vs : List Bytes) (c : Context)
    → same (codes "Access-Control-Expose-Headers") j ≡ false
    → get j (collected_headers (expose vs c)) ≡ get j (collected_headers c)
unfolding expose set_header collected_headers
get-expose j [] c e = refl
get-expose j (v ∷ vs) c e = get-set_other j _ _ _ e

get-allow_credentials_if :
    (b : Bool) (c : Context)
    → (get origin_key (collected_headers (allow_credentials_if b c))
        ≡ get origin_key (collected_headers c))
      × (get credentials_key (collected_headers (allow_credentials_if b c))
          ≡ (if b then codes "true" else get credentials_key (collected_headers c)))
unfolding allow_credentials_if set_header collected_headers same
get-allow_credentials_if true c = (get-set_other _ _ _ _ refl, get-set _ _ _ _)
get-allow_credentials_if false c = (refl, refl)

-- What the two headers are in the context of an ordinary request.
pub get-with_policy :
    (mb : Cors) (origin : Bytes) (c : Context)
    → is_empty origin ≡ false
    → (get origin_key (collected_headers (with_policy mb origin c)) ≡ origin)
      × (get credentials_key (collected_headers (with_policy mb origin c)) ≡ (
          if mb.allow_credentials then codes "true" else get credentials_key (collected_headers c)))
unfolding with_policy same
get-with_policy mb origin c e =
    let c1 = set_header origin_key origin c in
    let c2 = allow_credentials_if mb.allow_credentials c1 in
    let (o, k) = get-allow_credentials_if mb.allow_credentials c1 in
    rw e (
      get-set_header_other origin_key _ _ _ refl
          ∙ get-expose origin_key mb.expose_headers c2 refl
          ∙ o
          ∙ get-set_header origin_key origin c refl,
      get-set_header_other credentials_key _ _ _ refl
          ∙ get-expose credentials_key mb.expose_headers c2 refl
          ∙ k
          ∙ ap (λ t. if mb.allow_credentials then codes "true" else t)
              (get-set_header_other credentials_key origin_key origin c refl),
    )
