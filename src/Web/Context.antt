-- ===== src/Web/Context.antt =====
-- web/context.go: the context of a request. The values of forms, files and bodies are those of
-- net/http and are left out, and so is the decoding of JSON.
use soil.Base.{
  ℕ, pos, Bool, true, false, Option, none, some, List, [], ◌∷◌, Bytes, codes, same, split_first,
  trim_where, leb, ◌+◌, ◌==◌, ◌&&◌, ◌||◌, map, if◌then◌else◌,
}
use soil.Web.Exchange.{Header, Request, Response, get, set}

-- `Context`; `nil` is a request or a response with nothing in it, and no map of headers or of values.
pub record Context : Type 0 where
  pub resp : Response
  pub req : Request
  pub path_params : List (Bytes × Bytes)
  pub status : ℕ
  pub resp_data : Bytes
  pub resp_headers : Option Header
  pub matched_route : Bytes
  pub request_id : Bytes
  pub cached_query : Option (List (Bytes × List Bytes))
  pub is_done : Bool

abbrev pub nil_request : Request
nil_request = record {
  meth = [];
  path = [];
  header = [];
  query = [];
  content_length = pos 0;
  remote_addr = [];
  body_limit = none;
}

abbrev pub nil_response : Response
nil_response = record { header = []; sent = none; body = [] }

-- `&Context{}`
abbrev pub new_context : Context
new_context = record {
  resp = nil_response;
  req = nil_request;
  path_params = [];
  status = 0;
  resp_data = [];
  resp_headers = none;
  matched_route = [];
  request_id = [];
  cached_query = none;
  is_done = false;
}

unfoldable pub reset : Context → Context
reset c = record c {
  req = nil_request;
  resp = nil_response;
  path_params = [];
  status = 0;
  resp_data = [];
  resp_headers = none;
  matched_route = [];
  request_id = [];
  cached_query = none;
  is_done = false;
}

abbrev pub headers_of : Option Header → Header
headers_of none = []
headers_of (some h) = h

unfoldable pub set_header : Bytes → Bytes → Context → Context
set_header key v c = record c { resp_headers = some (set key v (headers_of c.resp_headers)) }

unfoldable pub get_header : Bytes → Context → Bytes
get_header key c = get key c.req.header

unfoldable pub abort : ℕ → Bytes → Context → Context
abort code msg c = record c { is_done = true; status = code; resp_data = msg }

-- What `RespString`, `RespHTML` and `RespJson` do with the text that they have made.
unfoldable pub respond : Bytes → ℕ → Bytes → Context → Context
unfolding set_header
respond content_type code text c = record (set_header (codes "Content-Type") content_type c) {
  status = code;
  resp_data = text;
}

unfoldable pub resp_string : ℕ → Bytes → Context → Context
unfolding respond
resp_string code text c = respond (codes "text/plain; charset=utf-8") code text c

unfoldable pub resp_html : ℕ → Bytes → Context → Context
unfolding respond
resp_html code html c = respond (codes "text/html; charset=utf-8") code html c

-- `RespJson`, given what `json.Marshal` makes of the value; whether it gives no error.
unfoldable pub resp_json : ℕ → Option Bytes → Context → Context × Bool
unfolding respond
resp_json code none c = (c, false)
resp_json code (some text) c = (respond (codes "application/json; charset=utf-8") code text c, true)

unfoldable pub value_of {ℓ} : {V : Type ℓ} → Bytes → List (Bytes × V) → Option V
value_of key [] = none
value_of key ((k, v) ∷ vs) = if same k key then some v else value_of key vs

-- `PathValue`; none stands for the error.
unfoldable pub path_value : Bytes → Context → Option Bytes
unfolding value_of
path_value key c = value_of key c.path_params

abbrev pub query_or :
    List (Bytes × List Bytes) → Option (List (Bytes × List Bytes)) → List (Bytes × List Bytes)
query_or q none = q
query_or q (some q') = q'

abbrev pub first_value : Option (List Bytes) → Option Bytes
first_value none = none
first_value (some []) = none
first_value (some (v ∷ vs)) = some v

-- `QueryValue`; `URL.Query()` has no key without values.
unfoldable pub query_value : Bytes → Context → Context × Option Bytes
unfolding value_of
query_value key c =
    let q = query_or c.req.query c.cached_query in
    (record c { cached_query = some q }, first_value (value_of key q))

to_lower : ℕ → ℕ
to_lower c = if leb b'A' c && leb c b'Z' then c + 32 else c

is_blank : ℕ → Bool
is_blank c = c == b' ' || c == 9 || c == 10 || c == 13

abbrev before_or_all : Bytes → Option (Bytes × Bytes) → Bytes
before_or_all s none = s
before_or_all s (some (a, b)) = a

-- The test of `BindJSON`, for ASCII.
unfoldable pub is_json : Context → Bool
unfolding get_header to_lower is_blank trim_where split_first same
is_json c =
    let content_type = map to_lower (trim_where is_blank (get_header (codes "Content-Type") c)) in
    same (trim_where is_blank (before_or_all content_type (split_first b';' content_type)))
      (codes "application/json")
