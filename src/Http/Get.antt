-- ===== src/Http/Get.antt =====
-- http/http.go: `get` and `post`.
use go_eth2_client.Prelude.{
  Ending, returns, ℕ, ◌/◌, Text, Bytes, codes, Error, Result, ok, err, wrap, ◌==◌, Option, none,
  some, [], ◌++◌, trim_slash, if◌then◌else◌,
}
use go_eth2_client.Codec.Decimal.{format_uint}
use go_eth2_client.Http.Service.{Service, Verb, get_verb, post_verb, Request, Response, Server, M}

-- `Error` of the type `Error`: the method, the status and the data.
abbrev verb_text : Verb → Text
verb_text get_verb = codes "GET"
verb_text post_verb = codes "POST"

abbrev pub status_error : Verb → ℕ → Bytes → Error
status_error verb status body =
    verb_text verb ++ codes " failed with status " ++ format_uint status ++ codes ": " ++ body

-- The body of a response, if its status is in the family of 200.
abbrev pub checked_content : Verb → ℕ → Result Bytes → Result Bytes
checked_content verb status (err e) =
    err (wrap e (codes "failed to read " ++ verb_text verb ++ codes " response"))
checked_content verb status (ok body) =
    if status / 100 == 2 then ok body else err (status_error verb status body)

-- A body, or none for a 404.
abbrev pub found : Response → Result (Option Bytes)
found r =
    if r.status_code == 404
    then ok none
    else present (checked_content get_verb r.status_code r.content)
  where
    present : Result Bytes → Result (Option Bytes)
    present (err e) = err e
    present (ok body) = ok (some body)

module _ (server : Server) where
  open server use {World, valid_url, respond}

  abbrev received :
      {A : Type 0} → Verb → (Response → Result A) → Result Response × World → Result A × World
  received verb f (err e, w) =
      (err (wrap e (codes "failed to call " ++ verb_text verb ++ codes " endpoint")), w)
  received verb f (ok r, w) = (f r, w)

  abbrev send :
      {A : Type 0} → (Response → Result A) → Request → World → Result (Unit {0}) → Result A × World
  send f request w (err e) = (err (wrap e (codes "invalid endpoint")), w)
  send f request w (ok _) = received request.verb f (respond request w)

  abbrev full_url : Service → Text → Text
  full_url s endpoint = trim_slash s.base ++ endpoint

  abbrev with_service : {A : Type 0} → Service → Result A × World → Ending A × Service × World
  with_service s (r, w) = (returns r, s, w)

  unfoldable pub get : Text → M World (Option Bytes)
  get endpoint s w =
      let request : Request = record { verb = get_verb; url = full_url s endpoint; body = [] } in
      with_service s (send found request w (valid_url request.url))

  unfoldable pub post : Text → Bytes → M World Bytes
  post endpoint content s w =
      let request : Request = record {
        verb = post_verb;
        url = full_url s endpoint;
        body = content;
      } in
      with_service s (
        send (λ r. checked_content post_verb r.status_code r.content) request w
          (valid_url request.url))
