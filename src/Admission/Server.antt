-- ===== src/Admission/Server.antt =====
-- pkg/maroonedpods-server/maroonedpods-handler.go: the HTTP handler in front of the webhook.
use maroonedpods.Prelude.{
  ℕ, String, ◌≡◌, eq_iff, ◌≢◌, ◌⊎◌, inl, inr, Option, none, some, [], ◌∷◌, arith, ◌==◌, Result,
  Result-cases, ok, err, Error, failure, not_found, ◌>>=◌, concat, if◌then◌else◌,
}
use maroonedpods.Admission.{AdmissionRequest, AdmissionReview, Json, new_handler, handle}

-- `body` is what reading the request's body gives
pub record HttpRequest : Type 0 where
  pub content_type : String
  pub body : Result String

-- the decoded `AdmissionReview`, whose request may be nil
pub record IncomingReview : Type 0 where
  pub request : Option AdmissionRequest

-- encoding/json, at the two types of a review
pub record ReviewJson : Type 0 where
  pub unmarshal_review : String → Result IncomingReview
  pub marshal_review : AdmissionReview → Result String

-- `http.Error`, or the body written under `Content-Type: application/json`
pub data HttpResponse : Type 0 where
  http_error : String → ℕ → HttpResponse
  json_body : String → HttpResponse

abbrev pub status_bad_request : ℕ
status_bad_request = 400

abbrev pub status_internal_server_error : ℕ
status_internal_server_error = 500

-- `err.Error()`
unfoldable pub error_text : Error → String
error_text (failure s) = s
error_text not_found = "not found"

request_of : IncomingReview → Result AdmissionRequest
request_of a = elim a.request [
  | none ↦ err (failure "admission review can't be used: request field is nil")
  | some r ↦ ok r
]

abbrev pub wrap {ℓ} : {A : Type ℓ} → String → Result A → Result A
wrap prefix (ok a) = ok a
wrap prefix (err e) = err (failure (concat (prefix ∷ error_text e ∷ [])))

module _ (json : Json) (reviews : ReviewJson) where
  -- the request of the review; the code returns the review, whose request is not nil then
  unfoldable pub parse_request : HttpRequest → Result AdmissionRequest
  unfolding request_of
  parse_request r =
      if r.content_type == "application/json"
      then (do
        body ← r.body
        if body == "" then err (failure "admission request body is empty") else do
          a ← wrap "could not parse admission review request: " (reviews.unmarshal_review body)
          request_of a)
      else err (
          failure (
            concat
              ("Content-Type: \"" ∷ r.content_type ∷ "\" should be \"application/json\"" ∷ [])))

  reply : Result String → HttpResponse
  reply (ok jout) = json_body jout
  reply (err e) = http_error (error_text e) status_internal_server_error

  unfoldable pub serve_http : String → HttpRequest → HttpResponse
  unfolding reply
  serve_http ns r = elim (parse_request r) [
    | err e ↦ http_error (error_text e) status_bad_request
    | ok request ↦ reply (do
      out ← wrap "could not generate admission response: " (handle json (new_handler request ns))
      wrap "could not parse admission response: " (reviews.marshal_review out))
  ]

  -- A body is written only for a request that parses, and it is the encoding of the review that
  -- the webhook's handler gives for that request.
  pub serve_http-json_body :
      (ns : String) (r : HttpRequest) (body : String)
      → serve_http ns r ≡ json_body body
      → (request : AdmissionRequest) × (review : AdmissionReview) × (parse_request r ≡ ok request)
        × (handle json (new_handler request ns) ≡ ok review)
        × (reviews.marshal_review review ≡ ok body)
  unfolding serve_http
  serve_http-json_body ns r body h = ground arith

  -- An error is answered with status 400 if the request does not parse, and with 500 if it parses.
  pub serve_http-status :
      (ns : String) (r : HttpRequest) (message : String) (code : ℕ)
      → serve_http ns r ≡ http_error message code
      → ((code ≡ status_bad_request) × ((e : Error) × (parse_request r ≡ err e)))
        ⊎ ((code ≡ status_internal_server_error)
            × ((q : AdmissionRequest) × (parse_request r ≡ ok q)))
  unfolding serve_http
  serve_http-status ns r message code h = ground arith

  -- What parses was sent as JSON, with a body that is not empty and decodes to a review that
  -- carries the request.
  pub parse_request_sound :
      (r : HttpRequest) (request : AdmissionRequest)
      → parse_request r ≡ ok request
      → (r.content_type ≡ "application/json")
        × ((body : String) × (r.body ≡ ok body)
            × (body ≢ "")
            × (reviews.unmarshal_review body ≡ ok (record { request = some request })))
  unfolding parse_request
  parse_request_sound r request h = elim (Result-cases r.body) [
    | inr (e, p) ↦ absurd (ground arith)
    | inl (body, p) ↦ (
      ground (arith, eq_iff r.content_type "application/json"),
      (body, p, ground (arith, eq_iff body ""), ground arith),
    )
  ]
