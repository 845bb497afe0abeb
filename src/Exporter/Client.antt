-- ===== src/Exporter/Client.antt =====
-- api/exporter/client.go: the requests of `Client` and the interface `apiClient` that it implements.
pub mod Answers
use ces_importer.Base.{
  ℕ, String, ◌<>◌, Option, none, some, Error, plain, wrap, Result, ok, err, nat_eq, if◌then◌else◌,
}

pub record Request : Type 0 where
  pub method : String
  pub url : String
  -- the header `X-CES-EXPORTER-API-KEY`
  pub api_key : String
  pub body : Option String

-- `body` is what `io.ReadAll` gives.
pub record Response : Type 0 where
  pub status_code : ℕ
  pub body : Result String

-- `net/http` and `net/url`, and how `fmt` writes a number. An error of `http.NewRequestWithContext` depends on the method and the URL.
pub record Http (W : Type 0) : Type 0 where
  pub join_path : String → String → Result String
  pub new_request : String → String → Option Error
  pub execute : Request → W → Result Response × W
  pub decimal : ℕ → String

pub record Client : Type 0 where
  pub base_url : String
  pub api_key : String

-- `apiClient`
pub record ApiClient (W : Type 0) : Type 0 where
  pub do_get_request : String → W → Result String × W
  pub do_post_request : String → Option String → W → Result String × W

abbrev status_ok : ℕ
status_ok = 200

module _ {W : Type 0} (http : Http W) (c : Client) where
  -- What is done with the response.
  unfoldable pub receive : String → Response → Result String
  receive url response = elim response.body [
    | err e ↦ err (plain ("failed to read response body for " <> url))
    | ok message ↦
        if nat_eq response.status_code status_ok
        then ok message
        else err (
            plain (
              "received unexpected response to "
              <> url
              <> " (wanted "
              <> http.decimal status_ok
              <> " got "
              <> http.decimal response.status_code
              <> ")"))
  ]

  -- Both functions from the making of the request on.
  unfoldable pub exchange : String → String → Option String → W → Result String × W
  exchange method url body w = elim (http.new_request method url) [
    | some e ↦ (err (wrap ("failed to create request to " <> url) e), w)
    | none ↦
        let (response, w1) =
          http.execute (record { method = method; url = url; api_key = c.api_key; body = body })
            w in
        elim response [
          | err e ↦ (err (wrap ("request to " <> url <> " failed with an error") e), w1)
          | ok r ↦ (receive url r, w1)
        ]
  ]

  unfoldable pub do_get_request : String → W → Result String × W
  do_get_request path w = elim (http.join_path c.base_url path) [
    | err e ↦ (err (wrap "failed to create request url" e), w)
    | ok url ↦ exchange "GET" url none w
  ]

  unfoldable pub do_post_request : String → Option String → W → Result String × W
  do_post_request path body w = elim (http.join_path c.base_url path) [
    | err e ↦ (err (wrap ("failed to join url path " <> path) e), w)
    | ok url ↦ exchange "POST" url body w
  ]

  abbrev pub api_client : ApiClient W
  api_client = record { do_get_request = do_get_request; do_post_request = do_post_request }
