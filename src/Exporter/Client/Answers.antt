-- ===== src/Exporter/Client/Answers.antt =====
-- When a request has an answer.
use ces_importer.Base.{
  String, ◌≡◌, ◌↔◌, Option, none, ok, arith, Result-cases, Option-cases, inl, inr,
}
use ces_importer.Exporter.Client.{
  Request, Response, Http, Client, receive, exchange, do_get_request, do_post_request,
}

-- The request was sent with the key of the client, and its answer has the status 200 and this body.
pub record Answered {W : Type 0} (http : Http W) (c : Client) (method path : String)
    (body : Option String) (w : W) (answer : String) : Type 0 where
  pub url : String
  pub joined : http.join_path c.base_url path ≡ ok url
  pub requested : http.new_request method url ≡ none
  pub response : Response
  pub executed :
      (http.execute (record { method = method; url = url; api_key = c.api_key; body = body }) w).0
      ≡ ok response
  pub is_read : response.body ≡ ok answer
  pub has_status : response.status_code ≡ 200

module _ {W : Type 0} (http : Http W) (c : Client) where
  receive-eq-ok :
      (url : String) (r : Response) (answer : String)
      → receive http c url r ≡ ok answer
      → (r.body ≡ ok answer) × (r.status_code ≡ 200)
  unfolding receive
  receive-eq-ok url r answer h = elim (Result-cases r.body) [
    | inr (e, p) ↦ ground (arith, p, h)
    | inl (m, p) ↦ ground (arith, p, h)
  ]

  receive-ok :
      (url : String) (r : Response) (answer : String)
      → r.body ≡ ok answer
      → r.status_code ≡ 200
      → receive http c url r ≡ ok answer
  unfolding receive
  receive-ok url r answer p q = ground (arith, p, q)

  answered :
      (method path url : String) (body : Option String) (w : W) (answer : String)
      → http.join_path c.base_url path ≡ ok url
      → (exchange http c method url body w).0 ≡ ok answer
      → Answered http c method path body w answer
  unfolding exchange
  answered method path url body w answer j h = elim (Option-cases (http.new_request method url)) [
    | inr (e, p) ↦ ground (arith, p, h)
    | inl p ↦
        let request : Request = record {
          method = method;
          url = url;
          api_key = c.api_key;
          body = body;
        } in
        elim (Result-cases (http.execute request w).0) [
          | inr (e, q) ↦ ground (arith, p, q, h)
          | inl (r, q) ↦
              let (t, u) = receive-eq-ok url r answer (ground (arith, p, q, h)) in
              record {
                url = url;
                joined = j;
                requested = p;
                response = r;
                executed = q;
                is_read = t;
                has_status = u;
              }
        ]
  ]

  exchange-Answered :
      (method path : String) (body : Option String) (w : W) (answer : String)
      → (a : Answered http c method path body w answer)
      → (exchange http c method a.url body w).0 ≡ ok answer
  unfolding exchange
  exchange-Answered method path body w answer a =
      let received = receive-ok a.url a.response answer a.is_read a.has_status in
      ground (arith, a.requested, a.executed, received)

  pub do_get_request-eq-ok :
      (path : String) (w : W) (answer : String)
      → ((do_get_request http c path w).0 ≡ ok answer) ↔ Answered http c "GET" path none w answer
  unfolding do_get_request
  do_get_request-eq-ok path w answer = (
    λ h. elim (Result-cases (http.join_path c.base_url path)) [
      | inr (e, p) ↦ ground (arith, p, h)
      | inl (url, p) ↦ answered "GET" path url none w answer p (ground (arith, p, h))
    ],
    λ a. ground (arith, a.joined, exchange-Answered "GET" path none w answer a),
  )

  pub do_post_request-eq-ok :
      (path : String) (body : Option String) (w : W) (answer : String)
      → ((do_post_request http c path body w).0 ≡ ok answer)
        ↔ Answered http c "POST" path body w answer
  unfolding do_post_request
  do_post_request-eq-ok path body w answer = (
    λ h. elim (Result-cases (http.join_path c.base_url path)) [
      | inr (e, p) ↦ ground (arith, p, h)
      | inl (url, p) ↦ answered "POST" path url body w answer p (ground (arith, p, h))
    ],
    λ a. ground (arith, a.joined, exchange-Answered "POST" path body w answer a),
  )
