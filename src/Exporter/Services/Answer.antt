-- ===== src/Exporter/Services/Answer.antt =====
-- What the services read from the exporter, over the HTTP client.
use ces_importer.Base.{
  ap, ◌∙◌, String, ◌≡◌, ◌↔◌, refl, Bool, true, none, Result, ok, err, arith, Result-cases, inl, inr,
}
use ces_importer.Exporter.Client.{Http, Client, api_client}
use ces_importer.Exporter.Client.Answers.{Answered, do_get_request-eq-ok}
use ces_importer.Exporter.Data.{ExportMode}
use ces_importer.Exporter.Services.{decoded, get_export_mode, path_export_mode}
use ces_importer.Migration.ExportMode.{validate_export_mode}

validate_export_mode-eq-none : (r : Result Bool) → (validate_export_mode r ≡ none) ↔ (r ≡ ok true)
unfolding validate_export_mode
validate_export_mode-eq-none (err e) = (λ h. ground arith, λ h. ground arith)
validate_export_mode-eq-none (ok b) = (λ h. ground arith, λ h. ground (arith, h))

module _ {W : Type 0} (http : Http W) (c : Client) (quote : String → String) where
  decoded-eq-ok :
      {A B : Type 0} (a : String) (b : String → String) (json : String → Result A) (view : A → B)
      (r : Result String × W) (y : B)
      → ((decoded a b json view r).0 ≡ ok y)
        ↔ (answer : String) × (x : A) × (r.0 ≡ ok answer) × (json answer ≡ ok x) × (view x ≡ y)
  unfolding decoded
  decoded-eq-ok a b json view (err e, w) y = (λ h. ground arith, λ (_, _, h, _, _). ground arith)
  decoded-eq-ok a b json view (ok answer, w) y = (
    λ h. elim (Result-cases (json answer)) [
      | inr (e, p) ↦ ground (arith, p, h)
      | inl (x, p) ↦ (answer, x, refl, p, ground (arith, p, h))
    ],
    λ (answer', x, h, p, q). ground (arith, h, p, q),
  )

  -- The exporter answered a GET with the status 200 and a body that decodes to this.
  abbrev pub Read : {A : Type 0} → String → (String → Result A) → W → A → Type 0
  Read path json w a =
      (answer : String) × Answered http c "GET" path none w answer × (json answer ≡ ok a)

  -- The check of the export mode, from `Validate` down to the HTTP request, returns no error exactly if the exporter answered the request for its
  -- export mode with the status 200 and a body that says that it is active.
  pub validate_export_mode-active :
      (json : String → Result ExportMode) (w : W)
      → (validate_export_mode (get_export_mode (api_client http c) quote json w).0 ≡ none)
        ↔ Read path_export_mode json w (record { is_active = true })
  unfolding get_export_mode
  validate_export_mode-active json w =
      let (there, back) =
        decoded-eq-ok _ _ json (λ m. m.is_active)
          ((api_client http c).do_get_request path_export_mode w) true in
      let (active, passes) =
        validate_export_mode-eq-none (get_export_mode (api_client http c) quote json w).0 in
      (
        λ h.
            let (answer, x, p, q, r) = there (active h) in
            (
              answer,
              (do_get_request-eq-ok http c path_export_mode w answer).0 p,
              q ∙ ap (λ b. ok (record { is_active = b })) r,
            ),
        λ (answer, a, q). passes (
            back (
              answer,
              record { is_active = true },
              (do_get_request-eq-ok http c path_export_mode w answer).1 a,
              q,
              refl,
            )),
      )
