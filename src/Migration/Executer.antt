-- ===== src/Migration/Executer.antt =====
-- cmd/import-job/executer.go: what the import job does. Each part is a parameter, a function on a world.
use ces_importer.Base.{Option, none, some, Error, wrap, join, ◌≡◌, ◌↔◌, arith, true, if◌then◌else◌}
use ces_importer.Migration.Context.{Context, trigger_fqdn_change}

pub record ImportExecuter (W : Type 0) : Type 0 where
  pub sync_data : W → Option Error × W
  pub sync_config : W → Option Error × W
  pub change_fqdn : W → Option Error × W

module _ {W : Type 0} (j : ImportExecuter W) where
  -- The end of `Start`, after the two synchronisations.
  unfoldable pub finish : Context → Option Error → W → Option Error × W
  finish ctx sync_error w =
      let (failure, w') = j.change_fqdn w in
      elim sync_error [
        | some e ↦ (some e, w)
        | none ↦
            if trigger_fqdn_change ctx
            then elim failure [
              | none ↦ (none, w')
              | some e ↦ (some (wrap "failed to change fqdn" e), w')
            ]
            else (none, w)
      ]

  unfoldable pub start : Context → W → Option Error × W
  start ctx w =
      let (data_error, w1) = j.sync_data w in
      let (config_error, w2) = j.sync_config w1 in
      finish ctx (join (join none data_error) config_error) w2

  -- `Start` copies the data and then the configuration, whether or not the data failed. The fqdn is changed
  -- after that exactly if both succeeded and the context has the trigger.
  start-world :
      (ctx : Context) (w : W)
      → let copied = j.sync_data w in
        let config = j.sync_config copied.1 in
        ((copied.0 ≡ none) × (config.0 ≡ none) × (trigger_fqdn_change ctx ≡ true)
          → (start ctx w).1 ≡ (j.change_fqdn config.1).1)
        × ((¬ ((copied.0 ≡ none) × (config.0 ≡ none) × (trigger_fqdn_change ctx ≡ true)))
            → (start ctx w).1 ≡ config.1)
  unfolding start finish join
  start-world ctx w = (λ h. ground arith, λ h. ground arith)

  -- `Start` succeeds exactly if both synchronisations do, and the change of the fqdn too where it is triggered.
  pub start-eq-none :
      (ctx : Context) (w : W)
      → let copied = j.sync_data w in
        let config = j.sync_config copied.1 in
        ((start ctx w).0 ≡ none) ↔ (
          (copied.0 ≡ none)
          × (config.0 ≡ none)
          × (trigger_fqdn_change ctx ≡ true → (j.change_fqdn config.1).0 ≡ none))
  unfolding start finish join
  start-eq-none ctx w = ground arith
