-- ===== src/Migration/Fqdn/Rollback.antt =====
-- A failed change of the fqdn leaves the live configuration as it was.
use ces_importer.Base.{
  ◌≡◌, false, Option, none, some, Error, arith, Result-cases, Option-cases, inl, inr,
}
use ces_importer.Migration.Fqdn.{
  Changer, Service, Change, backup, delete_backup, update, restore, change, change_fqdn,
  create_change_request, is_restore_error,
}

-- `live` is what a changer is responsible for, `saved` its backup. A backup that succeeds saves the live value, a
-- restore that succeeds makes the saved value live, and an update leaves the backup alone; a restore or an
-- update that fails can leave anything live.
pub record IsLawful {W C V : Type 0} (c : Changer W C) (live : W → V) (saved : W → Option V)
    : Type 0 where
  pub backup_saves : (w : W) → (c.backup w).0 ≡ none → saved (c.backup w).1 ≡ some (live w)
  pub backup_live : (w : W) → live (c.backup w).1 ≡ live w
  pub update_saved : (x : C) (w : W) → saved (c.update x w).1 ≡ saved w
  pub restore_live :
      (w : W) (v : V) → (c.restore w).0 ≡ none → saved w ≡ some v → live (c.restore w).1 ≡ v
  pub delete_live : (w : W) → live (c.delete_backup w).1 ≡ live w

-- A changer leaves the value and the backup of another one alone.
pub record Leaves {W C V : Type 0} (c : Changer W C) (live : W → V) (saved : W → Option V)
    : Type 0 where
  pub backup_live : (w : W) → live (c.backup w).1 ≡ live w
  pub backup_saved : (w : W) → saved (c.backup w).1 ≡ saved w
  pub update_live : (x : C) (w : W) → live (c.update x w).1 ≡ live w
  pub update_saved : (x : C) (w : W) → saved (c.update x w).1 ≡ saved w
  pub restore_live : (w : W) → live (c.restore w).1 ≡ live w
  pub restore_saved : (w : W) → saved (c.restore w).1 ≡ saved w
  pub delete_live : (w : W) → live (c.delete_backup w).1 ≡ live w

-- The two changers of a service are lawful and apart from each other, and the exporter's configuration is only read.
pub record Apart {W A B : Type 0} (s : Service W) (live_a : W → A) (saved_a : W → Option A)
    (live_b : W → B) (saved_b : W → Option B) : Type 0 where
  pub fqdn : IsLawful s.fqdn live_a saved_a
  pub cert : IsLawful s.cert live_b saved_b
  pub fqdn_leaves : Leaves s.fqdn live_b saved_b
  pub cert_leaves : Leaves s.cert live_a saved_a
  pub reads :
      (w : W)
      → (live_a (s.get_config w).1 ≡ live_a w)
        × (saved_a (s.get_config w).1 ≡ saved_a w)
        × (live_b (s.get_config w).1 ≡ live_b w)
        × (saved_b (s.get_config w).1 ≡ saved_b w)

module _ {W A B : Type 0} (s : Service W) (live_a : W → A) (saved_a : W → Option A) (live_b : W → B)
    (saved_b : W → Option B) (laws : Apart s live_a saved_a live_b saved_b) where
  -- Both values are as in `w`.
  record Same (w w' : W) : Type 0 where
    same_a : live_a w' ≡ live_a w
    same_b : live_b w' ≡ live_b w

  -- Both backups hold the values of `w`.
  record Held (w w' : W) : Type 0 where
    held_a : saved_a w' ≡ some (live_a w)
    held_b : saved_b w' ≡ some (live_b w)

  backup-Same : (w : W) → Same w (backup s w).1
  unfolding backup
  backup-Same w =
      let w1 = (s.fqdn.backup w).1 in
      record {
        same_a = ground (arith, laws.fqdn.backup_live w, laws.cert_leaves.backup_live w1);
        same_b = ground (arith, laws.fqdn_leaves.backup_live w, laws.cert.backup_live w1);
      }

  backup-Held : (w : W) → (backup s w).0 ≡ none → Held w (backup s w).1
  unfolding backup
  backup-Held w h =
      let w1 = (s.fqdn.backup w).1 in
      record {
        held_a = ground (arith, laws.fqdn.backup_saves w, laws.cert_leaves.backup_saved w1);
        held_b = ground (arith, laws.fqdn_leaves.backup_live w, laws.cert.backup_saves w1);
      }

  update-Held : (c : Change) (w w' : W) → Held w w' → Held w (update s c w').1
  unfolding update
  update-Held c w w' held =
      let w1 = (s.fqdn.update c.config w').1 in
      record {
        held_a = ground (
          arith,
          held.held_a,
          laws.fqdn.update_saved c.config w',
          laws.cert_leaves.update_saved c.secret w1,
        );
        held_b = ground (
          arith,
          held.held_b,
          laws.fqdn_leaves.update_saved c.config w',
          laws.cert.update_saved c.secret w1,
        );
      }

  restore-Same : (w w' : W) → Held w w' → (restore s w').0 ≡ none → Same w (restore s w').1
  unfolding restore
  restore-Same w w' held h =
      let w1 = (s.cert.restore w').1 in
      record {
        same_a = ground (
          arith,
          held.held_a,
          laws.cert_leaves.restore_saved w',
          laws.fqdn.restore_live w1 (live_a w),
        );
        same_b = ground (
          arith,
          held.held_b,
          laws.cert.restore_live w' (live_b w),
          laws.fqdn_leaves.restore_live w1,
        );
      }

  delete_backup-Same : (w : W) → Same w (delete_backup s w).1
  unfolding delete_backup
  delete_backup-Same w =
      let w1 = (s.fqdn.delete_backup w).1 in
      record {
        same_a = ground (arith, laws.fqdn.delete_live w, laws.cert_leaves.delete_live w1);
        same_b = ground (arith, laws.fqdn_leaves.delete_live w, laws.cert.delete_live w1);
      }

  change-Same :
      (w w' : W) (e : Error)
      → Held w w'
      → Same w w'
      → (change s w').0 ≡ some e
      → is_restore_error e ≡ false
      → Same w (change s w').1
  unfolding change is_restore_error
  change-Same w w' e held same h k = elim (Result-cases (s.get_config w').0) [
    | inr (e1, p) ↦ record {
      same_a = ground (arith, laws.reads w', same.same_a);
      same_b = ground (arith, laws.reads w', same.same_b);
    }
    | inl (config, p) ↦ elim (Result-cases (create_change_request config.global_config)) [
      | inr (e1, q) ↦ record {
        same_a = ground (arith, laws.reads w', same.same_a);
        same_b = ground (arith, laws.reads w', same.same_b);
      }
      | inl (request, q) ↦
          let w1 = (s.get_config w').1 in
          let held1 : Held w w1 = record {
            held_a = ground (arith, held.held_a, laws.reads w');
            held_b = ground (arith, held.held_b, laws.reads w');
          } in
          let w2 = (update s request w1).1 in
          elim (Option-cases (update s request w1).0) [
            | inl u ↦ ground arith
            | inr (e2, u) ↦ elim (Option-cases (restore s w2).0) [
              | inr (e3, r) ↦ ground arith
              | inl r ↦
                  let back = restore-Same w w2 (update-Held request w w1 held1) r in
                  record {
                    same_a = ground (arith, back.same_a);
                    same_b = ground (arith, back.same_b);
                  }
            ]
          ]
    ]
  ]

  -- With lawful changers that leave each other alone, if `ChangeFQDN` returns an error, and it is not that a restore failed, then the fqdn's settings and the
  -- certificate are as they were before, wherever it failed: in the backup, at the exporter, in the
  -- request, or with none, one or both updates made.
  pub change_fqdn-rollback :
      (w : W) (e : Error)
      → (change_fqdn s w).0 ≡ some e
      → is_restore_error e ≡ false
      → (live_a (change_fqdn s w).1 ≡ live_a w) × (live_b (change_fqdn s w).1 ≡ live_b w)
  unfolding change_fqdn is_restore_error
  change_fqdn-rollback w e h k = elim (Option-cases (backup s w).0) [
    | inr (e1, p) ↦
        let kept = backup-Same w in (ground (arith, kept.same_a), ground (arith, kept.same_b))
    | inl p ↦
        let w1 = (backup s w).1 in
        let kept = change-Same w w1 e (backup-Held w p) (backup-Same w) (ground arith) k in
        let deleted = delete_backup-Same (change s w1).1 in
        (ground (arith, kept.same_a, deleted.same_a), ground (arith, kept.same_b, deleted.same_b))
  ]
