-- ===== src/Programs/Preflight/Passed.antt =====
-- When the preflight check passes.
use mathlib.Core.List.{append_assoc, append-nil}
use ces_importer.Base.{
  leaves, leaves-join, sym, ap, ◌∙◌, ◌++◌, ◌≡◌, ◌↔◌, refl, Bool, true, false, Option, none, some,
  Error, join, Result, ok, err, arith,
}
use ces_importer.Migration.Types.{SystemInfo}
use ces_importer.Programs.Preflight.{
  PreflightExecuter, run_preflight_check, health_error, ssh_error, info_error, joined,
}

joined-none : (a b : Option Error) → (joined a b ≡ none) ↔ ((a ≡ none) × (b ≡ none))
unfolding join
joined-none a b = ground arith

leaves-joined : (a b : Option Error) → leaves (joined a b) ≡ leaves a ++ leaves b
leaves-joined a none = sym (append-nil (leaves a))
leaves-joined a (some e) = leaves-join a (some e)

health_error-none : {r : Result Bool} → health_error r ≡ none → r ≡ ok true
health_error-none {r = err e} h = ground (arith, h)
health_error-none {r = ok true} h = refl
health_error-none {r = ok false} h = ground (arith, h)

ssh_error-none : {o : Option Error} → ssh_error o ≡ none → o ≡ none
ssh_error-none {o = none} h = refl
ssh_error-none {o = some e} h = ground (arith, h)

info_error-none : {r : Result SystemInfo} → info_error r ≡ none → (i : SystemInfo) × (r ≡ ok i)
info_error-none {r = ok i} h = (i, refl)
info_error-none {r = err e} h = ground (arith, h)

module _ {W : Type 0} (p : PreflightExecuter W) where
  -- Each check was made after the ones before it, whatever they gave, and found nothing.
  pub record Passed (w : W) : Type 0 where
    pub healthy : (p.get_is_healthy w).0 ≡ ok true
    pub connected : (p.test_ssh_connection (p.get_is_healthy w).1).0 ≡ none
    pub info : SystemInfo
    pub has_info :
        (p.get_importer_system_info (p.test_ssh_connection (p.get_is_healthy w).1).1).0 ≡ ok info

  run_preflight_check-Passed : (w : W) → (run_preflight_check p w).0 ≡ none → Passed w
  unfolding run_preflight_check
  run_preflight_check-Passed w h =
      let (ab, c) = (joined-none _ _).0 h in
      let (a, b) = (joined-none _ _).0 ab in
      let (info, i) = info_error-none c in
      record {
        healthy = health_error-none (((joined-none none _).0 a).1);
        connected = ssh_error-none b;
        info = info;
        has_info = i;
      }

  Passed-run_preflight_check : (w : W) → Passed w → (run_preflight_check p w).0 ≡ none
  unfolding run_preflight_check
  Passed-run_preflight_check w h = ground (arith, h.healthy, h.connected, h.has_info)

  -- The world after the test of the SSH connection.
  abbrev pub after_ssh : W → W
  after_ssh w = (p.test_ssh_connection (p.get_is_healthy w).1).1

  -- The preflight check makes its three checks, whatever they give, each in the world that the ones before have left: the errors joined in its result are
  -- that of the exporter's health, then that of the SSH connection, then that of the importer's system info, and the world is that after the last of them. There is no
  -- error exactly if the exporter says that it is healthy, the SSH test has no error and the system info can be read.
  pub run_preflight_check-checks :
      (w : W)
      → (leaves (run_preflight_check p w).0
          ≡ leaves (health_error (p.get_is_healthy w).0)
            ++ (leaves (ssh_error (p.test_ssh_connection (p.get_is_healthy w).1).0)
                ++ leaves (info_error (p.get_importer_system_info (after_ssh w)).0)))
        × ((run_preflight_check p w).1 ≡ (p.get_importer_system_info (after_ssh w)).1)
        × (((run_preflight_check p w).0 ≡ none) ↔ Passed w)
  unfolding run_preflight_check
  run_preflight_check-checks w =
      let health = health_error (p.get_is_healthy w).0 in
      let ssh = ssh_error (p.test_ssh_connection (p.get_is_healthy w).1).0 in
      let info = info_error (p.get_importer_system_info (after_ssh w)).0 in
      (
        leaves-joined (joined (joined none health) ssh) info
            ∙ ap (λ xs. xs ++ leaves info)
                (leaves-joined (joined none health) ssh
                  ∙ ap (λ xs. xs ++ leaves ssh) (leaves-joined none health))
            ∙ append_assoc (leaves health) (leaves ssh) (leaves info),
        refl,
        (run_preflight_check-Passed w, Passed-run_preflight_check w),
      )
