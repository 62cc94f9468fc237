-- ===== src/Tests/Hazards.antt =====
-- A missing Secret that cannot be minted again.
use ephemeral_credential_bro.Base.{refl, none, some, []}
use ephemeral_credential_bro.GoTime.{seconds}
use ephemeral_credential_bro.Api.Error.{foreign}
use ephemeral_credential_bro.Effects.{err}
use ephemeral_credential_bro.Provider.{Provider}
use ephemeral_credential_bro.Cluster.{Reconciler}
use ephemeral_credential_bro.Controller.Status.{target_secret_exists}
use ephemeral_credential_bro.Controller.Reconcile.{keep_or_restore}
use ephemeral_credential_bro.Controller.Traced.{traced, traced_provider}
use ephemeral_credential_bro.Controller.Outcome.Missing.{Misreports, missing-Misreports}
use ephemeral_credential_bro.Tests.Sample.{
  World, credential, provider, reconciler, reconciler-SetsConditions, world,
}

-- No mint succeeds, and the clock stands still.
abbrev refusing : Provider World
refusing = record provider { mint = λ req w. (err (foreign "Timeout" "no answer"), w) }

abbrev stopped : Reconciler World
stopped = record reconciler { override_now = some (λ w. (seconds 2000, w)) }

missing-Misreports_example :
    Misreports
      (keep_or_restore
        (traced stopped)
        (traced_provider refusing)
        credential
        (seconds 2000)
        (some (seconds 4600))
        (world none 2000, [])).1.1
unfolding target_secret_exists
missing-Misreports_example =
    missing-Misreports stopped (reconciler-SetsConditions (some (λ w. (seconds 2000, w)))) refusing
      credential (seconds 4600) refl (λ v. refl) (λ req v. refl) (seconds 2000) (world none 2000)
      refl
