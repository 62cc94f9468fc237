-- ===== src/Tests/Cycles.antt =====
-- A first mint at 4200 s in a world that stores the status as it is sent, and the rotations after it.
use ephemeral_credential_bro.Base.{sym, String, refl, ◌≡◌, ap, some, arith}
use ephemeral_credential_bro.Base.Int.{int_laws, ◌+ℤ◌, ◌-ℤ◌, half, scale}
use ephemeral_credential_bro.Base.Map.{lookup, insert}
use ephemeral_credential_bro.GoTime.{Time, seconds, sub, add, negate, seconds_of, wrap64}
use ephemeral_credential_bro.Api.{Secret, EphemeralCredential}
use ephemeral_credential_bro.Effects.{Result, err, ok, ok-injective}
use ephemeral_credential_bro.Provider.{MintResult}
use ephemeral_credential_bro.Handle.{encode_handle, decode_handle}
use ephemeral_credential_bro.Handle.Base64.{encode, digit_char}
use ephemeral_credential_bro.GoStrings.{contains, join, sort, split}
use ephemeral_credential_bro.Api.Error.{is_no_revoke}
use ephemeral_credential_bro.TargetSecret.{
  mutate_secret, fill_secret, previously_managed_keys, remove_stale, secret_key, write_entries,
}
use ephemeral_credential_bro.Rotation.{
  next_window, requeue_after, clamp_rotate_before, requested_rotate_before,
}
use ephemeral_credential_bro.Controller.{event, stored_handle, set_ready_condition}
use ephemeral_credential_bro.Controller.Scope.{build_scope, build_github_scope}
use ephemeral_credential_bro.Controller.Mint.{
  mint_credential, mint_with, write_and_record, write_target_secret, record_mint,
}
use ephemeral_credential_bro.Controller.Outcome.Cycle.{StoresStatus, InStore}
use ephemeral_credential_bro.Controller.Outcome.Cycle.Due.{
  MintFits, CyclesIn, mint_credential-cycles,
}
use ephemeral_credential_bro.Controller.Outcome.Cycle.Again.{reconcile_rotates}
use ephemeral_credential_bro.Controller.Outcome.Delivered.{or_given}
use ephemeral_credential_bro.Controller.{now}
use ephemeral_credential_bro.Controller.Reconcile.{reconcile}
use ephemeral_credential_bro.Provider.{get}
use ephemeral_credential_bro.GoTime.{is_zero}
use ephemeral_credential_bro.Tests.Sample.{
  provider, reconciler, store, request, World, in_50_minutes, secret, unminted, world,
}

-- the one credential of the world
abbrev credential_at : String → String → World → EphemeralCredential
credential_at namespace name w = w.credential

abbrev exactly : Time → Time
exactly t = t

store-credential : (res : Result Secret) (w : World) → (store res w).1.credential ≡ w.credential
store-credential (ok s) w = refl
store-credential (err e) w = refl

reconciler-StoresStatus : StoresStatus reconciler provider credential_at exactly
unfolding event
reconciler-StoresStatus = record {
  not_later = λ t. omega int_laws;
  stored_times = λ ec ec' w expires rotated h k l. (k, l);
  stored_rest = λ ec ec' w h. (refl, refl, refl, refl);
  status_answer = λ ec ec' w h. ap (λ (c : EphemeralCredential). c.spec) (sym (ok-injective h));
  metadata_only = λ ec ec' w h same same_generation. ground (arith, ok-injective h);
  get_keeps = λ of_namespace of_name namespace name w. refl;
  mint_keeps = λ req namespace name w. refl;
  write_keeps = λ secret f namespace name w. store-credential (f (or_given w.secret secret)) w;
  condition_keeps = λ cs c namespace name w. refl;
  revoke_keeps = λ h namespace name w. refl;
  event_keeps = λ ec kind reason message namespace name w. refl;
}

unminted-InStore : InStore credential_at unminted (world (some secret) 4200)
unminted-InStore = record { spec = refl; generation = refl }

-- The provider grants an hour from the time of its clock.
provider-MintFits :
    MintFits reconciler provider credential_at exactly reconciler-StoresStatus unminted
      (seconds 4200)
      (world (some secret) 4200)
unfolding build_scope build_github_scope lookup ◌+ℤ◌
provider-MintFits m (scope, built, h) =
    let same : seconds 7800 ≡ m.expires_at =
      ap (λ (x : MintResult). x.expires_at) (ok-injective h) in
    rw (← same) (omega int_laws, omega int_laws, omega int_laws, omega int_laws)

mint_credential-cycles_example :
    CyclesIn reconciler provider credential_at exactly reconciler-StoresStatus unminted
      (seconds 4200)
      (world (some secret) 4200)
      in_50_minutes
      (credential_at "ci" "build-token"
        (mint_credential reconciler provider unminted (seconds 4200) (world (some secret) 4200)).1)
unfolding mint_credential mint_with build_scope build_github_scope lookup write_and_record
    write_target_secret mutate_secret record_mint encode_handle set_ready_condition event
    stored_handle decode_handle next_window insert requeue_after encode digit_char
    clamp_rotate_before requested_rotate_before sub add negate seconds_of wrap64 half scale ◌-ℤ◌
    ◌+ℤ◌ contains join sort split fill_secret previously_managed_keys remove_stale secret_key
    write_entries is_no_revoke
mint_credential-cycles_example =
    mint_credential-cycles reconciler provider credential_at exactly reconciler-StoresStatus
      unminted (seconds 4200) (world (some secret) 4200)
      (mint_credential reconciler provider unminted (seconds 4200) (world (some secret) 4200)).1
      in_50_minutes unminted-InStore provider-MintFits refl

-- The world after the mint, at 7300 s.
abbrev after : World
after =
    record (mint_credential reconciler provider unminted (seconds 4200)
      (world (some secret) 4200)).1 { time = seconds 7300 }

reconcile_rotates_example :
    reconcile reconciler request after
    ≡ mint_credential reconciler provider after.credential (seconds 7300) after
unfolding mint_credential mint_with build_scope build_github_scope lookup write_and_record
    write_target_secret mutate_secret record_mint encode_handle set_ready_condition event
    stored_handle decode_handle next_window insert requeue_after encode digit_char
    clamp_rotate_before requested_rotate_before sub add negate seconds_of wrap64 half scale ◌-ℤ◌
    ◌+ℤ◌ contains join sort split fill_secret previously_managed_keys remove_stale secret_key
    write_entries is_no_revoke is_zero get now
reconcile_rotates_example =
    reconcile_rotates reconciler provider credential_at exactly reconciler-StoresStatus unminted
      (seconds 4200) (world (some secret) 4200)
      (mint_credential reconciler provider unminted (seconds 4200) (world (some secret) 4200)).1
      in_50_minutes unminted-InStore provider-MintFits refl request (seconds 7300) after after after
      refl refl refl refl refl (omega int_laws)
