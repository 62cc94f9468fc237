-- ===== src/Tests/Deliveries.antt =====
-- A rotation that delivers its token into the target Secret.
use ephemeral_credential_bro.Base.{String, ◌≡◌, refl, Option, some, arith}
use ephemeral_credential_bro.Base.Map.{lookup, insert}
use ephemeral_credential_bro.GoTime.{seconds}
use ephemeral_credential_bro.Api.{Secret}
use ephemeral_credential_bro.Effects.{Result, ok, err}
use ephemeral_credential_bro.Handle.{encode_handle, decode_handle}
use ephemeral_credential_bro.Controller.{event, stored_handle, set_ready_condition}
use ephemeral_credential_bro.Controller.Scope.{build_scope, build_github_scope}
use ephemeral_credential_bro.Controller.Mint.{
  mint_credential, mint_with, write_and_record, write_target_secret, record_mint,
}
use ephemeral_credential_bro.TargetSecret.{mutate_secret}
use ephemeral_credential_bro.Rotation.{next_window, requeue_after}
use ephemeral_credential_bro.Controller.Outcome.Delivered.{
  StoresSecrets, IsWritten, Delivered, or_given, mint_credential-delivers,
}
use ephemeral_credential_bro.Handle.Base64.{encode, digit_char}
use ephemeral_credential_bro.Rotation.{clamp_rotate_before, requested_rotate_before}
use ephemeral_credential_bro.GoTime.{sub, add, negate, seconds_of, wrap64}
use ephemeral_credential_bro.Base.Int.{half, scale, ◌-ℤ◌, ◌+ℤ◌}
use ephemeral_credential_bro.GoStrings.{contains, join, sort, split}
use ephemeral_credential_bro.TargetSecret.{
  fill_secret, previously_managed_keys, remove_stale, secret_key, write_entries,
}
use ephemeral_credential_bro.Api.Error.{is_no_revoke}
use ephemeral_credential_bro.Tests.Sample.{
  World, in_50_minutes, unminted, provider, reconciler, secret, world, store,
}

-- the one Secret of the world
abbrev secret_at : String → String → World → Option Secret
secret_at namespace name w = w.secret

store-IsWritten :
    (s s' : Secret) (f : Secret → Result Secret) (w : World) (res : Result Secret)
    → f (or_given w.secret s) ≡ res
    → (store res w).0 ≡ ok s'
    → IsWritten secret_at s f w (store res w).1
store-IsWritten s s' f w (ok filled) e h = record {
  filled = filled;
  made = e;
  kept = filled;
  there = refl;
  same_data = refl;
}
store-IsWritten s s' f w (err x) e h = cc

reconciler-StoresSecrets : StoresSecrets reconciler provider secret_at
unfolding event
reconciler-StoresSecrets = record {
  written = λ s s' f w h. store-IsWritten s s' f w (f (or_given w.secret s)) refl h;
  get_keeps = λ of_namespace of_name namespace name w. refl;
  mint_keeps = λ req namespace name w. refl;
  owned = λ ec s s' h. ground arith;
  update_keeps = λ ec namespace name w. refl;
  status_keeps = λ ec namespace name w. refl;
  revoke_keeps = λ h namespace name w. refl;
  event_keeps = λ ec kind reason message namespace name w. refl;
  condition_keeps = λ cs c namespace name w. refl;
}

mint_credential-delivers_example :
    Delivered reconciler provider secret_at reconciler-StoresSecrets unminted
      (seconds 4200)
      (world (some secret) 4200)
      (mint_credential reconciler provider unminted (seconds 4200) (world (some secret) 4200)).1
unfolding mint_credential mint_with build_scope build_github_scope lookup write_and_record
    write_target_secret mutate_secret record_mint encode_handle set_ready_condition event
    stored_handle decode_handle next_window insert requeue_after encode digit_char
    clamp_rotate_before requested_rotate_before sub add negate seconds_of wrap64 half scale ◌-ℤ◌
    ◌+ℤ◌ contains join sort split fill_secret previously_managed_keys remove_stale secret_key
    write_entries is_no_revoke
mint_credential-delivers_example =
    mint_credential-delivers reconciler provider secret_at reconciler-StoresSecrets unminted
      (seconds 4200) (world (some secret) 4200)
      (mint_credential reconciler provider unminted (seconds 4200) (world (some secret) 4200)).1
      in_50_minutes refl
