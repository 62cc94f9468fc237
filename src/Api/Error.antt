-- ===== src/Api/Error.antt =====
-- Go errors and texts. A text that `fmt` builds is its format and its arguments, not rendered.
use ephemeral_credential_bro.Base.{ℕ, String, Bool, true, false, List}
use ephemeral_credential_bro.GoTime.{Time, Duration}

mutual
  pub data Error : Type 0 where
    -- an error that code outside the repository made: its reason or kind, and its text
    foreign : String → String → Error
    -- the sentinel `provider.ErrNoRevoke`
    no_revoke : Error
    -- `errors.New(m)`, or `fmt.Errorf` with no `%w`
    new : Message → Error
    -- `fmt.Errorf("…: %w", …, err)`
    wrap : Message → Error → Error

  pub data Message : Type 0 where
    -- a format with texts for its arguments
    format : String → List String → Message
    -- `err.Error()`
    of_error : Error → Message
    -- a format with a number and then texts
    format_status : String → ℕ → List String → Message
    -- what `failStatus` says of a credential in a Secret that is valid until a time
    still_valid : String → Time → Message → Message
    -- what `Reconcile` says of a mint: provider and expiry
    minted_via : String → String → Time → Message
    -- the clamp warning: requested seconds, lifetime, provider, effective window
    clamped_window : Duration → Duration → String → Duration → Message

-- `errors.Is(err, provider.ErrNoRevoke)`
unfoldable pub is_no_revoke : Error → Bool
is_no_revoke (foreign kind text) = false
is_no_revoke no_revoke = true
is_no_revoke (new m) = false
is_no_revoke (wrap m e) = is_no_revoke e
