-- ===== src/Effects.antt =====
-- Calls that change the world outside and may fail: the Kubernetes API, providers, the clock, the
-- event recorder. The world `W` is abstract. What a call has done stays done when it fails, so the
-- world comes back beside the error.
use ephemeral_credential_bro.Base.{◌≡◌, refl, ◌⊎◌, inl, inr}
use ephemeral_credential_bro.Api.Error.{Error, wrap, Message}

pub data Result (A : Type 0) : Type 0 where
  ok : A → Result A
  err : Error → Result A

pub Result-cases :
    {A : Type 0} (r : Result A) → ((a : A) × (r ≡ ok a)) ⊎ ((e : Error) × (r ≡ err e))
Result-cases (ok a) = inl (a, refl)
Result-cases (err e) = inr (e, refl)

pub ok-injective : {A : Type 0} {a b : A} → ok a ≡ ok b → a ≡ b
ok-injective h = cc

abbrev pub Action : Type 0 → Type 0 → Type 0
Action W A = W → Result A × W

module _ {W A : Type 0} where
  abbrev pub pure : A → Action W A
  pure a w = (ok a, w)

  abbrev pub raise : Error → Action W A
  raise e w = (err e, w)

  -- `return …, fmt.Errorf("…: %w", err)` on an error of `m`
  abbrev pub or_wrap : Message → Action W A → Action W A
  or_wrap text m w =
      let (r, w') = m w in elim r [ ok a ↦ (ok a, w') | err e ↦ (err (wrap text e), w') ]

module _ {W A B : Type 0} where
  -- `if err != nil { handler }` after `m`, then the rest
  abbrev pub handle : Action W A → (Error → Action W B) → (A → Action W B) → Action W B
  handle m failed next w = let (r, w') = m w in elim r [ ok a ↦ next a w' | err e ↦ failed e w' ]

  infixl 5 ◌>>=◌ ◌>>◌
  abbrev pub ◌>>=◌ : Action W A → (A → Action W B) → Action W B
  m >>= f = handle m raise f

  abbrev pub ◌>>◌ : Action W A → Action W B → Action W B
  m >> k = handle m raise (λ _. k)

  -- A call that cannot fail.
  abbrev pub observe : (W → A × W) → (A → Action W B) → Action W B
  observe m next w = let (a, w') = m w in next a w'

-- A property of where `handle` ends, from both ways on after its first call has returned.
pub handle-ends {ℓ} :
    {W A B : Type 0} (Q : Result B × W → Type ℓ) (res : Result A) (failed : Error → Action W B)
    (next : A → Action W B) (w : W)
    → ((a : A) → res ≡ ok a → Q (next a w))
    → ((e : Error) → res ≡ err e → Q (failed e w))
    → Q (handle (λ v. (res, v)) failed next w)
handle-ends Q (ok a) failed next w good bad = good a refl
handle-ends Q (err e) failed next w good bad = bad e refl

-- The same where the error of the first call is wrapped.
pub or_wrap-ends {ℓ} :
    {W A B : Type 0} (Q : Result B × W → Type ℓ) (res : Result A) (text : Message)
    (failed : Error → Action W B) (next : A → Action W B) (w : W)
    → ((a : A) → res ≡ ok a → Q (next a w))
    → ((e : Error) → res ≡ err e → Q (failed (wrap text e) w))
    → Q (handle (or_wrap text (λ v. (res, v))) failed next w)
or_wrap-ends Q (ok a) text failed next w good bad = good a refl
or_wrap-ends Q (err e) text failed next w good bad = bad e refl
