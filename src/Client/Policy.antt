-- ===== src/Client/Policy.antt =====
-- crates/x402-client/src/policy.rs
use x402_nockchain.Prelude.{String, ◌<>◌, ◌≡◌, ◌↔◌, Result, ok, map_err, map_err-bind-eq-ok, ◌>>◌}
use x402_nockchain.Types.Payment.{Authorization, PaymentRequirements, SchnorrSignatureJson}
use x402_nockchain.Client.{Signer}

pub record PolicyDenied : Type 0 where
  pub reason : String

pub record PolicyEnforcedSigner (Value : Type 0) : Type 0 where
  pub inner : Signer Value
  pub policy : PaymentRequirements Value → Result PolicyDenied (Unit {0})

module _ {Value : Type 0} where
  -- `impl Signer for PolicyEnforcedSigner`
  unfoldable pub enforce : PolicyEnforcedSigner Value → Signer Value
  enforce s = record {
    sign = λ auth requirements.
        map_err (λ denied. "policy denied: " <> denied.reason) (s.policy requirements)
        >> s.inner.sign auth requirements;
    identifier = s.inner.identifier;
  }

  -- A signer under two policies, in either order, produces a signature exactly when both allow
  -- the requirements and the inner signer produces it.
  pub enforce-enforce :
      (inner : Signer Value) (p q : PaymentRequirements Value → Result PolicyDenied (Unit {0}))
      (auth : Authorization) (req : PaymentRequirements Value) (sig : SchnorrSignatureJson)
      → ((enforce
              (record { inner = enforce (record { inner = inner; policy = p }); policy = q })).sign
            auth req
          ≡ ok sig)
        ↔ ((p req ≡ ok tt) × (q req ≡ ok tt) × (inner.sign auth req ≡ ok sig))
  unfolding enforce
  enforce-enforce inner p q auth req sig = (
    λ h.
        let (_, hq, h1) = map_err-bind-eq-ok _ (q req) _ h in
        let (_, hp, h2) = map_err-bind-eq-ok _ (p req) _ h1 in (hp, hq, h2),
    λ k. let (hp, hq, hs) = k in rw (hq, hp) hs,
  )
