-- ===== src/Facilitator/Scheme/Laws.antt =====
-- What a handler of this repository accepts.
use x402_nockchain.Prelude.{
  some-injective, >>=-eq-ok, ◌∙◌, arith, sym, String, ◌≡◌, ◌↔◌, ℕ, ◌≤◌, ◌%◌, refl, ok-injective,
  some, ok, ok_or-bind-eq-ok, guard-eq-ok, map_err-bind-eq-ok, guard-bind-eq-ok, leb→le, le→leb,
  ◌==◌, string_eq, eq_iff, >>-eq-ok,
}
use x402_nockchain.Decimal.Laws.{parse_mono}
use x402_nockchain.Crypto.SignMessage.{
  x402_sign_message_digest, x402_sign_message_belts, decimal_to_belt, u64_to_belt,
}
use x402_nockchain.Crypto.SignMessage.Layout.{Fields, layout, x402_sign_message_belts-Fields}
use x402_nockchain.Decimal.{u64_mod, parse, u128_mod}
use x402_nockchain.Types.Json.{Json}
use x402_nockchain.Types.Payment.{PaymentPayload, PaymentRequirements, Authorization}
use x402_nockchain.Types.Nockchain.{ExactNockchainPayload}
use x402_nockchain.Crypto.Interface.{Encoding, Schnorr}
use x402_nockchain.Crypto.Verifier
use x402_nockchain.Crypto.Verifier.{verify_payment}
use x402_nockchain.Crypto.Verifier.Laws.{IsSigned, verify_payment_iff}
use x402_nockchain.Facilitator.Scheme.{
  check_max_amount, check_asset, nockchain_native_asset, verify_nockchain,
}

-- An amount within a cap, both as 128-bit numbers.
pub record IsWithin (amount cap : String) : Type 0 where
  pub value : ℕ
  pub most : ℕ
  pub value_eq : parse u128_mod amount ≡ some value
  pub most_eq : parse u128_mod cap ≡ some most
  pub value_le : value ≤ most

module _ {Value : Type 0} where
  check_max_amount-IsWithin :
      (auth : Authorization) (req : PaymentRequirements Value)
      → check_max_amount auth req ≡ ok tt
      → IsWithin auth.value req.max_amount_required
  unfolding check_max_amount
  check_max_amount-IsWithin auth req h =
      let (value, value_eq, h1) = ok_or-bind-eq-ok (parse u128_mod auth.value) _ _ h in
      let (most, most_eq, h2) = ok_or-bind-eq-ok (parse u128_mod req.max_amount_required) _ _ h1 in
      record {
        value = value;
        most = most;
        value_eq = value_eq;
        most_eq = most_eq;
        value_le = leb→le value most (guard-eq-ok _ _ h2);
      }

  check_max_amount-ok_of_IsWithin :
      (auth : Authorization) (req : PaymentRequirements Value)
      → IsWithin auth.value req.max_amount_required
      → check_max_amount auth req ≡ ok tt
  unfolding check_max_amount
  check_max_amount-ok_of_IsWithin auth req w =
      rw (w.value_eq, w.most_eq, le→leb w.value w.most w.value_le)

module _ (J : Json) (E : Encoding) (S : Schnorr) where
  -- A payload that pays the requirements: it reads as a Nockchain payload, goes to the recipient,
  -- is signed, and its value is within the cap, in the native asset.
  pub record IsPaid (payload : PaymentPayload J.Value J.Value) (req : PaymentRequirements J.Value)
      : Type 0 where
    pub nock : ExactNockchainPayload
    pub read : J.read_exact payload.payload ≡ ok nock
    pub recipient : nock.authorization.to ≡ req.pay_to
    pub signed : IsSigned E S nock
    pub within : IsWithin nock.authorization.value req.max_amount_required
    pub asset : req.asset ≡ nockchain_native_asset

  module _
      (verifier_text : Verifier.VerifyError J.JsonError S.SchnorrError E.DecodeError → String) where
    verify_nockchain-IsPaid :
        (payload : PaymentPayload J.Value J.Value) (req : PaymentRequirements J.Value)
        → verify_nockchain J E S verifier_text payload req ≡ ok tt
        → IsPaid payload req
    unfolding verify_nockchain check_asset
    verify_nockchain-IsPaid payload req h =
        let (nock, read, h1) = map_err-bind-eq-ok _ (J.read_exact payload.payload) _ h in
        let (to, h2) = guard-bind-eq-ok (nock.authorization.to == req.pay_to) _ _ h1 in
        let (_, valid, h3) =
          map_err-bind-eq-ok _ (verify_payment E S J.read_exact payload req) _ h2 in
        let (capped, h4) = >>-eq-ok (check_max_amount nock.authorization req) _ h3 in
        record {
          nock = nock;
          read = read;
          recipient = (eq_iff _ _).0 to;
          signed = (verify_payment_iff E S J.read_exact payload req nock read).0 valid;
          within = check_max_amount-IsWithin nock.authorization req capped;
          asset = (eq_iff _ _).0 (guard-eq-ok _ _ h4);
        }

    verify_nockchain-ok_of_IsPaid :
        (payload : PaymentPayload J.Value J.Value) (req : PaymentRequirements J.Value)
        → IsPaid payload req
        → verify_nockchain J E S verifier_text payload req ≡ ok tt
    unfolding verify_nockchain check_asset
    verify_nockchain-ok_of_IsPaid payload req p = rw (
      p.read,
      (eq_iff _ _).1 p.recipient,
      (verify_payment_iff E S J.read_exact payload req p.nock p.read).1 p.signed,
      check_max_amount-ok_of_IsWithin p.nock.authorization req p.within,
      (eq_iff _ _).1 p.asset,
    )

    -- The handlers `exact` and `upto` accept a payload exactly when it pays the requirements: it
    -- reads as a Nockchain payload to the required recipient, the signature binds the sender's
    -- key to the digest of the authorization, value and cap are decimal texts of 128-bit numbers
    -- with the value at most the cap, and the required asset is the native one.
    pub verify_nockchain_iff :
        (payload : PaymentPayload J.Value J.Value) (req : PaymentRequirements J.Value)
        → (verify_nockchain J E S verifier_text payload req ≡ ok tt) ↔ IsPaid payload req
    verify_nockchain_iff payload req =
        (verify_nockchain-IsPaid payload req, verify_nockchain-ok_of_IsPaid payload req)

    -- When a handler accepts a payload, its value is the decimal text of a 64-bit number although
    -- the cap has 128 bits, that number is at most the cap, and the message whose hash is signed has
    -- the number modulo the prime in the place of the value.
    pub verify_nockchain-amount :
        (payload : PaymentPayload J.Value J.Value) (req : PaymentRequirements J.Value)
        → verify_nockchain J E S verifier_text payload req ≡ ok tt
        → (nock : ExactNockchainPayload) × (amount : ℕ) × (cap : ℕ) × (J.read_exact payload.payload
            ≡ ok nock)
          × (parse u64_mod nock.authorization.value ≡ some amount)
          × (parse u128_mod req.max_amount_required ≡ some cap)
          × (amount ≤ cap)
          × (f : Fields E nock.authorization) × (x402_sign_message_digest E nock.authorization
              ≡ ok (E.hash_varlen (layout E f)))
          × (f.value ≡ amount % E.prime)
    unfolding x402_sign_message_digest decimal_to_belt u64_to_belt
    verify_nockchain-amount payload req h =
        let p = verify_nockchain-IsPaid payload req h in
        let (belts, made, hashed) =
          >>=-eq-ok (x402_sign_message_belts E p.nock.authorization) _ p.signed.hashed in
        let (f, laid) = x402_sign_message_belts-Fields E p.nock.authorization belts made in
        let (amount, parsed, reduced) =
          ok_or-bind-eq-ok (parse u64_mod p.nock.authorization.value) _ _ f.value_eq in
        let wide =
          parse_mono u64_mod u128_mod p.nock.authorization.value amount (omega arith) parsed in
        let same : p.within.value ≡ amount = some-injective (sym p.within.value_eq ∙ wide) in
        (
          p.nock,
          amount,
          p.within.most,
          p.read,
          parsed,
          p.within.most_eq,
          rw (← same) p.within.value_le,
          f,
          rw (made, laid) refl,
          sym (ok-injective reduced),
        )
