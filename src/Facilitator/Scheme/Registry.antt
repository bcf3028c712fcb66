-- ===== src/Facilitator/Scheme/Registry.antt =====
-- Which handler the registry finds, in general and among the default handlers.
use x402_nockchain.Prelude.{
  sym, String, Bool, true, false, ◌≡◌, ◌⊎◌, refl, ap, [], ◌∷◌, Option, none, some, find, ◌&&◌,
  Bool-cases, inl, inr, if◌then◌else◌, string_eq, eq_iff, starts_with,
}
use x402_nockchain.Types.Json.{Json}
use x402_nockchain.Crypto.Interface.{Encoding, Schnorr}
use x402_nockchain.Crypto.Verifier
use x402_nockchain.Crypto.Verifier.{verify_payment}
use x402_nockchain.Facilitator.Scheme.{
  SchemeHandler, SchemeHandlerRegistry, claims, register, handler_for, extract_nockchain,
  verify_nockchain, exact_nockchain_handler, upto_nockchain_handler, with_default_handlers,
}

find-pair :
    {A : Type 0} (p : A → Bool) (a b : A) {c : A}
    → find p (a ∷ b ∷ []) ≡ some c
    → ((p a ≡ true) × (a ≡ c)) ⊎ ((p b ≡ true) × (b ≡ c))
find-pair p a b h = elim (Bool-cases (p a)) [
  | inl e ↦ let h' = rw e at h in inl (e, cc)
  | inr e ↦
      let h' = rw e at h in
      elim (Bool-cases (p b)) [
        | inl f ↦ let h'' = rw f at h' in inr (f, cc)
        | inr f ↦ let h'' = rw f at h' in cc
      ]
]

&&-eq-true : (a b : Bool) → (a && b) ≡ true → (a ≡ true) × (b ≡ true)
&&-eq-true true b h = (refl, h)
&&-eq-true false b h = cc

abbrev pub or_else : {A : Type 0} → Option A → Option A → Option A
or_else (some a) o = some a
or_else none o = o

module _ (J : Json) (E : Encoding) (S : Schnorr)
    (verifier_text : Verifier.VerifyError J.JsonError S.SchnorrError E.DecodeError → String)
    {Chain : Type 0} where
  -- The default registry has a handler exactly for the schemes `exact` and `upto` on the
  -- networks whose name starts with `nockchain:`, and each of them verifies alike.
  pub handler_for-with_default_handlers :
      (scheme network : String) (h : SchemeHandler J.Value Chain)
      → handler_for (with_default_handlers J E S verifier_text) scheme network ≡ some h
      → ((scheme ≡ "exact") ⊎ (scheme ≡ "upto"))
        × (starts_with network "nockchain:" ≡ true)
        × (h.verify ≡ verify_nockchain J E S verifier_text)
        × (h.extract_authorization ≡ extract_nockchain J E S verifier_text)
  unfolding handler_for with_default_handlers register exact_nockchain_handler
      upto_nockchain_handler
  handler_for-with_default_handlers scheme network h found =
      elim (find-pair (claims scheme network) (exact_nockchain_handler J E S verifier_text)
        (upto_nockchain_handler J E S verifier_text) found) [
          | inl (e, same) ↦
              let (s, n) = &&-eq-true _ _ e in
              (
                inl (sym ((eq_iff _ _).0 s)),
                n,
                ap (λ g. g.verify) (sym same),
                ap (λ g. g.extract_authorization) (sym same),
              )
          | inr (e, same) ↦
              let (s, n) = &&-eq-true _ _ e in
              (
                inr (sym ((eq_iff _ _).0 s)),
                n,
                ap (λ g. g.verify) (sym same),
                ap (λ g. g.extract_authorization) (sym same),
              )
        ]

  pub handler_for-default_found :
      (scheme network : String)
      → ((scheme ≡ "exact") ⊎ (scheme ≡ "upto"))
      → starts_with network "nockchain:" ≡ true
      → (h : SchemeHandler J.Value Chain) × (handler_for
            (with_default_handlers J E S verifier_text)
            scheme
            network
          ≡ some h)
        × (h.verify ≡ verify_nockchain J E S verifier_text)
        × (h.extract_authorization ≡ extract_nockchain J E S verifier_text)
  unfolding handler_for with_default_handlers register exact_nockchain_handler
      upto_nockchain_handler
  handler_for-default_found scheme network (inl e) n =
      (exact_nockchain_handler J E S verifier_text, rw (e, n), refl, refl)
  handler_for-default_found scheme network (inr e) n =
      (upto_nockchain_handler J E S verifier_text, rw (e, n), refl, refl)

module _ {Value Chain : Type 0} where
  -- A handler that is registered last is asked last: the registry with it finds what it found
  -- without it, and the new handler only for a scheme and network that no other one claims.
  pub handler_for-register :
      (h : SchemeHandler Value Chain) (handlers : SchemeHandlerRegistry Value Chain)
      (scheme network : String)
      → handler_for (register h handlers) scheme network
        ≡ or_else
            (handler_for handlers scheme network)
            (if claims scheme network h then some h else none)
  unfolding handler_for register
  handler_for-register h [] scheme network = refl
  handler_for-register h (g ∷ handlers) scheme network =
      elim (Bool-cases (claims scheme network g)) [
        | inl e ↦ rw e
        | inr e ↦ rw e (handler_for-register h handlers scheme network)
      ]
