-- ===== src/Facilitator/Siwn/Laws.antt =====
-- What gets past the gate.
use x402_nockchain.Prelude.{
  ℕ, String, ◌≡◌, ◌↔◌, refl, Option, none, some, Result, ok, Result-cases, inl, inr,
}
use x402_nockchain.Facilitator.Siwn.{
  SiwnGate, SiwnHeader, visible, opaque, passed, unauthorized, require_siwn,
}

module _ {Cache World Identity SiwnError Response : Type 0}
    (verify : String → String → ℕ → Cache → Result SiwnError Identity × Cache)
    (error_text : SiwnError → String) (next : Identity → World → Response × World) (gate : SiwnGate)
    (now : ℕ) (cache : Cache) (world : World) where
  -- A header that signs in to the domain of the gate.
  pub record SignsIn (header : Option SiwnHeader) (identity : Identity) : Type 0 where
    pub text : String
    pub header_eq : header ≡ some (visible text)
    pub accepted : (verify text gate.expected_domain now cache).0 ≡ ok identity

  require_siwn-SignsIn :
      (header : Option SiwnHeader) (response : Response)
      → (require_siwn verify error_text next gate header now cache world).0 ≡ passed response
      → (identity : Identity) × SignsIn header identity × ((next identity world).0 ≡ response)
  unfolding require_siwn
  require_siwn-SignsIn none response h = cc
  require_siwn-SignsIn (some opaque) response h = cc
  require_siwn-SignsIn (some (visible text)) response h =
      elim (Result-cases (verify text gate.expected_domain now cache).0) [
        | inl (identity, e) ↦
            let h' = rw e at h in
            (identity, record { text = text; header_eq = refl; accepted = e }, cc)
        | inr (x, e) ↦ let h' = rw e at h in cc
      ]

  -- The endpoint behind the gate answers exactly when the header is visible text that the
  -- verification accepts for the domain of the gate, with what it answers for that identity.
  pub require_siwn_iff :
      (header : Option SiwnHeader) (response : Response)
      → ((require_siwn verify error_text next gate header now cache world).0 ≡ passed response)
        ↔ ((identity : Identity) × SignsIn header identity × ((next identity world).0 ≡ response))
  unfolding require_siwn
  require_siwn_iff header response = (
    require_siwn-SignsIn header response,
    λ q. let (identity, s, answer) = q in rw (s.header_eq, s.accepted, answer),
  )

  -- A request that the gate turns away does not reach the endpoint: its world is as before.
  pub require_siwn-unauthorized :
      (header : Option SiwnHeader) (message : String)
      → (require_siwn verify error_text next gate header now cache world).0 ≡ unauthorized message
      → (require_siwn verify error_text next gate header now cache world).2 ≡ world
  unfolding require_siwn
  require_siwn-unauthorized none message h = refl
  require_siwn-unauthorized (some opaque) message h = refl
  require_siwn-unauthorized (some (visible text)) message h =
      elim (Result-cases (verify text gate.expected_domain now cache).0) [
        | inl (identity, e) ↦ let h' = rw e at h in cc
        | inr (x, e) ↦ rw e
      ]
