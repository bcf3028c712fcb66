-- ===== src/Facilitator/Siwn.antt =====
-- crates/x402-nockchain-facilitator/src/middleware/siwn.rs: the gate in front of an endpoint. The
-- verification of vesl-siwn, with its replay cache, and the endpoint behind the gate are
-- parameters; `World` is what that endpoint reads and changes.
pub mod Laws
use x402_nockchain.Prelude.{ℕ, String, ◌<>◌, Option, none, some, Result, ok, err}

pub record SiwnGate : Type 0 where
  pub expected_domain : String

-- The value of a header, when it is visible text.
pub data SiwnHeader : Type 0 where
  visible : String → SiwnHeader
  opaque : SiwnHeader

-- The answer of the endpoint behind the gate, or a 401 with its text.
pub data Reply (Response : Type 0) : Type 0 where
  passed : Response → Reply Response
  unauthorized : String → Reply Response

module _ {Cache World Identity SiwnError Response : Type 0}
    (verify : String → String → ℕ → Cache → Result SiwnError Identity × Cache)
    (error_text : SiwnError → String) (next : Identity → World → Response × World) where
  -- The match on the result of `siwn::verify`.
  abbrev pub signed_in : Result SiwnError Identity × Cache → World → Reply Response × Cache × World
  signed_in (ok identity, cache) world =
      let (response, world') = next identity world in (passed response, cache, world')
  signed_in (err e, cache) world = (unauthorized ("SIWN rejected: " <> error_text e), cache, world)

  abbrev pub with_siwn_header :
      SiwnGate → Option SiwnHeader → ℕ → Cache → World → Reply Response × Cache × World
  with_siwn_header gate none now cache world =
      (unauthorized "missing SIGN-IN-WITH-X header", cache, world)
  with_siwn_header gate (some opaque) now cache world =
      (unauthorized "header is not valid UTF-8", cache, world)
  with_siwn_header gate (some (visible text)) now cache world =
      signed_in (verify text gate.expected_domain now cache) world

  unfoldable pub require_siwn :
      SiwnGate → Option SiwnHeader → ℕ → Cache → World → Reply Response × Cache × World
  require_siwn gate header now cache world = with_siwn_header gate header now cache world
