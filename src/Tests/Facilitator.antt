-- ===== src/Tests/Facilitator.antt =====
-- The endpoints of the facilitator and what they are made of.
use x402_nockchain.Prelude.{◌%◌, ◌≤◌, ℕ, String, ◌≡◌, ◌≢◌, refl, some, [], ◌∷◌, ok, err, arith}
use x402_nockchain.Types.Nockchain.{ExactNockchainPayload}
use x402_nockchain.Decimal.{
  u64_mod, parse, parse_codes, parse_digits, scan, to_text, to_text_from, digit, u128_mod,
}
use x402_nockchain.Types.Payment.{zero_8}
use x402_nockchain.Types.Facilitator.{VerifyRequest}
use x402_nockchain.Crypto.SignMessage.{
  pkh_from_pubkey_bytes, accumulate, bytes_to_belts, chunks, fill_buf, from_le_bytes, reduce,
  decimal_to_belt, u64_to_belt, note_belts, sort_notes, insert_note, base58_to_belts,
  pkh_belts_to_base58, compute_notes_hash, x402_sign_message_belts, x402_sign_message_digest,
}
use x402_nockchain.Crypto.SignMessage.Layout.{Fields, layout}
use x402_nockchain.Crypto.WireCompat.{x402_to_vesl}
use x402_nockchain.Crypto.Verifier
use x402_nockchain.Crypto.Verifier.{verify_payment}
use x402_nockchain.Facilitator.Error.{nonce_replayed}
use x402_nockchain.Facilitator.Chain.{stub_chain_client}
use x402_nockchain.Facilitator.Scheme.{
  SchemeHandler, register, handler_for, with_default_handlers, exact_nockchain_handler,
  upto_nockchain_handler, extract_nockchain, verify_nockchain,
}
use x402_nockchain.Facilitator.Scheme.Laws.{IsPaid, verify_nockchain_iff, verify_nockchain-amount}
use x402_nockchain.Facilitator.State.{AppState, Moment, new, saturating_add}
use x402_nockchain.Facilitator.Catalog.Memory.{Rows, in_memory_catalog_store}
use x402_nockchain.Facilitator.Envelope.{
  before_replay, check_replay, check_time_window, verify_envelope, verify_envelope_inner,
}
use x402_nockchain.Facilitator.Envelope.Laws.{Passes, InWindow, check_time_window_iff}
use x402_nockchain.Facilitator.Envelope.NoReplay.{settle, run, verify_envelope-once}
use x402_nockchain.Tests.Samples.{
  encoding, schnorr, json, Node, exact, dec, enc, sum, ones, auth, requirements, replay_cache,
  replay_cache-IsLawfulReplayCache,
}
use x402_nockchain.Tests.Crypto.{nock, nock-IsSigned, payload}

abbrev pub verifier_text :
    Verifier.VerifyError json.JsonError schnorr.SchnorrError encoding.DecodeError → String
verifier_text e = "signature"

abbrev pub app_state : AppState Node ℕ (Rows Node)
app_state = new json encoding schnorr verifier_text in_memory_catalog_store (stub_chain_client json)

abbrev pub at : Moment
at = record { now = 230; instant = 1000 }

abbrev pub request : VerifyRequest Node
request = record { payload = payload; requirements = requirements }

-- The request with a signature that does not verify.
abbrev forged : VerifyRequest Node
forged = record request {
  payload = record payload {
    payload = exact (record nock {
      signature = record {
        pubkey = enc (2 ∷ 1 ∷ 0 ∷ []);
        schnorr = record { chal = zero_8; sig = zero_8 };
      };
    });
  };
}

abbrev handler : SchemeHandler Node ℕ
handler = exact_nockchain_handler json encoding schnorr verifier_text

found_for : before_replay app_state at request ≡ ok (handler, auth)
unfolding before_replay new handler_for with_default_handlers register exact_nockchain_handler
    upto_nockchain_handler extract_nockchain check_time_window saturating_add
found_for = refl

forged_for : before_replay app_state at forged ≡ ok (handler, auth)
unfolding before_replay new handler_for with_default_handlers register exact_nockchain_handler
    upto_nockchain_handler extract_nockchain check_time_window saturating_add
forged_for = refl

parse_5 : parse u128_mod "5" ≡ some 5
unfolding parse parse_codes parse_digits scan
parse_5 = refl

pub is_paid : IsPaid json encoding schnorr payload requirements
is_paid = record {
  nock = nock;
  read = refl;
  recipient = refl;
  signed = nock-IsSigned;
  within = record {
    value = 5;
    most = 5;
    value_eq = parse_5;
    most_eq = parse_5;
    value_le = omega arith;
  };
  asset = refl;
}

pub verified : verify_nockchain json encoding schnorr verifier_text payload requirements ≡ ok tt
verified = (verify_nockchain_iff json encoding schnorr verifier_text payload requirements).1 is_paid

verify_nockchain_iff_example :
    verify_nockchain json encoding schnorr verifier_text payload requirements ≡ ok tt
verify_nockchain_iff_example =
    (verify_nockchain_iff json encoding schnorr verifier_text payload requirements).1 is_paid

verify_nockchain-amount_example :
    (n : ExactNockchainPayload) × (amount : ℕ) × (cap : ℕ) × (json.read_exact payload.payload
      ≡ ok n)
    × (parse u64_mod n.authorization.value ≡ some amount)
    × (parse u128_mod "5" ≡ some cap)
    × (amount ≤ cap)
    × (f : Fields encoding n.authorization) × (x402_sign_message_digest encoding n.authorization
        ≡ ok (encoding.hash_varlen (layout encoding f)))
    × (f.value ≡ amount % 3)
verify_nockchain-amount_example =
    verify_nockchain-amount json encoding schnorr verifier_text payload requirements verified

unfoldable pub passes : Passes app_state at request
unfolding new handler_for with_default_handlers register exact_nockchain_handler
    upto_nockchain_handler extract_nockchain check_time_window saturating_add
passes = record {
  handler = handler;
  auth = auth;
  version = refl;
  scheme = refl;
  network = refl;
  found = refl;
  extracted = refl;
  window = refl;
  verified = verified;
}

check_time_window_iff_example : InWindow app_state at auth
unfolding check_time_window saturating_add new
check_time_window_iff_example = (check_time_window_iff app_state at auth (omega arith)).0 refl

-- The forged request is refused for its signature, and not as a replay.
forged_refused :
    (verify_envelope replay_cache app_state at forged []).0 ≢ err (nonce_replayed auth.nonce)
unfolding verify_envelope verify_envelope_inner check_replay before_replay new handler_for
    with_default_handlers register exact_nockchain_handler upto_nockchain_handler extract_nockchain
    check_time_window saturating_add verify_nockchain verify_payment x402_to_vesl
    pkh_from_pubkey_bytes accumulate bytes_to_belts chunks fill_buf from_le_bytes reduce
    decimal_to_belt u64_to_belt note_belts sort_notes insert_note base58_to_belts
    pkh_belts_to_base58 compute_notes_hash x402_sign_message_belts x402_sign_message_digest dec enc
    sum ones parse parse_codes parse_digits scan to_text to_text_from digit
forged_refused h = cc

-- A forged request takes the nonce of the one that is signed.
verify_envelope-once_example :
    (verify_envelope replay_cache app_state at request (
      run replay_cache app_state
        (settle at request ∷ [])
        (verify_envelope replay_cache app_state at forged []).1)).0
    ≡ err (nonce_replayed "112")
unfolding new
verify_envelope-once_example =
    verify_envelope-once replay_cache app_state replay_cache-IsLawfulReplayCache forged request at
      at (settle at request ∷ []) [] handler handler auth auth forged_for forged_refused found_for
      refl (omega arith) (omega arith) (omega arith, tt)
