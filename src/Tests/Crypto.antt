-- ===== src/Tests/Crypto.antt =====
-- The codecs, the sign message, the signer and the verifier.
use mathlib.Core.List.{Permᴰ}
use x402_nockchain.Prelude.{ℕ, ◌≡◌, refl, none, some, List, [], ◌∷◌, ok, length, take, All, arith}
use x402_nockchain.Decimal.{
  parse, parse_codes, parse_digits, scan, to_text_from, digit, to_text, u64_mod,
}
use x402_nockchain.Types.Payment.{Authorization, NoteRef, PaymentPayload}
use x402_nockchain.Types.Nockchain.{ExactNockchainPayload}
use x402_nockchain.Crypto.SignMessage.{
  pkh_from_pubkey_bytes, accumulate, bytes_to_belts, chunks, fill_buf, from_le_bytes, reduce,
  decimal_to_belt, u64_to_belt, note_belts, sort_notes, insert_note, base58_to_belts,
  pkh_belts_to_base58, compute_notes_hash, x402_sign_message_belts, x402_sign_message_digest,
}
use x402_nockchain.Crypto.SignMessage.Base58.{base58_to_belts-pkh_belts_to_base58}
use x402_nockchain.Crypto.SignMessage.Packing.{IsByte, unpack, bytes_to_belts_total}
use x402_nockchain.Crypto.SignMessage.Notes.{compute_notes_hash-perm}
use x402_nockchain.Crypto.SignMessage.Layout.{
  SameFields, length-x402_sign_message_belts, x402_sign_message_belts_iff,
  x402_sign_message_digest_wraps,
}
use x402_nockchain.Crypto.Signer.{new, sign_authorization, from_identifier}
use x402_nockchain.Crypto.WireCompat.{vesl_to_x402}
use x402_nockchain.Crypto.Verifier.{verify_payment}
use x402_nockchain.Crypto.Verifier.Laws.{IsSigned, verify_payment_iff, sign_authorization-IsSigned}
use x402_nockchain.Tests.Samples.{
  encoding, encoding-IsLawfulEncoding, schnorr, schnorr-IsLawfulSchnorr, json, Node, dec, sum, ones,
  decode_text, signer, note, auth, requirements, signature, exact, enc,
}

pub new-signer : new encoding schnorr decode_text 2 ≡ ok signer
unfolding new enc pkh_from_pubkey_bytes pkh_belts_to_base58 accumulate bytes_to_belts chunks
    fill_buf from_le_bytes ones sum
new-signer = refl

sign : sign_authorization encoding schnorr decode_text signer auth requirements ≡ ok signature
unfolding sign_authorization enc x402_sign_message_digest x402_sign_message_belts base58_to_belts
    reduce decimal_to_belt u64_to_belt compute_notes_hash note_belts sort_notes insert_note
    bytes_to_belts chunks fill_buf from_le_bytes vesl_to_x402 parse parse_codes parse_digits scan
    to_text to_text_from digit dec sum ones
sign = refl

abbrev pub nock : ExactNockchainPayload
nock = record { signature = signature; authorization = auth; signed_raw_tx = none }

pub nock-IsSigned : IsSigned encoding schnorr nock
unfolding from_identifier
nock-IsSigned =
    sign_authorization-IsSigned encoding schnorr schnorr-IsLawfulSchnorr decode_text 2 signer nock
      requirements new-signer refl sign

abbrev pub payload : PaymentPayload Node Node
payload = record {
  x402_version = 2;
  scheme = "exact";
  network = "nockchain:fakenet";
  payload = exact nock;
  extensions = none;
}

verify_payment_iff_example :
    verify_payment encoding schnorr json.read_exact payload requirements ≡ ok tt
verify_payment_iff_example =
    (verify_payment_iff encoding schnorr json.read_exact payload requirements nock refl).1
      nock-IsSigned

abbrev belts : List ℕ
belts =
    31364862809486456 ∷ 31078114522262371 ∷ 3307053 ∷ 2 ∷ 1 ∷ 0 ∷ 1 ∷ 2 ∷ 1 ∷ 0 ∷ 0 ∷ 0 ∷ 0 ∷ 2 ∷ 0
    ∷ 2 ∷ 0 ∷ 0 ∷ 0 ∷ 0 ∷ 2 ∷ 2 ∷ 2 ∷ 1 ∷ 0 ∷ 1 ∷ 2 ∷ 2 ∷ 1 ∷ 0 ∷ 1 ∷ 2 ∷ []

belts_of : x402_sign_message_belts encoding auth ≡ ok belts
unfolding x402_sign_message_belts base58_to_belts reduce decimal_to_belt u64_to_belt
    compute_notes_hash note_belts sort_notes insert_note bytes_to_belts chunks fill_buf
    from_le_bytes parse parse_codes parse_digits scan to_text to_text_from digit dec enc sum ones
belts_of = refl

parse_5 : parse u64_mod "5" ≡ some 5
unfolding parse parse_codes parse_digits scan
parse_5 = refl

parse_8 : parse u64_mod "8" ≡ some 8
unfolding parse parse_codes parse_digits scan
parse_8 = refl

x402_sign_message_digest_wraps_example :
    x402_sign_message_digest encoding auth
    ≡ x402_sign_message_digest encoding (record auth { value = "8" })
x402_sign_message_digest_wraps_example =
    x402_sign_message_digest_wraps encoding auth "5" "8" 5 8 parse_5 parse_8 refl

length-x402_sign_message_belts_example : length belts ≡ 32
length-x402_sign_message_belts_example =
    length-x402_sign_message_belts encoding encoding-IsLawfulEncoding auth belts belts_of

abbrev auth_8 : Authorization
auth_8 = record auth { value = "8" }

belts_of_8 : x402_sign_message_belts encoding auth_8 ≡ ok belts
unfolding x402_sign_message_belts base58_to_belts reduce decimal_to_belt u64_to_belt
    compute_notes_hash note_belts sort_notes insert_note bytes_to_belts chunks fill_buf
    from_le_bytes parse parse_codes parse_digits scan to_text to_text_from digit dec enc sum ones
belts_of_8 = refl

x402_sign_message_belts_iff_example : SameFields encoding auth auth_8
x402_sign_message_belts_iff_example =
    (x402_sign_message_belts_iff encoding encoding-IsLawfulEncoding auth auth_8 belts belts belts_of
        belts_of_8).0
      refl

abbrev other_note : NoteRef
other_note = record note { name = record { first = "112"; last = "2" } }

compute_notes_hash-perm_example :
    compute_notes_hash encoding (note ∷ other_note ∷ [])
    ≡ compute_notes_hash encoding (other_note ∷ note ∷ [])
compute_notes_hash-perm_example =
    compute_notes_hash-perm encoding {notes = note ∷ other_note ∷ []}
      {others = other_note ∷ note ∷ []} (Permᴰ.swap refl refl)

base58_to_belts-pkh_belts_to_base58_example :
    base58_to_belts encoding (pkh_belts_to_base58 encoding (1 ∷ 2 ∷ 0 ∷ 1 ∷ 2 ∷ [])) "from"
    ≡ ok (1 ∷ 2 ∷ 0 ∷ 1 ∷ 2 ∷ [])
base58_to_belts-pkh_belts_to_base58_example =
    base58_to_belts-pkh_belts_to_base58 encoding encoding-IsLawfulEncoding (1 ∷ 2 ∷ 0 ∷ 1 ∷ 2 ∷ [])
      "from" refl (omega arith, (omega arith, (omega arith, (omega arith, (omega arith, tt)))))

bytes_of_12 : encoding.bs58_decode "12" ≡ ok (1 ∷ [])
unfolding dec
bytes_of_12 = refl

abbrev nine_bytes : List ℕ
nine_bytes = 1 ∷ 2 ∷ 3 ∷ 4 ∷ 5 ∷ 6 ∷ 7 ∷ 255 ∷ 0 ∷ []

abbrev nine-IsByte : All IsByte nine_bytes
nine-IsByte = (
  omega arith,
  (
    omega arith,
    (
      omega arith,
      (omega arith, (omega arith, (omega arith, (omega arith, (omega arith, (omega arith, tt)))))),
    ),
  ),
)

bytes_to_belts_total_example :
    (chunks 20 nine_bytes ≡ chunks 9 nine_bytes)
    × (take 9 (unpack (bytes_to_belts nine_bytes)) ≡ nine_bytes)
bytes_to_belts_total_example = bytes_to_belts_total 20 nine_bytes (omega arith) nine-IsByte
