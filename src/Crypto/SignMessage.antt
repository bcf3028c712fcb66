-- ===== src/Crypto/SignMessage.antt =====
-- crates/x402-nockchain-crypto/src/sign_message.rs. A `Belt` is a number and `[Belt; 5]` a list.
-- The proofs are in the modules below.
pub mod Base58
pub mod Notes
pub mod Layout
pub mod Packing
use x402_nockchain.Prelude.{
  ℕ, zero, suc, ◌+◌, ◌-◌, ◌*◌, ◌/◌, ◌%◌, String, Bool, true, false, List, [], ◌∷◌, ◌++◌, map,
  Result, ok, err, ok_or, map_err, ◌>>=◌, ltb, ◌==◌, ◌||◌, string_eq, nat_eq, if◌then◌else◌, length,
  take, drop,
}
use x402_nockchain.Decimal.{codes, parse, to_text, u64_mod}
use x402_nockchain.Types.Payment.{NoteName, NoteRef, Authorization}
use x402_nockchain.Crypto.Interface.{Encoding}

pub data SignMessageError (DecodeError : Type 0) : Type 0 where
  base58 : (field : String) → DecodeError → SignMessageError DecodeError
  decimal : (field value : String) → SignMessageError DecodeError
  overflow : (field : String) → SignMessageError DecodeError

abbrev pub x402_domain_separator : String
x402_domain_separator = "x402-nockchain-v2"

-- `u64::from_le_bytes`
unfoldable pub from_le_bytes : List ℕ → ℕ
from_le_bytes [] = 0
from_le_bytes (b ∷ bytes) = b + 256 * from_le_bytes bytes

-- `buf.fill(0)` and `copy_from_slice`: the chunk at the front of a buffer of eight zeros.
unfoldable pub fill_buf : ℕ → List ℕ → List ℕ
fill_buf zero chunk = []
fill_buf (suc n) [] = 0 ∷ fill_buf n []
fill_buf (suc n) (b ∷ chunk) = b ∷ fill_buf n chunk

-- `bytes.chunks(7)`; the length of the bytes is fuel enough.
unfoldable pub chunks : ℕ → List ℕ → List (List ℕ)
chunks fuel [] = []
chunks zero (b ∷ bytes) = []
chunks (suc fuel) (b ∷ bytes) = take 7 (b ∷ bytes) ∷ chunks fuel (drop 7 (b ∷ bytes))

unfoldable pub bytes_to_belts : List ℕ → List ℕ
unfolding chunks fill_buf from_le_bytes
bytes_to_belts bytes =
    let out = map (λ chunk. from_le_bytes (fill_buf 8 chunk)) (chunks (length bytes) bytes) in
    if length bytes == 0 || length bytes % 7 == 0 then out ++ (0 ∷ []) else out

-- `str::cmp` of two texts is that of their code points.
unfoldable pub le_codes : List ℕ → List ℕ → Bool
le_codes [] t = true
le_codes (c ∷ s) [] = false
le_codes (c ∷ s) (d ∷ t) = if ltb c d then true else if ltb d c then false else le_codes s t

-- `(a.first, a.last).cmp(&(b.first, b.last))` is not `Greater`.
unfoldable pub le_name : NoteName → NoteName → Bool
unfolding le_codes
le_name a b =
    if a.first == b.first
    then le_codes (codes a.last) (codes b.last)
    else le_codes (codes a.first) (codes b.first)

-- The stable sort of `sort_by`.
unfoldable pub insert_note : NoteRef → List NoteRef → List NoteRef
insert_note n [] = n ∷ []
insert_note n (m ∷ ms) = if le_name n.name m.name then n ∷ m ∷ ms else m ∷ insert_note n ms

unfoldable pub sort_notes : List NoteRef → List NoteRef
unfolding insert_note
sort_notes [] = []
sort_notes (n ∷ ns) = insert_note n (sort_notes ns)

module _ (E : Encoding) where
  open E use {prime, hash_varlen, DecodeError, bs58_decode, bs58_encode, from_be_bytes, to_be_bytes}

  unfoldable pub u64_to_belt : ℕ → ℕ
  u64_to_belt v = v % prime

  unfoldable pub decimal_to_belt : String → String → Result (SignMessageError DecodeError) ℕ
  unfolding u64_to_belt
  decimal_to_belt s field = do v ← ok_or (parse u64_mod s) (decimal field s); ok (u64_to_belt v)

  -- The loop of `base58_to_belts` over the belts that are left, and the test after it.
  unfoldable pub reduce : ℕ → ℕ → String → Result (SignMessageError DecodeError) (List ℕ)
  reduce zero value field = if ltb 0 value then err (overflow field) else ok []
  reduce (suc n) value field = do
    rem ← ok_or (parse u64_mod (to_text (value % prime))) (overflow field)
    rest ← reduce n (value / prime) field
    ok (rem ∷ rest)

  unfoldable pub base58_to_belts : String → String → Result (SignMessageError DecodeError) (List ℕ)
  base58_to_belts b58 field = do
    bytes ← map_err (base58 field) (bs58_decode b58)
    reduce 5 (from_be_bytes bytes) field

  -- The loop of `pkh_belts_to_base58`.
  unfoldable pub accumulate : List ℕ → ℕ → ℕ → ℕ
  accumulate [] value power = value
  accumulate (b ∷ belts) value power = accumulate belts (value + b * power) (power * prime)

  unfoldable pub pkh_belts_to_base58 : List ℕ → String
  pkh_belts_to_base58 belts = bs58_encode (to_be_bytes (accumulate belts 0 1))

  unfoldable pub pkh_from_pubkey_bytes : List ℕ → String
  pkh_from_pubkey_bytes pubkey_bytes =
      pkh_belts_to_base58 (hash_varlen (bytes_to_belts pubkey_bytes))

  -- The loop over the sorted notes.
  unfoldable pub note_belts : List NoteRef → Result (SignMessageError DecodeError) (List ℕ)
  note_belts [] = ok []
  note_belts (n ∷ notes) = do
    first ← base58_to_belts n.name.first "notes[i].name.first"
    last ← base58_to_belts n.name.last "notes[i].name.last"
    rest ← note_belts notes
    ok (first ++ (last ++ rest))

  -- `if belts.is_empty() { belts.push(Belt(0)) }`
  abbrev pub or_zero : List ℕ → List ℕ
  or_zero [] = 0 ∷ []
  or_zero (b ∷ belts) = b ∷ belts

  unfoldable pub compute_notes_hash : List NoteRef → Result (SignMessageError DecodeError) (List ℕ)
  compute_notes_hash notes = do
    belts ← note_belts (sort_notes notes)
    ok (hash_varlen (or_zero belts))

  unfoldable pub x402_sign_message_belts :
      Authorization → Result (SignMessageError DecodeError) (List ℕ)
  x402_sign_message_belts auth = do
    from ← base58_to_belts auth.from "from"
    to ← base58_to_belts auth.to "to"
    value ← decimal_to_belt auth.value "value"
    fee ← decimal_to_belt auth.fee "fee"
    nonce ← base58_to_belts auth.nonce "nonce"
    let after = u64_to_belt auth.valid_after
    let before = u64_to_belt auth.valid_before
    notes ← compute_notes_hash auth.notes
    change ← base58_to_belts auth.change_address "changeAddress"
    let window = after ∷ before ∷ []
    ok (
        bytes_to_belts (codes x402_domain_separator)
        ++ (from ++ (to ++ (value ∷ fee ∷ (nonce ++ (window ++ (notes ++ change)))))))

  unfoldable pub x402_sign_message_digest :
      Authorization → Result (SignMessageError DecodeError) (List ℕ)
  x402_sign_message_digest auth = do belts ← x402_sign_message_belts auth; ok (hash_varlen belts)
