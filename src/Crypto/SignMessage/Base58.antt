-- ===== src/Crypto/SignMessage/Base58.antt =====
-- Five belts as one integer in base `prime`: `base58_to_belts` undoes `pkh_belts_to_base58`, and
-- refuses exactly the integers that five belts cannot hold.
use native.Mathlib.Nat.{
  mod-lt, mod-eq_of_lt, div-eq_of_lt, add-mul-mod_self_left, add-mul-div_left, zero-add, one-mul,
  mod-add-div, div-lt_iff_lt-mul, pow-suc, pow-zero, le-div_iff_mul-le,
}
use x402_nockchain.Prelude.{
  ℕ, zero, suc, ◌+◌, ◌*◌, ◌/◌, ◌%◌, ◌^◌, ◌≤◌, ◌<◌, String, ◌≡◌, refl, ap, subst, ◌∙◌, List, [], ◌∷◌,
  arith, ok, err, map_err, >>=-eq-ok, ok-injective, ◌>>=◌, length, All,
}
use x402_nockchain.Decimal.{u64_mod}
use x402_nockchain.Decimal.Laws.{parse-to_text}
use x402_nockchain.Crypto.Interface.{Encoding, IsLawfulEncoding}
use x402_nockchain.Crypto.SignMessage.{
  overflow, base58, reduce, base58_to_belts, accumulate, pkh_belts_to_base58,
}

-- The integer that belts stand for, the least significant first.
abbrev pub from_belts : ℕ → List ℕ → ℕ
from_belts p [] = 0
from_belts p (b ∷ belts) = b + p * from_belts p belts

module _ (E : Encoding) (L : IsLawfulEncoding E) where
  accumulate-eq :
      (belts : List ℕ) (value power : ℕ)
      → accumulate E belts value power ≡ value + power * from_belts E.prime belts
  unfolding accumulate
  accumulate-eq [] value power = omega arith
  accumulate-eq (b ∷ belts) value power =
      accumulate-eq belts (value + b * power) (power * E.prime) ∙ omega arith

  reduce-suc :
      (n value : ℕ) (field : String)
      → reduce E (suc n) value field
        ≡ (do rest ← reduce E n (value / E.prime) field; ok ((value % E.prime) ∷ rest))
  unfolding reduce
  reduce-suc n value field = rw (
      parse-to_text u64_mod (value % E.prime) (grind (arith, mod-lt value L.prime_pos, L.prime_le)))

  mod-cons : (b rest : ℕ) → b < E.prime → (b + E.prime * rest) % E.prime ≡ b
  mod-cons b rest lt = add-mul-mod_self_left b E.prime rest ∙ mod-eq_of_lt lt

  div-cons : (b rest : ℕ) → b < E.prime → (b + E.prime * rest) / E.prime ≡ rest
  div-cons b rest lt =
      add-mul-div_left b rest L.prime_pos ∙ ap (λ q. q + rest) (div-eq_of_lt lt) ∙ omega arith

  reduce-from_belts :
      (belts : List ℕ) (field : String)
      → All (λ b. b < E.prime) belts
      → reduce E (length belts) (from_belts E.prime belts) field ≡ ok belts
  reduce-from_belts [] field h = unfold reduce in refl
  reduce-from_belts (b ∷ belts) field (lt, h) = rw (
    reduce-suc (length belts) (b + E.prime * from_belts E.prime belts) field,
    div-cons b (from_belts E.prime belts) lt,
    mod-cons b (from_belts E.prime belts) lt,
    reduce-from_belts belts field h,
  )

  -- Over a lawful encoding, belts in the field, printed as base58 by `pkh_belts_to_base58`, are read back by
  -- `base58_to_belts` as they were: five of them, each below the prime.
  pub base58_to_belts-pkh_belts_to_base58 :
      (belts : List ℕ) (field : String)
      → length belts ≡ 5
      → All (λ b. b < E.prime) belts
      → base58_to_belts E (pkh_belts_to_base58 E belts) field ≡ ok belts
  unfolding base58_to_belts pkh_belts_to_base58
  base58_to_belts-pkh_belts_to_base58 belts field five below =
      rw
        (
          L.bs58_decode-bs58_encode (E.to_be_bytes (accumulate E belts 0 1)),
          L.from_be_bytes-to_be_bytes (accumulate E belts 0 1),
          accumulate-eq belts 0 1,
          zero-add,
          one-mul,
        )
        (subst (λ n. reduce E n (from_belts E.prime belts) field ≡ ok belts) five
          (reduce-from_belts belts field below))

  -- What a successful reduction has found.
  reduce_sound :
      (n value : ℕ) (field : String) (belts : List ℕ)
      → reduce E n value field ≡ ok belts
      → (length belts ≡ n) × All (λ b. b < E.prime) belts × (from_belts E.prime belts ≡ value)
  reduce_sound zero value field [] h = unfold reduce in (refl, tt, ground arith)
  reduce_sound zero value field (b ∷ belts) h = unfold reduce in absurd (ground arith)
  reduce_sound (suc n) value field belts h =
      let (rest, found, e) = >>=-eq-ok _ _ (rw (reduce-suc n value field) at h) in
      let (len, below, sum) = reduce_sound n (value / E.prime) field rest found in
      subst (λ l. (length l ≡ suc n) × All (λ b. b < E.prime) l × (from_belts E.prime l ≡ value))
        (ok-injective e)
        (ap suc len, (mod-lt value L.prime_pos, below), rw sum (mod-add-div value E.prime))

  reduce-total :
      (n value : ℕ) (field : String)
      → value < E.prime ^ n
      → (belts : List ℕ) × (reduce E n value field ≡ ok belts)
  reduce-total zero value field h = unfold reduce in ([], ground (arith, pow-zero E.prime))
  reduce-total (suc n) value field h =
      let (rest, e) =
        reduce-total n (value / E.prime) field
          ((div-lt_iff_lt-mul L.prime_pos).1 (rw (← pow-suc) h)) in
      ((value % E.prime) ∷ rest, rw (reduce-suc n value field, e))

  reduce-overflow :
      (n value : ℕ) (field : String)
      → E.prime ^ n ≤ value
      → reduce E n value field ≡ err (overflow field)
  reduce-overflow zero value field h = unfold reduce in ground (arith, pow-zero E.prime)
  reduce-overflow (suc n) value field h =
      let smaller : E.prime ^ n ≤ value / E.prime =
        (le-div_iff_mul-le L.prime_pos).1 (rw (← pow-suc) h) in
      rw (reduce-suc n value field, reduce-overflow n (value / E.prime) field smaller)

  -- Over a lawful encoding, on a text that decodes to bytes whose integer is below the fifth power of the prime,
  -- `base58_to_belts` returns five belts, each below the prime, that stand for that same integer.
  pub base58_to_belts-below :
      (b58 field : String) (bytes : List ℕ)
      → E.bs58_decode b58 ≡ ok bytes
      → E.from_be_bytes bytes < E.prime ^ 5
      → (belts : List ℕ) × (base58_to_belts E b58 field ≡ ok belts)
        × (length belts ≡ 5)
        × All (λ b. b < E.prime) belts
        × (from_belts E.prime belts ≡ E.from_be_bytes bytes)
  unfolding base58_to_belts
  base58_to_belts-below b58 field bytes decoded below =
      let (belts, e) = reduce-total 5 (E.from_be_bytes bytes) field below in
      let (len, lt, sum) = reduce_sound 5 (E.from_be_bytes bytes) field belts e in
      (belts, rw decoded e, len, lt, sum)

  -- Over a lawful encoding, on a text that decodes to bytes whose integer is not below the fifth power of the prime,
  -- `base58_to_belts` returns the overflow error of its field.
  pub base58_to_belts-overflow :
      (b58 field : String) (bytes : List ℕ)
      → E.bs58_decode b58 ≡ ok bytes
      → E.prime ^ 5 ≤ E.from_be_bytes bytes
      → base58_to_belts E b58 field ≡ err (overflow field)
  unfolding base58_to_belts
  base58_to_belts-overflow b58 field bytes decoded above =
      rw decoded (reduce-overflow 5 (E.from_be_bytes bytes) field above)

  -- What a successful decoding has found, without its bytes.
  pub base58_to_belts_sound :
      (b58 field : String) (belts : List ℕ)
      → base58_to_belts E b58 field ≡ ok belts
      → (length belts ≡ 5) × All (λ b. b < E.prime) belts
  unfolding base58_to_belts
  base58_to_belts_sound b58 field belts h =
      let (bytes, decoded, e) =
        >>=-eq-ok (map_err (base58 field) (E.bs58_decode b58))
          (λ bytes. reduce E 5 (E.from_be_bytes bytes) field) h in
      let (len, lt, sum) = reduce_sound 5 (E.from_be_bytes bytes) field belts e in (len, lt)
