-- ===== src/Crypto/SignMessage/Packing.antt =====
-- `bytes_to_belts`: seven bytes to a belt, and nothing is lost. The belts do not tell the number of
-- bytes: one zero byte more at the end of a last chunk makes no difference.
use x402_nockchain.Prelude.{
  ℕ, zero, suc, ◌+◌, ◌*◌, ◌/◌, ◌%◌, ◌≤◌, ◌<◌, ◌≡◌, refl, ap, List, [], ◌∷◌, ◌++◌, map, arith,
  length, take, drop, length-drop, All, Bool-cases, inl, inr, ◌||◌, ◌==◌, nat_eq, subst, ◌∙◌,
}
use mathlib.Core.List.{append-nil}
use x402_nockchain.Crypto.SignMessage.{from_le_bytes, fill_buf, chunks, bytes_to_belts}

abbrev pub IsByte : ℕ → Type 0
IsByte b = b < 256

-- More fuel than there are bytes changes nothing.
chunks_fuel :
    (f g : ℕ) (bytes : List ℕ)
    → length bytes ≤ f
    → length bytes ≤ g
    → chunks f bytes ≡ chunks g bytes
unfolding chunks
chunks_fuel zero zero [] h k = refl
chunks_fuel zero (suc g) [] h k = refl
chunks_fuel (suc f) zero [] h k = refl
chunks_fuel (suc f) (suc g) [] h k = refl
chunks_fuel zero g (b ∷ bytes) h k = absurd (omega arith)
chunks_fuel (suc f) zero (b ∷ bytes) h k = absurd (omega arith)
chunks_fuel (suc f) (suc g) (b ∷ bytes) h k = ap (◌∷◌ (take 7 (b ∷ bytes))) (
    chunks_fuel f g (drop 7 (b ∷ bytes)) (omega (arith, length-drop 6 bytes))
      (omega (arith, length-drop 6 bytes)))

-- The lowest bytes of a number, the lowest first.
unfoldable pub low_bytes : ℕ → ℕ → List ℕ
low_bytes zero n = []
low_bytes (suc k) n = n % 256 ∷ low_bytes k (n / 256)

-- The bytes that belts of seven bytes stand for.
unfoldable pub unpack : List ℕ → List ℕ
unfolding low_bytes
unpack [] = []
unpack (belt ∷ belts) = low_bytes 7 belt ++ unpack belts

low_bytes-fill_buf :
    (k n : ℕ) (chunk : List ℕ)
    → k ≤ n
    → All IsByte chunk
    → low_bytes k (from_le_bytes (fill_buf n chunk)) ≡ fill_buf k chunk
unfolding low_bytes from_le_bytes fill_buf
low_bytes-fill_buf zero n chunk h a = refl
low_bytes-fill_buf (suc k) zero chunk h a = absurd (omega arith)
low_bytes-fill_buf (suc k) (suc n) [] h a =
    let rest = from_le_bytes (fill_buf n []) in
    let low : (0 + 256 * rest) % 256 ≡ 0 = omega arith in
    let high : (0 + 256 * rest) / 256 ≡ rest = omega arith in
    rw (low, high, low_bytes-fill_buf k n [] (omega arith) tt) refl
low_bytes-fill_buf (suc k) (suc n) (b ∷ chunk) h (byte, a) =
    let rest = from_le_bytes (fill_buf n chunk) in
    let low : (b + 256 * rest) % 256 ≡ b = omega arith in
    let high : (b + 256 * rest) / 256 ≡ rest = omega arith in
    rw (low, high, low_bytes-fill_buf k n chunk (omega arith) a) refl

take-fill_buf :
    (n : ℕ) (l more : List ℕ)
    → take (length (drop n l)) more ≡ drop n l
    → take (length l) (fill_buf n (take n l) ++ more) ≡ l
unfolding fill_buf
take-fill_buf zero l more h = h
take-fill_buf (suc n) [] more h = refl
take-fill_buf (suc n) (b ∷ l) more h = ap (◌∷◌ b) (take-fill_buf n l more h)

All-take : (n : ℕ) (l : List ℕ) → All IsByte l → All IsByte (take n l)
All-take zero l a = tt
All-take (suc n) [] a = tt
All-take (suc n) (b ∷ l) (byte, a) = (byte, All-take n l a)

All-drop : (n : ℕ) (l : List ℕ) → All IsByte l → All IsByte (drop n l)
All-drop zero l a = a
All-drop (suc n) [] a = tt
All-drop (suc n) (b ∷ l) (byte, a) = All-drop n l a

abbrev pack : List ℕ → ℕ
pack chunk = from_le_bytes (fill_buf 8 chunk)

unpack-chunks :
    (fuel : ℕ) (bytes more : List ℕ)
    → length bytes ≤ fuel
    → All IsByte bytes
    → take (length bytes) (unpack (map pack (chunks fuel bytes) ++ more)) ≡ bytes
unfolding unpack chunks
unpack-chunks fuel [] more h a = refl
unpack-chunks zero (b ∷ bytes) more h a = absurd (omega arith)
unpack-chunks (suc fuel) (b ∷ bytes) more h a =
    let l = b ∷ bytes in
    let rest = unpack (map pack (chunks fuel (drop 7 l)) ++ more) in
    ap (λ c. take (length l) (c ++ rest))
      (low_bytes-fill_buf 7 8 (take 7 l) (omega arith) (All-take 7 l a))
    ∙ take-fill_buf 7 l rest
        (unpack-chunks fuel (drop 7 l) more (omega (arith, length-drop 6 bytes)) (All-drop 7 l a))

-- For bytes below 256 and a fuel of at least their number: the loop over the chunks takes the same
-- chunks as with the number of bytes, the fuel that `bytes_to_belts` gives it, and the belts of
-- `bytes_to_belts`, unpacked seven bytes each, start with the bytes.
pub bytes_to_belts_total :
    (fuel : ℕ) (bytes : List ℕ)
    → length bytes ≤ fuel
    → All IsByte bytes
    → (chunks fuel bytes ≡ chunks (length bytes) bytes)
      × (take (length bytes) (unpack (bytes_to_belts bytes)) ≡ bytes)
unfolding bytes_to_belts
bytes_to_belts_total fuel bytes h a = (
  chunks_fuel fuel (length bytes) bytes h (omega arith),
  elim (Bool-cases (length bytes == 0 || length bytes % 7 == 0)) [
    | inl e ↦ rw e (unpack-chunks (length bytes) bytes (0 ∷ []) (omega arith) a)
    | inr e ↦ rw e (
        subst (λ belts. take (length bytes) (unpack belts) ≡ bytes)
          (append-nil (map pack (chunks (length bytes) bytes)))
          (unpack-chunks (length bytes) bytes [] (omega arith) a))
  ],
)
