-- ===== src/Client/Http/Url/Decode.antt =====
-- What a server reads from the query of the URL: `percent_encode` is undone by percent-decoding.
use Prim.Native.Char.{code}
use x402_nockchain.Prelude.{
  ℕ, zero, suc, ◌+◌, ◌-◌, ◌*◌, ◌/◌, ◌%◌, ◌≤◌, ◌<◌, lt→ltb, String, ◌<>◌, ◌≡◌, refl, ap, true, false,
  List, [], ◌∷◌, All, Bool-cases, inl, inr, ◌==◌, nat_eq, ltb, if◌then◌else◌, arith,
}
use x402_nockchain.Decimal.{codes, digit}
use x402_nockchain.Decimal.Laws.{codes-append}
use x402_nockchain.Client.Http.Url.{unreserved, hex_digit, hex_from, hex_2, percent_encode}

-- The value of a hexadecimal digit.
abbrev unhex : ℕ → ℕ
unhex c = if ltb c b'A' then c - b'0' else c - b'A' + 10

-- Percent-decoding of a query component, as RFC 3986 describes it.
unfoldable pub percent_decode : List ℕ → List ℕ
percent_decode [] = []
percent_decode (c ∷ []) = c ∷ []
percent_decode (c ∷ d ∷ []) = c ∷ d ∷ []
percent_decode (c ∷ d ∷ e ∷ s) =
    let rest = percent_decode s in
    let tail = percent_decode (d ∷ e ∷ s) in
    if c == b'%' then (unhex d * 16 + unhex e) ∷ rest else c ∷ tail

abbrev hex_code : ℕ → ℕ
hex_code n = if ltb n 10 then b'0' + n else b'A' + (n - 10)

unhex-hex_code : (n : ℕ) → n < 16 → unhex (hex_code n) ≡ n
unhex-hex_code n h = ground arith

codes-hex_digit : (n : ℕ) → n < 16 → codes (hex_digit n) ≡ hex_code n ∷ []
unfolding hex_digit digit
codes-hex_digit zero h = refl
codes-hex_digit (suc zero) h = refl
codes-hex_digit (suc (suc zero)) h = refl
codes-hex_digit (suc (suc (suc zero))) h = refl
codes-hex_digit (suc (suc (suc (suc zero)))) h = refl
codes-hex_digit (suc (suc (suc (suc (suc zero))))) h = refl
codes-hex_digit (suc (suc (suc (suc (suc (suc zero)))))) h = refl
codes-hex_digit (suc (suc (suc (suc (suc (suc (suc zero))))))) h = refl
codes-hex_digit (suc (suc (suc (suc (suc (suc (suc (suc zero)))))))) h = refl
codes-hex_digit (suc (suc (suc (suc (suc (suc (suc (suc (suc zero))))))))) h = refl
codes-hex_digit (suc (suc (suc (suc (suc (suc (suc (suc (suc (suc zero)))))))))) h = refl
codes-hex_digit (suc (suc (suc (suc (suc (suc (suc (suc (suc (suc (suc zero))))))))))) h = refl
codes-hex_digit (suc (suc (suc (suc (suc (suc (suc (suc (suc (suc (suc (suc zero)))))))))))) h =
    refl
codes-hex_digit (suc (suc (suc (suc (suc (suc (suc (suc (suc (suc (suc (suc (suc zero)))))))))))))
      h =
    refl
codes-hex_digit
      (suc (suc (suc (suc (suc (suc (suc (suc (suc (suc (suc (suc (suc (suc zero)))))))))))))) h =
    refl
codes-hex_digit
      (suc (suc (suc (suc (suc (suc (suc (suc (suc (suc (suc (suc (suc (suc (suc zero)))))))))))))))
      h =
    refl
codes-hex_digit
      (suc
        (suc (suc (suc (suc (suc (suc (suc (suc (suc (suc (suc (suc (suc (suc (suc n))))))))))))))))
      h =
    absurd (omega arith)

hex_from-digit : (fuel n : ℕ) → n < 16 → hex_from fuel n ≡ hex_digit n
unfolding hex_from
hex_from-digit zero n h = refl
hex_from-digit (suc fuel) n h = rw (lt→ltb n 16 h)

large_codes :
    (n : ℕ) → n < 256 → 16 ≤ n → codes (hex_2 n) ≡ hex_code (n / 16) ∷ hex_code (n % 16) ∷ []
unfolding hex_2 hex_from
large_codes zero h k = absurd (omega arith)
large_codes (suc m) h k =
    let large : ltb (suc m) 16 ≡ false = ground arith in
    rw (
      large,
      hex_from-digit m (suc m / 16) (omega arith),
      codes-append (hex_digit (suc m / 16)) (hex_digit (suc m % 16)),
      codes-hex_digit (suc m / 16) (omega arith),
      codes-hex_digit (suc m % 16) (omega arith),
    )

codes-hex_2 : (n : ℕ) → n < 256 → codes (hex_2 n) ≡ hex_code (n / 16) ∷ hex_code (n % 16) ∷ []
unfolding hex_2 hex_from
codes-hex_2 n h = elim (Bool-cases (ltb n 16)) [
  | inl small ↦
      let high : n / 16 ≡ 0 = ground arith in
      let low : n % 16 ≡ n = ground arith in
      rw (small, codes-append "0" (hex_digit n), high, low, codes-hex_digit n (ground arith)) refl
  | inr large ↦ large_codes n h (ground arith)
]

-- A character that stands for itself is no percent sign.
unreserved-ne : (c : ℕ) → unreserved c ≡ true → (c == b'%') ≡ false
unfolding unreserved
unreserved-ne c h = ground arith

percent_decode-cons :
    (c : ℕ) (s : List ℕ) → (c == b'%') ≡ false → percent_decode (c ∷ s) ≡ c ∷ percent_decode s
unfolding percent_decode
percent_decode-cons c [] h = refl
percent_decode-cons c (d ∷ []) h = refl
percent_decode-cons c (d ∷ e ∷ s) h = rw h

-- A text of ASCII characters, percent-encoded as the client does it, decodes to itself.
pub percent_decode-percent_encode :
    (s : String)
    → All (λ c. c < 128) (codes s)
    → percent_decode (codes (percent_encode s)) ≡ codes s
unfolding percent_encode percent_decode
percent_decode-percent_encode String.[] h = refl
percent_decode-percent_encode (String.◌∷◌ c s) (small, h) =
    let ih = percent_decode-percent_encode s h in
    elim (Bool-cases (unreserved (code c))) [
      | inl plain ↦ rw (
        plain,
        codes-append (String.◌∷◌ c "") (percent_encode s),
        percent_decode-cons (code c) (codes (percent_encode s)) (unreserved-ne (code c) plain),
        ih,
      )
      | inr special ↦
          rw
            (
              special,
              codes-append ("%" <> hex_2 (code c)) (percent_encode s),
              codes-append "%" (hex_2 (code c)),
              codes-hex_2 (code c) (omega arith),
              unhex-hex_code (code c / 16) (omega arith),
              unhex-hex_code (code c % 16) (omega arith),
              ih,
            )
            (ap (λ n. n ∷ codes s) (omega arith))
    ]
