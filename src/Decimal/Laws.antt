-- ===== src/Decimal/Laws.antt =====
-- Printing then parsing gives the number back; a parsed number fits; a wider type parses more.
use Prim.Native.Char.{code}
use text.Mathlib.TextLemmas.{nil-append, cons-append}
use x402_nockchain.Prelude.{
  ℕ, zero, suc, ◌+◌, ◌-◌, ◌*◌, ◌/◌, ◌%◌, ◌≤◌, ◌<◌, String, ◌<>◌, ◌≡◌, refl, ap, ◌∙◌, Option, none,
  some, List, [], ◌∷◌, ◌++◌, arith, ltb, Bool-cases, inl, inr,
}
use x402_nockchain.Decimal.{
  codes, digit, to_text_from, to_text, scan, parse_digits, parse_codes, parse,
}

pub codes-append : (s t : String) → codes (s <> t) ≡ codes s ++ codes t
codes-append String.[] t = ap codes (nil-append t)
codes-append (String.◌∷◌ c s) t =
    ap codes (cons-append c s t) ∙ ap (◌∷◌ (code c)) (codes-append s t)

codes-digit : (d : ℕ) → d < 10 → codes (digit d) ≡ (b'0' + d) ∷ []
unfolding digit
codes-digit zero h = refl
codes-digit (suc zero) h = refl
codes-digit (suc (suc zero)) h = refl
codes-digit (suc (suc (suc zero))) h = refl
codes-digit (suc (suc (suc (suc zero)))) h = refl
codes-digit (suc (suc (suc (suc (suc zero))))) h = refl
codes-digit (suc (suc (suc (suc (suc (suc zero)))))) h = refl
codes-digit (suc (suc (suc (suc (suc (suc (suc zero))))))) h = refl
codes-digit (suc (suc (suc (suc (suc (suc (suc (suc zero)))))))) h = refl
codes-digit (suc (suc (suc (suc (suc (suc (suc (suc (suc zero))))))))) h = refl
codes-digit (suc (suc (suc (suc (suc (suc (suc (suc (suc (suc n)))))))))) h = absurd (omega arith)

bind : Option ℕ → (ℕ → Option ℕ) → Option ℕ
bind none f = none
bind (some n) f = f n

scan-append :
    (limit : ℕ) (s t : List ℕ) (n : ℕ)
    → scan limit (s ++ t) n ≡ bind (scan limit s n) (scan limit t)
unfolding scan bind
scan-append limit [] t n = refl
scan-append limit (c ∷ s) t n = ground (arith, scan-append limit s t (n * 10 + (c - b'0')))

scan-digit :
    (limit n d : ℕ)
    → d < 10
    → n * 10 + d < limit
    → scan limit (codes (digit d)) n ≡ some (n * 10 + d)
unfolding scan
scan-digit limit n d h k = rw (codes-digit d h) (ground arith)

scan-to_text_from :
    (limit fuel n : ℕ) → n ≤ fuel → n < limit → scan limit (codes (to_text_from fuel n)) 0 ≡ some n
unfolding to_text_from bind
scan-to_text_from limit zero n h k =
    rw (scan-digit limit 0 n (omega arith) (omega arith)) (ap some (omega arith))
scan-to_text_from limit (suc fuel) n h k = elim (Bool-cases (ltb n 10)) [
  | inl small ↦ rw small (scan-digit limit 0 n (ground arith) (omega arith) ∙ ap some (omega arith))
  | inr large ↦
      rw
        (
          large,
          codes-append (to_text_from fuel (n / 10)) (digit (n % 10)),
          scan-append limit (codes (to_text_from fuel (n / 10))) (codes (digit (n % 10))) 0,
          scan-to_text_from limit fuel (n / 10) (ground arith) (omega arith),
        )
        (scan-digit limit (n / 10) (n % 10) (omega arith) (omega arith) ∙ ap some (omega arith))
]

-- A printed number starts with a digit, never with a sign.
abbrev StartsWithDigit : List ℕ → Type 0
StartsWithDigit l = (c : ℕ) × (s : List ℕ) × (l ≡ c ∷ s) × (b'0' ≤ c)

to_text_from-StartsWithDigit :
    (fuel n : ℕ) → n ≤ fuel → StartsWithDigit (codes (to_text_from fuel n))
unfolding to_text_from
to_text_from-StartsWithDigit zero n h = (b'0' + n, [], codes-digit n (omega arith), omega arith)
to_text_from-StartsWithDigit (suc fuel) n h = elim (Bool-cases (ltb n 10)) [
  | inl small ↦ rw small (b'0' + n, [], codes-digit n (ground arith), omega arith)
  | inr large ↦
      let (c, s, e, le) = to_text_from-StartsWithDigit fuel (n / 10) (ground arith) in
      rw (large, codes-append (to_text_from fuel (n / 10)) (digit (n % 10)), e)
        (c, s ++ codes (digit (n % 10)), refl, le)
]

parse_codes_of_start :
    (limit : ℕ) (l : List ℕ) → StartsWithDigit l → parse_codes limit l ≡ scan limit l 0
unfolding parse_codes scan
parse_codes_of_start limit [] (c, s, e, h) = cc
parse_codes_of_start limit (d ∷ l) (c, s, e, h) = ground arith

-- Parsing a printed number gives it back when it is below the type's limit.
pub parse-to_text : (limit n : ℕ) → n < limit → parse limit (to_text n) ≡ some n
unfolding parse to_text
parse-to_text limit n h =
    parse_codes_of_start limit _ (to_text_from-StartsWithDigit n n (omega arith))
    ∙ scan-to_text_from limit n n (omega arith) h

scan-lt : (limit : ℕ) (s : List ℕ) (n m : ℕ) → n < limit → scan limit s n ≡ some m → m < limit
unfolding scan
scan-lt limit [] n m h e = ground arith
scan-lt limit (c ∷ s) n m h e = ground (arith, scan-lt limit s (n * 10 + (c - b'0')) m)

-- A parsed number is below the type's limit.
pub parse-lt : (limit : ℕ) (s : String) (n : ℕ) → 0 < limit → parse limit s ≡ some n → n < limit
unfolding parse parse_codes parse_digits
parse-lt limit s n h e = go (codes s) e
  where
    go : (l : List ℕ) → parse_codes limit l ≡ some n → n < limit
    go [] e = cc
    go (c ∷ []) e = ground (arith, scan-lt limit (c ∷ []) 0 n)
    go (c ∷ d ∷ l) e = ground (arith, scan-lt limit (d ∷ l) 0 n, scan-lt limit (c ∷ d ∷ l) 0 n)

scan_mono :
    (small large : ℕ) (s : List ℕ) (n m : ℕ)
    → small ≤ large
    → scan small s n ≡ some m
    → scan large s n ≡ some m
unfolding scan
scan_mono small large [] n m h e = e
scan_mono small large (c ∷ s) n m h e =
    ground (arith, scan_mono small large s (n * 10 + (c - b'0')) m)

-- What parses as a narrow integer parses as the same wide one.
pub parse_mono :
    (small large : ℕ) (s : String) (n : ℕ)
    → small ≤ large
    → parse small s ≡ some n
    → parse large s ≡ some n
unfolding parse parse_codes parse_digits
parse_mono small large s n h e = go (codes s) e
  where
    go : (l : List ℕ) → parse_codes small l ≡ some n → parse_codes large l ≡ some n
    go [] e = cc
    go (c ∷ []) e = ground (arith, scan_mono small large (c ∷ []) 0 n)
    go (c ∷ d ∷ l) e =
        ground (arith, scan_mono small large (d ∷ l) 0 n, scan_mono small large (c ∷ d ∷ l) 0 n)
