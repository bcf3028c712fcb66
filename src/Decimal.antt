-- ===== src/Decimal.antt =====
-- Rust's decimal text for unsigned integers, which every amount on the wire uses: `to_string`
-- of a `u64`, and `str::parse` into `u64` and `u128`. `parse` accepts one leading `+` and stops
-- with an error at an empty text, at a character that is no digit and at an overflow. The
-- theorems are in the module below.
pub mod Laws
use Prim.Native.Char.{code}
use x402_nockchain.Prelude.{
  ℕ, zero, suc, ◌+◌, ◌-◌, ◌*◌, ◌/◌, ◌%◌, ◌^◌, String, ◌<>◌, ◌||◌, Option, none, some, List, [], ◌∷◌,
  ltb, ◌==◌, nat_eq, if◌then◌else◌,
}

abbrev pub u64_mod : ℕ
u64_mod = 2 ^ 64

abbrev pub u128_mod : ℕ
u128_mod = 2 ^ 128

-- The code points of a text.
abbrev pub codes : String → List ℕ
codes String.[] = []
codes (String.◌∷◌ c s) = code c ∷ codes s

unfoldable pub digit : ℕ → String
digit zero = "0"
digit (suc zero) = "1"
digit (suc (suc zero)) = "2"
digit (suc (suc (suc zero))) = "3"
digit (suc (suc (suc (suc zero)))) = "4"
digit (suc (suc (suc (suc (suc zero))))) = "5"
digit (suc (suc (suc (suc (suc (suc zero)))))) = "6"
digit (suc (suc (suc (suc (suc (suc (suc zero))))))) = "7"
digit (suc (suc (suc (suc (suc (suc (suc (suc zero)))))))) = "8"
digit _ = "9"

-- One digit more than the number is fuel enough.
unfoldable pub to_text_from : ℕ → ℕ → String
unfolding digit
to_text_from zero n = digit n
to_text_from (suc fuel) n =
    let front = to_text_from fuel (n / 10) in if ltb n 10 then digit n else front <> digit (n % 10)

unfoldable pub to_text : ℕ → String
unfolding to_text_from
to_text n = to_text_from n n

-- The digits of `from_str_radix`: `checked_mul` and `checked_add` below `limit`.
unfoldable pub scan : ℕ → List ℕ → ℕ → Option ℕ
scan limit [] n = some n
scan limit (c ∷ s) n =
    let n' = n * 10 + (c - b'0') in
    if ltb c b'0' || ltb b'9' c then none else if ltb n' limit then scan limit s n' else none

unfoldable pub parse_digits : ℕ → List ℕ → Option ℕ
unfolding scan
parse_digits limit [] = none
parse_digits limit (c ∷ s) = scan limit (c ∷ s) 0

unfoldable pub parse_codes : ℕ → List ℕ → Option ℕ
unfolding parse_digits
parse_codes limit [] = none
parse_codes limit (c ∷ s) = if c == b'+' then parse_digits limit s else parse_digits limit (c ∷ s)

-- `s.parse::<u64>().ok()` at the limit `u64_mod`, `s.parse::<u128>().ok()` at `u128_mod`.
unfoldable pub parse : ℕ → String → Option ℕ
unfolding parse_codes
parse limit s = parse_codes limit (codes s)
