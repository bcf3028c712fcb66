-- ===== src/Client/Http/Url.antt =====
-- crates/x402-client/src/lib.rs: the URL of `BazaarClient::list_resources`, with `percent_encode`.
pub mod Decode
use Prim.Native.Char.{code}
use x402_nockchain.Prelude.{
  ℕ, zero, suc, ◌+◌, ◌-◌, ◌/◌, ◌%◌, String, ◌<>◌, Bool, ◌&&◌, ◌||◌, Option, none, some, List, [],
  ◌∷◌, ◌++◌, leb, ltb, ◌==◌, nat_eq, if◌then◌else◌, map,
}
use x402_nockchain.Decimal.{to_text, digit}
use x402_nockchain.Types.Bazaar.{ListDiscoveryResourcesParams}

-- The digits of `{:X}`.
abbrev hex_letter : ℕ → String
hex_letter zero = "A"
hex_letter (suc zero) = "B"
hex_letter (suc (suc zero)) = "C"
hex_letter (suc (suc (suc zero))) = "D"
hex_letter (suc (suc (suc (suc zero)))) = "E"
hex_letter _ = "F"

unfoldable pub hex_digit : ℕ → String
unfolding digit
hex_digit n = if ltb n 10 then digit n else hex_letter (n - 10)

-- The number itself is fuel enough.
unfoldable pub hex_from : ℕ → ℕ → String
unfolding hex_digit
hex_from zero n = hex_digit n
hex_from (suc fuel) n =
    let front = hex_from fuel (n / 16) in
    if ltb n 16 then hex_digit n else front <> hex_digit (n % 16)

-- `{:02X}`
unfoldable pub hex_2 : ℕ → String
unfolding hex_from
hex_2 n = if ltb n 16 then "0" <> hex_digit n else hex_from n n

abbrev between : ℕ → ℕ → ℕ → Bool
between lo hi c = leb lo c && leb c hi

unfoldable pub unreserved : ℕ → Bool
unreserved c =
    between b'A' b'Z' c
    || between b'a' b'z' c
    || between b'0' b'9' c
    || c == b'-'
    || c == b'_'
    || c == b'.'
    || c == b'~'

unfoldable pub percent_encode : String → String
unfolding unreserved hex_2
percent_encode String.[] = ""
percent_encode (String.◌∷◌ c s) =
    (if unreserved (code c) then String.◌∷◌ c "" else "%" <> hex_2 (code c)) <> percent_encode s

-- `format!` of a parameter that is there.
abbrev pub param {ℓ} : {A : Type ℓ} → String → (A → String) → Option A → List String
param name show none = []
param name show (some a) = (name <> "=" <> show a) ∷ []

-- `join("&")`
unfoldable pub join_and : List String → String
join_and [] = ""
join_and (q ∷ []) = q
join_and (q ∷ r ∷ rest) = q <> "&" <> join_and (r ∷ rest)

unfoldable pub query_params : ListDiscoveryResourcesParams → List String
unfolding percent_encode
query_params params =
    param "type" percent_encode params.kind
    ++ (param "limit" to_text params.limit
        ++ (param "offset" to_text params.offset
            ++ (param "network" percent_encode params.network
                ++ param "scheme" percent_encode params.scheme)))

-- The parameters after a `?`, when there are any.
abbrev with_query : String → List String → String
with_query url [] = url
with_query url (q ∷ qs) = url <> "?" <> join_and (q ∷ qs)

unfoldable pub list_resources_url : String → ListDiscoveryResourcesParams → String
unfolding query_params join_and
list_resources_url base_url params =
    with_query (base_url <> "/discovery/resources") (query_params params)
