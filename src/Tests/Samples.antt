-- ===== src/Tests/Samples.antt =====
-- Concrete instances of the interfaces: a field of three elements, a text encoding in unary, a
-- signature that adds the key to the digest, JSON values that hold a payload, and a replay cache
-- that keeps the time at which each key ends.
use x402_nockchain.Prelude.{
  nat_beq_iff, ok-injective, ℕ, zero, suc, ◌+◌, ◌%◌, String, ◌<>◌, ◌≡◌, refl, sym, ap, ◌∙◌, Bool,
  true, false, ◌&&◌, ◌||◌, Option, none, some, List, [], ◌∷◌, Result, ok, err, guard, any, length,
  nat_beq, ltb, lt→ltb, ◌==◌, string_eq, nat_eq, eq_refl, arith, Bool-cases, inl, inr,
  if◌then◌else◌, Dict,
}
use x402_nockchain.Decimal.{codes}
use x402_nockchain.Decimal.Laws.{codes-append}
use x402_nockchain.Types.Json.{Json, IsLawfulJson}
use x402_nockchain.Types.Nockchain.{ExactNockchainPayload}
use x402_nockchain.Types.Payment.{
  zero_8, NoteRef, simple_pkh, Authorization, PaymentRequirements, SchnorrSignatureJson,
}
use x402_nockchain.Crypto.Signer.{NockchainSigner}
use x402_nockchain.Types.Bazaar.{BazaarExtension}
use x402_nockchain.Types.Written.{info_value}
use x402_nockchain.Advertiser.{declare_mcp}
use x402_nockchain.Crypto.Interface.{Encoding, IsLawfulEncoding, Schnorr, IsLawfulSchnorr}
use x402_nockchain.Facilitator.Replay.{ReplayCache, IsLawfulReplayCache}

-- A number in unary, with its end.
unfoldable pub ones : ℕ → String → String
ones zero s = "2" <> s
ones (suc n) s = "1" <> ones n s

unfoldable pub enc : List ℕ → String
enc [] = ""
enc (b ∷ bs) = ones b (enc bs)

abbrev pub cons_ok : ℕ → Result (Unit {0}) (List ℕ) → Result (Unit {0}) (List ℕ)
cons_ok n (ok bs) = ok (n ∷ bs)
cons_ok n (err e) = err e

unfoldable pub dec : List ℕ → ℕ → Result (Unit {0}) (List ℕ)
dec [] zero = ok []
dec [] (suc n) = err tt
dec (c ∷ s) n = elim (nat_beq c 49) [
  | true ↦ dec s (suc n)
  | false ↦ elim (nat_beq c 50) [ true ↦ cons_ok n (dec s 0) | false ↦ err tt ]
]

dec-ones : (b n : ℕ) (s : String) → dec (codes (ones b s)) n ≡ cons_ok (n + b) (dec (codes s) 0)
unfolding dec ones
dec-ones zero n s =
    ap (λ l. dec l n) (codes-append "2" s) ∙ ap (λ m. cons_ok m (dec (codes s) 0)) (omega arith)
dec-ones (suc b) n s =
    ap (λ l. dec l n) (codes-append "1" (ones b s))
    ∙ dec-ones b (suc n) s
    ∙ ap (λ m. cons_ok m (dec (codes s) 0)) (omega arith)

pub dec-enc : (bs : List ℕ) → dec (codes (enc bs)) 0 ≡ ok bs
unfolding enc dec
dec-enc [] = refl
dec-enc (b ∷ bs) =
    dec-ones b 0 (enc bs) ∙ ap (cons_ok (0 + b)) (dec-enc bs) ∙ ap (λ m. ok (m ∷ bs)) (omega arith)

unfoldable pub sum : List ℕ → ℕ
sum [] = 0
sum (n ∷ ns) = n + sum ns

abbrev first_byte : List ℕ → ℕ
first_byte [] = 0
first_byte (b ∷ bs) = b

abbrev pub encoding : Encoding
encoding = record {
  prime = 3;
  hash_varlen = λ belts. sum belts % 3 ∷ length belts % 3 ∷ 0 ∷ 1 ∷ 2 ∷ [];
  DecodeError = Unit {0};
  bs58_decode = λ s. dec (codes s) 0;
  bs58_encode = enc;
  from_be_bytes = first_byte;
  to_be_bytes = λ n. n ∷ [];
}

pub encoding-IsLawfulEncoding : IsLawfulEncoding encoding
encoding-IsLawfulEncoding = record {
  prime_pos = omega arith;
  prime_le = omega arith;
  length-hash_varlen = λ belts. refl;
  bs58_decode-bs58_encode = dec-enc;
  from_be_bytes-to_be_bytes = λ n. refl;
}

abbrev triple : Result (Unit {0}) (List ℕ) → Result (Unit {0}) (ℕ × ℕ × ℕ)
triple (ok (a ∷ b ∷ c ∷ [])) = ok (a, b, c)
triple (ok _) = err tt
triple (err e) = err e

abbrev pub schnorr : Schnorr
schnorr = record {
  SecretKey = ℕ;
  PublicKey = ℕ;
  Scalar = ℕ;
  CurveError = Unit {0};
  SchnorrError = Unit {0};
  curve = λ e. e;
  curve_text = λ e. "curve";
  schnorr_text = λ e. "schnorr";
  public_key = λ sk. sk;
  into_base58 = λ pk. ok (enc (pk ∷ []));
  to_bytes = λ pk. ok (pk ∷ []);
  schnorr_sign = λ sk digest. ok (1, sk + sum digest);
  schnorr_verify = λ pk digest chal sig. guard (sig == pk + sum digest) tt;
  encode_signature = λ pk chal sig. ok (record {
    pubkey = enc (pk ∷ chal ∷ sig ∷ []);
    schnorr = record { chal = zero_8; sig = zero_8 };
  });
  decode_signature = λ v. triple (dec (codes v.pubkey) 0);
}

pub schnorr-IsLawfulSchnorr : IsLawfulSchnorr schnorr
schnorr-IsLawfulSchnorr = record {
  verify-sign = λ sk digest chal sig h.
      let e = ap (λ p. p.1) (ok-injective h) in rw ((nat_beq_iff sig (sk + sum digest)).1 (sym e));
  decode-encode = λ pk chal sig v h.
      ap (λ w. triple (dec (codes w.pubkey) 0)) (sym (ok-injective h))
      ∙ ap triple (dec-enc (pk ∷ chal ∷ sig ∷ []));
}

-- JSON values, with one more for a payload of the exact scheme.
mutual
  pub data Node : Type 0 where
    null : Node
    flag : Bool → Node
    text : String → Node
    exact : ExactNockchainPayload → Node
    row : Nodes → Node
    table : Entries → Node

  pub data Nodes : Type 0 where
    end : Nodes
    item : Node → Nodes → Nodes

  pub data Entries : Type 0 where
    last : Entries
    entry : String → Node → Entries → Entries

abbrev pub nodes_of : List Node → Nodes
nodes_of [] = end
nodes_of (v ∷ vs) = item v (nodes_of vs)

abbrev pub entries_of : Dict Node → Entries
entries_of [] = last
entries_of ((k, v) ∷ rest) = entry k v (entries_of rest)

abbrev pub find : String → Entries → Option Node
find key last = none
find key (entry k v rest) = if k == key then some v else find key rest

abbrev get : String → Node → Option Node
get key (table entries) = find key entries
get key _ = none

abbrev read_node : Node → Result (Unit {0}) ExactNockchainPayload
read_node (exact p) = ok p
read_node _ = err tt

abbrev node_text : Node → Option String
node_text (text s) = some s
node_text _ = none

-- The values alone, without the codecs of types that are made of them.
abbrev pub plain : Json
plain = record {
  Value = Node;
  JsonError = Unit {0};
  error_text = λ e. "json";
  get = get;
  as_str = node_text;
  string = text;
  boolean = flag;
  array = λ vs. row (nodes_of vs);
  object = λ kvs. table (entries_of kvs);
  read_exact = read_node;
  write_exact = λ p. ok (exact p);
  read_signed_raw_tx = λ v. err tt;
  read_bazaar = λ v. err tt;
  write_bazaar = λ e. ok null;
  write_info = λ i. ok null;
}

abbrev pub tool_extension : BazaarExtension Node
tool_extension = declare_mcp plain "echo" none (table last) none none none

-- The value that stands for the extension of the tool.
abbrev read_extension : Node → Result (Unit {0}) (BazaarExtension Node)
read_extension null = ok tool_extension
read_extension _ = err tt

abbrev pub json : Json
json = record plain { read_bazaar = read_extension; write_info = λ i. ok (info_value plain i) }

pub json-IsLawfulJson : IsLawfulJson json
json-IsLawfulJson = record { read-write_exact = λ payload v h. ap read_node (sym (ok-injective h)) }

or-true : (b : Bool) → (b || true) ≡ true
or-true true = refl
or-true false = refl

abbrev is_live_in : String → ℕ → List (String × ℕ) → Bool
is_live_in k u c = any (λ e. e.0 == k && ltb u e.1) c

abbrev pub replay_cache : ReplayCache
replay_cache = record {
  Cache = List (String × ℕ);
  Key = String;
  prefixed_replay_key = λ domain nonce. domain <> nonce;
  authorization_domain = "x402-auth:";
  seen = λ k ttl t c. (is_live_in k t c, if is_live_in k t c then c else (k, t + ttl) ∷ c);
}

pub replay_cache-IsLawfulReplayCache : IsLawfulReplayCache replay_cache
replay_cache-IsLawfulReplayCache = record {
  is_live = is_live_in;
  seen-is_live = λ k ttl t c. refl;
  is_live-seen = λ k ttl t u c h le lt. rw (h, eq_refl k, lt→ltb u (t + ttl) lt);
  is_live-seen_keep = λ k j ttl t u c live le. elim (Bool-cases (is_live_in j t c)) [
    | inl e ↦ rw e live
    | inr e ↦ rw (e, live) (or-true _)
  ];
}

abbrev pub decode_text : Unit {0} → String
decode_text e = "base58"

-- The key 2, its identifier, and an authorization by it.
abbrev pub sender : String
sender = enc (194 ∷ [])

abbrev pub signer : NockchainSigner encoding schnorr decode_text
signer = record { sk = 2; pk = 2; pk_b58 = enc (2 ∷ []); pkh_b58 = sender }

abbrev pub note : NoteRef
note = record { name = record { first = "12"; last = "1112" }; assets = "5"; lock = simple_pkh }

abbrev pub auth : Authorization
auth = record {
  from = sender;
  to = "12";
  value = "5";
  fee = "0";
  nonce = "112";
  valid_after = 95;
  valid_before = 200;
  notes = note ∷ [];
  change_address = sender;
}

abbrev pub requirements : PaymentRequirements Node
requirements = record {
  scheme = "exact";
  network = "nockchain:fakenet";
  max_amount_required = "5";
  resource = "/tool";
  asset = "NOCK";
  pay_to = "12";
  max_timeout_seconds = 100;
  description = none;
  mime_type = none;
  output_schema = none;
  extra = none;
  extensions = none;
}

abbrev pub signature : SchnorrSignatureJson
signature = record {
  pubkey = enc (2 ∷ 1 ∷ 7 ∷ []);
  schnorr = record { chal = zero_8; sig = zero_8 };
}
