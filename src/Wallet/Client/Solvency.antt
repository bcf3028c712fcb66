-- ===== src/Wallet/Client/Solvency.antt =====
-- Solvency: the amounts of a payment are read, fit and are covered by its one note.
use x402_nockchain.Prelude.{
  ℕ, ◌+◌, ◌≤◌, ◌<◌, String, ◌≡◌, subst, some, List, [], ◌∷◌, ok, ok-injective, >>=-eq-ok,
  guard-bind-eq-ok, ltb→lt, leb→le, string_eq, arith, inl, inr, Option-cases,
}
use x402_nockchain.Decimal.{u64_mod, parse}
use x402_nockchain.Types.Payment.{Authorization, NoteRef}
use x402_nockchain.Wallet.Client.{parse_decimal, only_note, Amounts, amounts_of}

-- The amounts of an authorization and of the note that it spends.
pub record Solvent (payer : String) (auth : Authorization) : Type 0 where
  pub note : NoteRef
  pub value : ℕ
  pub fee : ℕ
  pub assets : ℕ
  pub payer_bound : auth.from ≡ payer
  pub single : auth.notes ≡ note ∷ []
  pub value_read : parse u64_mod auth.value ≡ some value
  pub fee_read : parse u64_mod auth.fee ≡ some fee
  pub assets_read : parse u64_mod note.assets ≡ some assets
  pub fits : value + fee < u64_mod
  pub covered : value + fee ≤ assets

parse_decimal-eq-ok :
    (s field : String) {n : ℕ} → parse_decimal s field ≡ ok n → parse u64_mod s ≡ some n
unfolding parse_decimal
parse_decimal-eq-ok s field h = elim (Option-cases (parse u64_mod s)) [
  | inl e ↦ let h' = rw e at h in cc
  | inr (v, e) ↦ let h' = rw e at h in cc
]

pub only_note-eq-ok :
    (notes : List NoteRef) (note : NoteRef) → only_note notes ≡ ok note → notes ≡ note ∷ []
unfolding only_note
only_note-eq-ok [] note h = cc
only_note-eq-ok (n ∷ []) note h = cc
only_note-eq-ok (n ∷ m ∷ rest) note h = cc

-- The amounts of one note, with the change that they leave.
pub record Covers (auth : Authorization) (note : NoteRef) (a : Amounts) : Type 0 where
  pub assets : ℕ
  pub value_read : parse u64_mod auth.value ≡ some a.value
  pub fee_read : parse u64_mod auth.fee ≡ some a.fee
  pub assets_read : parse u64_mod note.assets ≡ some assets
  pub fits : a.value + a.fee < u64_mod
  pub conserved : a.value + a.fee + a.change ≡ assets

pub amounts_of-Covers :
    (auth : Authorization) (note : NoteRef) (a : Amounts)
    → amounts_of auth note ≡ ok a
    → Covers auth note a
unfolding amounts_of
amounts_of-Covers auth note a h =
    let (value, e1, h1) = >>=-eq-ok (parse_decimal auth.value "auth.value") _ h in
    let (fee, e2, h2) = >>=-eq-ok (parse_decimal auth.fee "auth.fee") _ h1 in
    let (assets, e3, h3) = >>=-eq-ok (parse_decimal note.assets "auth.notes[0].assets") _ h2 in
    let (fit, h4) = guard-bind-eq-ok _ _ _ h3 in
    let (enough, h5) = guard-bind-eq-ok _ _ _ h4 in
    subst (Covers auth note) (ok-injective h5) (record {
      assets = assets;
      value_read = parse_decimal-eq-ok auth.value _ e1;
      fee_read = parse_decimal-eq-ok auth.fee _ e2;
      assets_read = parse_decimal-eq-ok note.assets _ e3;
      fits = ltb→lt _ _ fit;
      conserved = omega (arith, leb→le (value + fee) assets enough);
    })
