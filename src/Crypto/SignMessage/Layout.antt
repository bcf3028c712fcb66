-- ===== src/Crypto/SignMessage/Layout.antt =====
-- The belts that are hashed have one fixed layout, so equal belts come from equal fields.
use x402_nockchain.Prelude.{
  ℕ, ◌%◌, ◌≡◌, refl, sym, ap, ◌∙◌, String, List, [], ◌∷◌, ◌++◌, arith, some, ok, >>=-eq-ok,
  ok-injective, ◌↔◌, length, length-append,
}
use x402_nockchain.Decimal.{parse, u64_mod, codes}
use x402_nockchain.Types.Payment.{NoteRef, Authorization}
use x402_nockchain.Crypto.Interface.{Encoding, IsLawfulEncoding}
use x402_nockchain.Crypto.SignMessage.{
  u64_to_belt, decimal_to_belt, base58_to_belts, note_belts, or_zero, sort_notes,
  compute_notes_hash, x402_sign_message_belts, x402_sign_message_digest, bytes_to_belts,
  x402_domain_separator,
}
use x402_nockchain.Crypto.SignMessage.Base58.{base58_to_belts_sound}

append_inj {ℓ} :
    {A : Type ℓ} (a b c d : List A) → length a ≡ length b → a ++ c ≡ b ++ d → (a ≡ b) × (c ≡ d)
append_inj [] [] c d len h = (refl, h)
append_inj [] (y ∷ b) c d len h = absurd (omega arith)
append_inj (x ∷ a) [] c d len h = absurd (omega arith)
append_inj (x ∷ a) (y ∷ b) c d len h =
    let (tails, rest) = append_inj a b c d (omega arith) (cc h) in (cc (h, tails), rest)

cons-cons_inj {ℓ} :
    {A : Type ℓ} {x y x' y' : A} {l l' : List A}
    → x ∷ y ∷ l ≡ x' ∷ y' ∷ l'
    → (x ≡ x') × (y ≡ y') × (l ≡ l')
cons-cons_inj h = (cc, cc, cc)

module _ (E : Encoding) where
  -- The belts of each field of an authorization, when all of them can be computed.
  pub record Fields (auth : Authorization) : Type 0 where
    pub from : List ℕ
    pub to : List ℕ
    pub value : ℕ
    pub fee : ℕ
    pub nonce : List ℕ
    pub notes : List ℕ
    pub change : List ℕ
    pub from_eq : base58_to_belts E auth.from "from" ≡ ok from
    pub to_eq : base58_to_belts E auth.to "to" ≡ ok to
    pub value_eq : decimal_to_belt E auth.value "value" ≡ ok value
    pub fee_eq : decimal_to_belt E auth.fee "fee" ≡ ok fee
    pub nonce_eq : base58_to_belts E auth.nonce "nonce" ≡ ok nonce
    pub notes_eq : compute_notes_hash E auth.notes ≡ ok notes
    pub change_eq : base58_to_belts E auth.change_address "changeAddress" ≡ ok change

  abbrev pub layout : {auth : Authorization} → Fields auth → List ℕ
  layout {auth} f =
      bytes_to_belts (codes x402_domain_separator)
      ++ (f.from
          ++ (f.to
              ++ (f.value
                  ∷ f.fee
                  ∷ (f.nonce
                      ++ ((u64_to_belt E auth.valid_after ∷ u64_to_belt E auth.valid_before ∷ [])
                          ++ (f.notes ++ f.change))))))

  pub x402_sign_message_belts-Fields :
      (auth : Authorization) (belts : List ℕ)
      → x402_sign_message_belts E auth ≡ ok belts
      → (f : Fields auth) × (belts ≡ layout f)
  unfolding x402_sign_message_belts
  x402_sign_message_belts-Fields auth belts h =
      let (from, from_eq, h1) = >>=-eq-ok (base58_to_belts E auth.from "from") _ h in
      let (to, to_eq, h2) = >>=-eq-ok (base58_to_belts E auth.to "to") _ h1 in
      let (value, value_eq, h3) = >>=-eq-ok (decimal_to_belt E auth.value "value") _ h2 in
      let (fee, fee_eq, h4) = >>=-eq-ok (decimal_to_belt E auth.fee "fee") _ h3 in
      let (nonce, nonce_eq, h5) = >>=-eq-ok (base58_to_belts E auth.nonce "nonce") _ h4 in
      let (notes, notes_eq, h6) = >>=-eq-ok (compute_notes_hash E auth.notes) _ h5 in
      let (change, change_eq, h7) =
        >>=-eq-ok (base58_to_belts E auth.change_address "changeAddress") _ h6 in
      (
        record {
          from = from;
          to = to;
          value = value;
          fee = fee;
          nonce = nonce;
          notes = notes;
          change = change;
          from_eq = from_eq;
          to_eq = to_eq;
          value_eq = value_eq;
          fee_eq = fee_eq;
          nonce_eq = nonce_eq;
          notes_eq = notes_eq;
          change_eq = change_eq;
        },
        sym (ok-injective h7),
      )

  -- Two authorizations that agree in everything that is hashed, field by field.
  pub record SameFields (a b : Authorization) : Type 0 where
    pub from : base58_to_belts E a.from "from" ≡ base58_to_belts E b.from "from"
    pub to : base58_to_belts E a.to "to" ≡ base58_to_belts E b.to "to"
    pub value : decimal_to_belt E a.value "value" ≡ decimal_to_belt E b.value "value"
    pub fee : decimal_to_belt E a.fee "fee" ≡ decimal_to_belt E b.fee "fee"
    pub nonce : base58_to_belts E a.nonce "nonce" ≡ base58_to_belts E b.nonce "nonce"
    pub after : u64_to_belt E a.valid_after ≡ u64_to_belt E b.valid_after
    pub before : u64_to_belt E a.valid_before ≡ u64_to_belt E b.valid_before
    pub notes : compute_notes_hash E a.notes ≡ compute_notes_hash E b.notes
    pub change :
        base58_to_belts E a.change_address "changeAddress"
        ≡ base58_to_belts E b.change_address "changeAddress"

  x402_sign_message_belts-eq_of_SameFields :
      (a b : Authorization)
      → SameFields a b
      → x402_sign_message_belts E a ≡ x402_sign_message_belts E b
  unfolding x402_sign_message_belts
  x402_sign_message_belts-eq_of_SameFields a b s =
      rw (s.from, s.to, s.value, s.fee, s.nonce, s.after, s.before, s.notes, s.change)

  module _ (L : IsLawfulEncoding E) where
    length-base58 :
        (b58 field : String) (belts : List ℕ)
        → base58_to_belts E b58 field ≡ ok belts
        → length belts ≡ 5
    length-base58 b58 field belts h = (base58_to_belts_sound E L b58 field belts h).0

    length-notes :
        (notes : List NoteRef) (belts : List ℕ)
        → compute_notes_hash E notes ≡ ok belts
        → length belts ≡ 5
    unfolding compute_notes_hash
    length-notes notes belts h =
        let (inner, _, e) = >>=-eq-ok (note_belts E (sort_notes notes)) _ h in
        rw (← ok-injective e) (L.length-hash_varlen (or_zero E inner))

    -- Over a lawful encoding, the hashed sequence, when it can be computed, has thirty-two belts.
    pub length-x402_sign_message_belts :
        (auth : Authorization) (belts : List ℕ)
        → x402_sign_message_belts E auth ≡ ok belts
        → length belts ≡ 32
    unfolding bytes_to_belts
    length-x402_sign_message_belts auth belts h =
        let (f, e) = x402_sign_message_belts-Fields auth belts h in
        rw (
          e,
          length-append f.from _,
          length-append f.to _,
          length-append f.nonce _,
          length-append f.notes _,
          length-base58 _ _ _ f.from_eq,
          length-base58 _ _ _ f.to_eq,
          length-base58 _ _ _ f.nonce_eq,
          length-base58 _ _ _ f.change_eq,
          length-notes _ _ f.notes_eq,
        )

    layout-SameFields :
        (a b : Authorization) (f : Fields a) (g : Fields b) → layout f ≡ layout g → SameFields a b
    layout-SameFields a b f g h =
        let (_, h1) = append_inj (bytes_to_belts (codes x402_domain_separator)) _ _ _ refl h in
        let (from, h2) =
          append_inj f.from g.from _ _
            (length-base58 _ _ _ f.from_eq ∙ sym (length-base58 _ _ _ g.from_eq)) h1 in
        let (to, h3) =
          append_inj f.to g.to _ _ (length-base58 _ _ _ f.to_eq ∙ sym (length-base58 _ _ _ g.to_eq))
            h2 in
        let (value, fee, h4) = cons-cons_inj h3 in
        let (nonce, h5) =
          append_inj f.nonce g.nonce _ _
            (length-base58 _ _ _ f.nonce_eq ∙ sym (length-base58 _ _ _ g.nonce_eq)) h4 in
        let (after, before, h6) = cons-cons_inj h5 in
        let (notes, change) =
          append_inj f.notes g.notes f.change g.change
            (length-notes a.notes _ f.notes_eq ∙ sym (length-notes b.notes _ g.notes_eq)) h6 in
        record {
          from = f.from_eq ∙ ap ok from ∙ sym g.from_eq;
          to = f.to_eq ∙ ap ok to ∙ sym g.to_eq;
          value = f.value_eq ∙ ap ok value ∙ sym g.value_eq;
          fee = f.fee_eq ∙ ap ok fee ∙ sym g.fee_eq;
          nonce = f.nonce_eq ∙ ap ok nonce ∙ sym g.nonce_eq;
          after = after;
          before = before;
          notes = f.notes_eq ∙ ap ok notes ∙ sym g.notes_eq;
          change = f.change_eq ∙ ap ok change ∙ sym g.change_eq;
        }

    -- Over a lawful encoding, when both have a belt sequence, the sequences of two authorizations are equal exactly when
    -- the authorizations agree in every hashed field: the same belts for sender, recipient, nonce
    -- and change address, the same value, fee and time limits as belts, and the same notes hash.
    pub x402_sign_message_belts_iff :
        (a b : Authorization) (m n : List ℕ)
        → x402_sign_message_belts E a ≡ ok m
        → x402_sign_message_belts E b ≡ ok n
        → (m ≡ n) ↔ SameFields a b
    x402_sign_message_belts_iff a b m n ha hb =
        let (f, ef) = x402_sign_message_belts-Fields a m ha in
        let (g, eg) = x402_sign_message_belts-Fields b n hb in
        (
          λ same. layout-SameFields a b f g (sym ef ∙ same ∙ eg),
          λ s. ok-injective (sym ha ∙ x402_sign_message_belts-eq_of_SameFields a b s ∙ hb),
        )

  -- The digest sees the value only modulo the prime: with two values, both decimal texts of 64-bit
  -- numbers that leave the same remainder, an authorization has the same digest.
  pub x402_sign_message_digest_wraps :
      (auth : Authorization) (v w : String) (m n : ℕ)
      → parse u64_mod v ≡ some m
      → parse u64_mod w ≡ some n
      → m % E.prime ≡ n % E.prime
      → x402_sign_message_digest E (record auth { value = v })
        ≡ x402_sign_message_digest E (record auth { value = w })
  unfolding x402_sign_message_digest x402_sign_message_belts decimal_to_belt u64_to_belt
  x402_sign_message_digest_wraps auth v w m n hv hw h = rw (hv, hw, h)
