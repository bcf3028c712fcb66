-- ===== src/Facilitator/Catalog/Memory/Laws.antt =====
-- The store as a table with one row for each resource and kind, and its pages.
use x402_nockchain.Prelude.{
  ℕ, zero, suc, ◌+◌, ◌*◌, ◌≤◌, ◌≡◌, refl, sym, ap, String, true, false, ◌&&◌, Option, some, [], ◌∷◌,
  ◌++◌, All, length, take, drop, find, ◌==◌, string_eq, eq_iff, ◌↔◌, arith, Bool-cases, inl, inr,
  if◌then◌else◌,
}
use x402_nockchain.Types.Bazaar.{DiscoveryResource, ListDiscoveryResourcesParams}
use x402_nockchain.Facilitator.Catalog.Memory.{Rows, same_key, put, filtered, list_rows}

module _ {Value : Type 0} where
  -- No two rows have the same resource and kind.
  abbrev pub Distinct : Rows Value → Type 0
  Distinct [] = Unit
  Distinct (r ∷ rows) = All (λ s. same_key s r ≡ false) rows × Distinct rows

  -- The row for a resource and a kind.
  abbrev pub row_at : String → String → Rows Value → Option (DiscoveryResource Value)
  row_at resource kind rows = find (λ r. r.resource == resource && r.kind == kind) rows

  same_key_iff :
      (r s : DiscoveryResource Value)
      → (same_key r s ≡ true) ↔ ((r.resource ≡ s.resource) × (r.kind ≡ s.kind))
  unfolding same_key
  same_key_iff r s = ground (arith, eq_iff r.resource s.resource, eq_iff r.kind s.kind)

  same_key-false :
      (r s t : DiscoveryResource Value)
      → same_key r s ≡ true
      → same_key t r ≡ false
      → same_key t s ≡ false
  same_key-false r s t h k = ground (arith, same_key_iff r s, same_key_iff t r, same_key_iff t s)

  same_key-sym_false : (r s : DiscoveryResource Value) → same_key r s ≡ false → same_key s r ≡ false
  same_key-sym_false r s h = ground (arith, same_key_iff r s, same_key_iff s r)

  All-same_key :
      (r s : DiscoveryResource Value) (rows : Rows Value)
      → same_key r s ≡ true
      → All (λ t. same_key t r ≡ false) rows
      → All (λ t. same_key t s ≡ false) rows
  All-same_key r s [] h a = tt
  All-same_key r s (t ∷ rows) h (e, a) = (same_key-false r s t h e, All-same_key r s rows h a)

  All-put :
      (r s : DiscoveryResource Value) (rows : Rows Value)
      → same_key s r ≡ false
      → All (λ t. same_key t r ≡ false) rows
      → All (λ t. same_key t r ≡ false) (put s rows)
  unfolding put
  All-put r s [] h a = (h, tt)
  All-put r s (t ∷ rows) h (e, a) = elim (Bool-cases (same_key t s)) [
    | inl b ↦ rw b (h, a)
    | inr b ↦ rw b (e, All-put r s rows h a)
  ]

  -- What holds of the new row and of the rows before holds of all rows after an upsert.
  pub All-put_row :
      (P : DiscoveryResource Value → Type 0) (s : DiscoveryResource Value) (rows : Rows Value)
      → P s
      → All P rows
      → All P (put s rows)
  unfolding put
  All-put_row P s [] p a = (p, tt)
  All-put_row P s (r ∷ rows) p (q, a) = elim (Bool-cases (same_key r s)) [
    | inl b ↦ rw b (p, a)
    | inr b ↦ rw b (q, All-put_row P s rows p a)
  ]

  -- An upsert keeps at most one row for each resource and kind.
  pub put-Distinct :
      (s : DiscoveryResource Value) (rows : Rows Value) → Distinct rows → Distinct (put s rows)
  unfolding put
  put-Distinct s [] d = (tt, tt)
  put-Distinct s (r ∷ rows) (a, d) = elim (Bool-cases (same_key r s)) [
    | inl b ↦ rw b (All-same_key r s rows b a, d)
    | inr b ↦ rw b (All-put r s rows (same_key-sym_false r s b) a, put-Distinct s rows d)
  ]

  -- After an upsert, the row for the resource and kind of the new entry is that entry, and the
  -- row for any other resource and kind is the one before.
  pub row_at-put :
      (s : DiscoveryResource Value) (rows : Rows Value) (resource kind : String)
      → row_at resource kind (put s rows)
        ≡ (if s.resource == resource && s.kind == kind then some s else row_at resource kind rows)
  unfolding put same_key
  row_at-put s [] resource kind = refl
  row_at-put s (r ∷ rows) resource kind = ground (
    arith,
    eq_iff r.resource s.resource,
    eq_iff r.kind s.kind,
    eq_iff r.resource resource,
    eq_iff r.kind kind,
    eq_iff s.resource resource,
    eq_iff s.kind kind,
    row_at-put s rows resource kind,
  )

  -- The pages of size `l` from an offset on, as a client asks for them one after the other.
  unfoldable pub walk : ListDiscoveryResourcesParams → ℕ → ℕ → ℕ → Rows Value → Rows Value
  walk params l zero offset rows = []
  walk params l (suc n) offset rows =
      (list_rows (record params { limit = some l; offset = some offset }) rows).0
      ++ walk params l n (offset + l) rows

  take-drop : (l : ℕ) (rows : Rows Value) → take l rows ++ drop l rows ≡ rows
  take-drop zero rows = refl
  take-drop (suc l) [] = refl
  take-drop (suc l) (r ∷ rows) = ap (◌∷◌ r) (take-drop l rows)

  take-append-drop :
      (l o m : ℕ) (rows : Rows Value)
      → m ≡ l + o
      → take l (drop o rows) ++ drop m rows ≡ drop o rows
  take-append-drop l zero m rows h = let same : m ≡ l = omega arith in rw same (take-drop l rows)
  take-append-drop zero (suc o) zero [] h = refl
  take-append-drop zero (suc o) (suc m) [] h = refl
  take-append-drop (suc l) (suc o) zero [] h = refl
  take-append-drop (suc l) (suc o) (suc m) [] h = refl
  take-append-drop l (suc o) zero (r ∷ rows) h = absurd (omega arith)
  take-append-drop l (suc o) (suc m) (r ∷ rows) h = take-append-drop l o m rows (omega arith)

  drop-all : (n : ℕ) (rows : Rows Value) → length rows ≤ n → drop n rows ≡ []
  drop-all zero [] h = refl
  drop-all (suc n) [] h = refl
  drop-all zero (r ∷ rows) h = absurd (omega arith)
  drop-all (suc n) (r ∷ rows) h = drop-all n rows (omega arith)

  -- As many pages as it takes, from an offset on, are together the rows that pass the filters
  -- after that offset: none is missing and none comes twice.
  pub walk-drop :
      (params : ListDiscoveryResourcesParams) (l n offset : ℕ) (rows : Rows Value)
      → length (filtered params rows) ≤ offset + n * l
      → walk params l n offset rows ≡ drop offset (filtered params rows)
  unfolding walk list_rows filtered
  walk-drop params l zero offset rows h = sym (drop-all offset (filtered params rows) (omega arith))
  walk-drop params l (suc n) offset rows h =
      rw (walk-drop params l n (offset + l) rows (omega arith))
        (take-append-drop l offset (offset + l) (filtered params rows) (omega arith))
