-- ===== src/Crypto/SignMessage/Notes.antt =====
-- The notes hash does not depend on the order in which the notes are listed: `le_name` is a total
-- order of names, so the sorted names are the same, and only the names are hashed.

use mathlib.Core.List.{Permᴰ}
use mathlib.Core.Path.{ap₂}
use text.Mathlib.TextEquality.{Char-path}
use x402_nockchain.Prelude.{
  ℕ, String, ◌≡◌, refl, sym, ap, ◌∙◌, true, false, List, [], ◌∷◌, map, string_eq, eq_iff, arith,
  if◌then◌else◌,
}
use x402_nockchain.Decimal.{codes}
use x402_nockchain.Types.Payment.{NoteName, NoteRef}
use x402_nockchain.Crypto.Interface.{Encoding}
use x402_nockchain.Crypto.SignMessage.{
  le_codes, le_name, insert_note, sort_notes, note_belts, compute_notes_hash,
}

le_codes_total : (s t : List ℕ) → le_codes s t ≡ false → le_codes t s ≡ true
unfolding le_codes
le_codes_total [] t h = cc
le_codes_total (c ∷ s) [] h = refl
le_codes_total (c ∷ s) (d ∷ t) h = ground (arith, le_codes_total s t)

le_codes_antisymm : (s t : List ℕ) → le_codes s t ≡ true → le_codes t s ≡ true → s ≡ t
unfolding le_codes
le_codes_antisymm [] [] h k = refl
le_codes_antisymm [] (d ∷ t) h k = cc
le_codes_antisymm (c ∷ s) [] h k = cc
le_codes_antisymm (c ∷ s) (d ∷ t) h k = ground (arith, le_codes_antisymm s t)

le_codes_trans : (s t u : List ℕ) → le_codes s t ≡ true → le_codes t u ≡ true → le_codes s u ≡ true
unfolding le_codes
le_codes_trans [] t u h k = refl
le_codes_trans (c ∷ s) [] u h k = cc
le_codes_trans (c ∷ s) (d ∷ t) [] h k = cc
le_codes_trans (c ∷ s) (d ∷ t) (e ∷ u) h k = ground (arith, le_codes_trans s t u)

pub codes-injective : (s t : String) → codes s ≡ codes t → s ≡ t
codes-injective String.[] String.[] h = refl
codes-injective String.[] (String.◌∷◌ d t) h = cc
codes-injective (String.◌∷◌ c s) String.[] h = cc
codes-injective (String.◌∷◌ c s) (String.◌∷◌ d t) h =
    ap₂ String.◌∷◌ (Char-path c d (cc h)) (codes-injective s t (cc h))

le_name_total : (a b : NoteName) → le_name a b ≡ false → le_name b a ≡ true
unfolding le_name
le_name_total a b h = ground (
  arith,
  eq_iff a.first b.first,
  eq_iff b.first a.first,
  le_codes_total (codes a.first) (codes b.first),
  le_codes_total (codes a.last) (codes b.last),
)

le_name_antisymm : (a b : NoteName) → le_name a b ≡ true → le_name b a ≡ true → a ≡ b
unfolding le_name
le_name_antisymm a b h k = ground (
  arith,
  eq_iff a.first b.first,
  eq_iff b.first a.first,
  le_codes_antisymm (codes a.first) (codes b.first),
  codes-injective a.first b.first,
  le_codes_antisymm (codes a.last) (codes b.last),
  codes-injective a.last b.last,
)

le_name_trans : (a b c : NoteName) → le_name a b ≡ true → le_name b c ≡ true → le_name a c ≡ true
unfolding le_name
le_name_trans a b c h k = ground (
  arith,
  eq_iff a.first b.first,
  eq_iff b.first c.first,
  eq_iff a.first c.first,
  le_codes_trans (codes a.first) (codes b.first) (codes c.first),
  le_codes_trans (codes a.last) (codes b.last) (codes c.last),
  le_codes_antisymm (codes a.first) (codes b.first),
  codes-injective a.first b.first,
)

-- The same sort, on names alone.
insert_name : NoteName → List NoteName → List NoteName
insert_name n [] = n ∷ []
insert_name n (m ∷ ms) = if le_name n m then n ∷ m ∷ ms else m ∷ insert_name n ms

sort_names : List NoteName → List NoteName
sort_names [] = []
sort_names (n ∷ ns) = insert_name n (sort_names ns)

insert_name_comm :
    (a b : NoteName) (l : List NoteName)
    → insert_name a (insert_name b l) ≡ insert_name b (insert_name a l)
unfolding insert_name
insert_name_comm a b [] = ground (arith, le_name_total a b, le_name_antisymm a b)
insert_name_comm a b (c ∷ l) = ground (
  arith,
  insert_name_comm a b l,
  le_name_total a b,
  le_name_total b a,
  le_name_total a c,
  le_name_total b c,
  le_name_antisymm a b,
  le_name_trans a b c,
  le_name_trans b a c,
)

name_of : NoteRef → NoteName
name_of n = n.name

map-insert_note :
    (n : NoteRef) (l : List NoteRef)
    → map name_of (insert_note n l) ≡ insert_name (name_of n) (map name_of l)
unfolding insert_note insert_name name_of
map-insert_note n [] = refl
map-insert_note n (m ∷ l) = ground (arith, map-insert_note n l)

map-sort_notes : (l : List NoteRef) → map name_of (sort_notes l) ≡ sort_names (map name_of l)
unfolding sort_notes sort_names
map-sort_notes [] = refl
map-sort_notes (n ∷ l) =
    map-insert_note n (sort_notes l) ∙ ap (insert_name (name_of n)) (map-sort_notes l)

sort_names-perm :
    {l m : List NoteRef} → Permᴰ l m → sort_names (map name_of l) ≡ sort_names (map name_of m)
unfolding sort_names
sort_names-perm Permᴰ.nil = refl
sort_names-perm (Permᴰ.cons e p) = cc (e, sort_names-perm p)
sort_names-perm (Permᴰ.swap {a = a} {b = b} {l = l} e f) =
    cc (e, f, insert_name_comm (name_of a) (name_of b) (sort_names (map name_of l)))
sort_names-perm (Permᴰ.trans p q) = sort_names-perm p ∙ sort_names-perm q

module _ (E : Encoding) where
  note_belts-names :
      (l m : List NoteRef) → map name_of l ≡ map name_of m → note_belts E l ≡ note_belts E m
  unfolding note_belts name_of
  note_belts-names [] [] h = refl
  note_belts-names [] (n ∷ m) h = cc
  note_belts-names (n ∷ l) [] h = cc
  note_belts-names (n ∷ l) (k ∷ m) h =
      let same : n.name ≡ k.name = cc h in rw (same, note_belts-names l m (cc h))

  -- Listing the same notes in another order does not change their hash, nor the error if one of
  -- the names cannot be decoded.
  pub compute_notes_hash-perm :
      {notes others : List NoteRef}
      → Permᴰ notes others
      → compute_notes_hash E notes ≡ compute_notes_hash E others
  unfolding compute_notes_hash
  compute_notes_hash-perm {notes} {others} p = rw (
      note_belts-names (sort_notes notes) (sort_notes others)
        (map-sort_notes notes ∙ sort_names-perm p ∙ sym (map-sort_notes others)))
