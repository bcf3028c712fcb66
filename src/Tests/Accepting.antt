-- ===== src/Tests/Accepting.antt =====
-- The validator of the tests compiles every schema and accepts what conforms to it.
use x402_nockchain.Prelude.{
  arith, String, ◌≡◌, refl, sym, ◌∙◌, ap, true, false, List, [], ◌∷◌, map, All, Among, inl, inr,
  Dict, lookup, names, is_absent, is_distinct, Bool-cases, Option-cases, All-map, eq_iff, eq_refl,
  some-injective, some, ◌==◌, string_eq,
}
use x402_nockchain.Advertiser.Schema.{
  Has, IsSchema, known_keywords, AreKeywords, no_more, one_more, IsKeyword, dialect_keyword,
  string_keyword, object_keyword, constant_keyword, enumeration_keyword, required_keyword,
  properties_keyword, closed_keyword, AreSchemas, no_schema, one_schema, Conforms,
  conforms as by_keywords, Keywords, no_keyword, keyword as by_keyword, Keyword, dialect,
  string_type, object_type, constant, enumeration, required, properties, no_other_property, Fields,
  no_field, free, field,
}
use x402_nockchain.Advertiser.Accepted.{AcceptsConforming}
use x402_nockchain.Tests.Samples.{Node, text, find, nodes_of, entries_of, json}
use x402_nockchain.Tests.Validator.{
  one_of, is_some, has_all, only_in, names_of, texts_of, is_schema, are_keywords, is_keyword,
  are_schemas, conforms, all_keywords, keyword, each_property, validating_web,
}

names_of-entries_of : (d : Dict Node) → names_of (entries_of d) ≡ names d
names_of-entries_of [] = refl
names_of-entries_of ((k, v) ∷ d) = ap (λ ks. k ∷ ks) (names_of-entries_of d)

find-entries_of : (name : String) (d : Dict Node) → find name (entries_of d) ≡ lookup name d
unfolding lookup
find-entries_of name [] = refl
find-entries_of name ((k, v) ∷ d) = rw (find-entries_of name d) refl

texts_of-nodes_of : (ss : List String) → texts_of (nodes_of (map text ss)) ≡ some ss
texts_of-nodes_of [] = refl
texts_of-nodes_of (s ∷ ss) = rw (texts_of-nodes_of ss) refl

-- The validator compiles every schema.
mutual
  unfolding is_schema

  is_schema-IsSchema : (v : Node) → IsSchema json v → is_schema v ≡ true
  is_schema-IsSchema v (known_keywords keywords distinct valid) =
      rw (names_of-entries_of keywords, distinct) (are_keywords-AreKeywords keywords valid)

  are_keywords-AreKeywords :
      (d : Dict Node) → AreKeywords json d → are_keywords (entries_of d) ≡ true
  are_keywords-AreKeywords d no_more = refl
  are_keywords-AreKeywords d (one_more name argument rest k valid) =
      rw (is_keyword-IsKeyword name argument k) (are_keywords-AreKeywords rest valid)

  is_keyword-IsKeyword :
      (name : String) (argument : Node)
      → IsKeyword json name argument
      → is_keyword name argument ≡ true
  is_keyword-IsKeyword name argument dialect_keyword = refl
  is_keyword-IsKeyword name argument string_keyword = refl
  is_keyword-IsKeyword name argument object_keyword = refl
  is_keyword-IsKeyword name argument (constant_keyword s) = refl
  is_keyword-IsKeyword name argument (enumeration_keyword choices distinct) =
      rw (texts_of-nodes_of choices) distinct
  is_keyword-IsKeyword name argument (required_keyword fields distinct) =
      rw (texts_of-nodes_of fields) distinct
  is_keyword-IsKeyword name argument (properties_keyword schemas distinct valid) =
      rw (names_of-entries_of schemas, distinct) (are_schemas-AreSchemas schemas valid)
  is_keyword-IsKeyword name argument closed_keyword = refl

  are_schemas-AreSchemas : (d : Dict Node) → AreSchemas json d → are_schemas (entries_of d) ≡ true
  are_schemas-AreSchemas d no_schema = refl
  are_schemas-AreSchemas d (one_schema name v rest valid more) =
      rw (is_schema-IsSchema v valid) (are_schemas-AreSchemas rest more)

one_of-Among :
    (s : String) (choices : List String)
    → Among s choices
    → one_of (nodes_of (map text choices)) (text s) ≡ true
one_of-Among s [] m = absurd m
one_of-Among s (c ∷ choices) (inl same) = let b = (eq_iff c s).1 same in rw b refl
one_of-Among s (c ∷ choices) (inr m) = elim (Bool-cases (c == s)) [
  | inl b ↦ rw b refl
  | inr b ↦ rw b (one_of-Among s choices m)
]

is_some-Has :
    (name : String) (d : Dict Node) → Has json d name → is_some (find name (entries_of d)) ≡ true
is_some-Has name d (v, e) = rw (find-entries_of name d, e) refl

has_all-Has :
    (needed : List String) (d : Dict Node)
    → All (Has json d) needed
    → has_all (nodes_of (map text needed)) (entries_of d) ≡ true
has_all-Has [] d h = refl
has_all-Has (name ∷ needed) d (has, h) = rw (is_some-Has name d has) (has_all-Has needed d h)

only_in-Has :
    (schemas fields : Dict Node)
    → All (λ (kv : String × Node). Has json schemas kv.0) fields
    → only_in (entries_of schemas) (entries_of fields) ≡ true
only_in-Has schemas [] h = refl
only_in-Has schemas ((name, v) ∷ fields) (has, h) =
    rw (is_some-Has name schemas has) (only_in-Has schemas fields h)

-- What a search in an object with distinct names finds.
is_absent-lookup :
    (k : String) (d : Dict Node) (name : String) (v : Node)
    → is_absent k (names d) ≡ true
    → lookup name d ≡ some v
    → (k == name) ≡ false
unfolding lookup
is_absent-lookup k [] name v absent found = cc
is_absent-lookup k ((j, w) ∷ d) name v absent found = elim (Bool-cases (j == name)) [
  | inl b ↦ ground (arith, eq_iff j name, eq_iff j k, eq_iff k name)
  | inr b ↦
      let found' = rw b at found in
      elim (Bool-cases (j == k)) [
        | inl c ↦ let absent' = rw c at absent in cc
        | inr c ↦ let absent' = rw c at absent in is_absent-lookup k d name v absent' found'
      ]
]

-- Each entry is what a search for its name finds.
abbrev IsFound : Dict Node → String × Node → Type 0
IsFound d kv = lookup kv.0 d ≡ some kv.1

IsFound-self : (d : Dict Node) → is_distinct (names d) ≡ true → All (IsFound d) d
unfolding lookup
IsFound-self [] distinct = tt
IsFound-self ((k, v) ∷ d) distinct = elim (Bool-cases (is_absent k (names d))) [
  | inr a ↦ let distinct' = rw a at distinct in cc
  | inl a ↦
      let distinct' = rw a at distinct in
      (
        rw (eq_refl k) refl,
        All-map (IsFound d) (IsFound ((k, v) ∷ d))
            (λ (kv : String × Node) found.
              let other = is_absent-lookup k d kv.0 kv.1 a found in rw (other) found)
            d (IsFound-self d distinct'),
      )
]

-- What each field of an object has to conform to, as the validator sees it.
abbrev Agree : Dict Node → Dict Node → Type 0
Agree schemas fields =
    (name : String) (v s : Node)
    → lookup name fields ≡ some v
    → lookup name schemas ≡ some s
    → conforms s v ≡ true

each_property-Agree :
    (schemas fields rest : Dict Node)
    → Agree schemas fields
    → All (IsFound schemas) rest
    → each_property (entries_of rest) (entries_of fields) ≡ true
unfolding conforms
each_property-Agree schemas fields [] agree found = refl
each_property-Agree schemas fields ((name, s) ∷ rest) agree (here, found) =
    let more = each_property-Agree schemas fields rest agree found in
    elim (Option-cases (lookup name fields)) [
      | inl e ↦ rw (find-entries_of name fields, e) more
      | inr (v, e) ↦
          let good = agree name v s e here in rw (find-entries_of name fields, e, good) more
    ]

-- The validator accepts what conforms.
mutual
  unfolding conforms lookup

  conforms-Conforms : (s v : Node) → Conforms json s v → conforms s v ≡ true
  conforms-Conforms s v (by_keywords keywords w distinct obeyed) =
      all_keywords-Keywords keywords keywords w obeyed

  all_keywords-Keywords :
      (all rest : Dict Node) (v : Node)
      → Keywords json all rest v
      → all_keywords (entries_of all) (entries_of rest) v ≡ true
  all_keywords-Keywords all rest v (no_keyword a w) = refl
  all_keywords-Keywords all rest v (by_keyword a more name argument w k obeyed) =
      rw (keyword-Keyword all name argument v k) (all_keywords-Keywords all more v obeyed)

  keyword-Keyword :
      (all : Dict Node) (name : String) (argument v : Node)
      → Keyword json all name argument v
      → keyword (entries_of all) name argument v ≡ true
  keyword-Keyword all name argument v (dialect a w) = refl
  keyword-Keyword all name argument v (string_type a s) = refl
  keyword-Keyword all name argument v (object_type a fields) = refl
  keyword-Keyword all name argument v (constant a s) = eq_refl s
  keyword-Keyword all name argument v (enumeration a choices s m) = one_of-Among s choices m
  keyword-Keyword all name argument v (required a fields needed h) = has_all-Has needed fields h
  keyword-Keyword all name argument v (properties a schemas fields distinct h) =
      each_property-Agree schemas fields schemas (Agree-Fields schemas fields h)
        (IsFound-self schemas distinct)
  keyword-Keyword all name argument v (no_other_property a schemas fields e h) =
      rw (find-entries_of "properties" a, e) (only_in-Has schemas fields h)

  Agree-Fields : (schemas fields : Dict Node) → Fields json schemas fields → Agree schemas fields
  Agree-Fields schemas fields (no_field a) name v s found known = cc
  Agree-Fields schemas fields (free a rest k w e h) name v s found known =
      elim (Bool-cases (k == name)) [
        | inl b ↦ let same = (eq_iff k name).0 b in let e' = rw same at e in cc
        | inr b ↦ let found' = rw b at found in Agree-Fields schemas rest h name v s found' known
      ]
  Agree-Fields schemas fields (field a rest k w t e c h) name v s found known =
      elim (Bool-cases (k == name)) [
        | inl b ↦
            let same = (eq_iff k name).0 b in
            let found' = rw b at found in
            let value = some-injective found' in
            let rule : t ≡ s = some-injective (sym e ∙ (rw same known)) in
            rw (← value, ← rule) (conforms-Conforms t w c)
        | inr b ↦ let found' = rw b at found in Agree-Fields schemas rest h name v s found' known
      ]

pub validating_web-AcceptsConforming : AcceptsConforming json validating_web
validating_web-AcceptsConforming s v valid obeyed =
    (s, rw (is_schema-IsSchema s valid) refl, rw (conforms-Conforms s v obeyed) refl)
