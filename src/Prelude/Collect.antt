-- ===== src/Prelude/Collect.antt =====
-- What holds of `collect` into a result, from what holds at each item.
use mathlib.Core.Path.{◌≡◌, refl, subst}
use mathlib.Core.List.{List, [], ◌∷◌}
use x402_nockchain.Prelude.Lists.{All}
use x402_nockchain.Prelude.Results.{Result, ok, ok-injective, >>=-eq-ok, try_map}

pub All-tt : {A : Type 0} (xs : List A) → All (λ (_ : A). Unit {0}) xs
All-tt [] = tt
All-tt (x ∷ xs) = (tt, All-tt xs)

-- A reader that undoes a writer at each item of a list undoes it at the list.
module _ {X A B : Type 0} (write : A → Result X B) (read : B → Result X A) (P : A → Type 0)
    (undoes : (a : A) (b : B) → P a → write a ≡ ok b → read b ≡ ok a) where
  pub try_map_undoes :
      (xs : List A) (ys : List B) → All P xs → try_map write xs ≡ ok ys → try_map read ys ≡ ok xs
  unfolding try_map
  try_map_undoes [] ys p h = rw (← ok-injective h) refl
  try_map_undoes (x ∷ xs) ys (p, ps) h =
      let (y, written, h1) = >>=-eq-ok (write x) _ h in
      let (rest, written_rest, h2) = >>=-eq-ok (try_map write xs) _ h1 in
      rw (← ok-injective h2, undoes x y p written, try_map_undoes xs rest ps written_rest) refl

module _ {X A B : Type 0} (f : A → Result X B) where
  -- Every collected value came from some item.
  pub try_map-All :
      (P : B → Type 0)
      → ((x : A) (y : B) → f x ≡ ok y → P y)
      → (xs : List A) (ys : List B) → try_map f xs ≡ ok ys
      → All P ys
  unfolding try_map
  try_map-All P each [] ys h = subst (All P) (ok-injective h) tt
  try_map-All P each (x ∷ xs) ys h =
      let (y, made, h1) = >>=-eq-ok (f x) _ h in
      let (rest, made_rest, h2) = >>=-eq-ok (try_map f xs) _ h1 in
      subst (All P) (ok-injective h2) (each x y made, try_map-All P each xs rest made_rest)

  abbrev pub Returns : A → Type 0
  Returns x = (y : B) × (f x ≡ ok y)

  -- The collection goes well when each item does, and only then.
  pub try_map-Returns : (xs : List A) (ys : List B) → try_map f xs ≡ ok ys → All Returns xs
  unfolding try_map
  try_map-Returns [] ys h = tt
  try_map-Returns (x ∷ xs) ys h =
      let (y, made, h1) = >>=-eq-ok (f x) _ h in
      let (rest, made_rest, h2) = >>=-eq-ok (try_map f xs) _ h1 in
      ((y, made), try_map-Returns xs rest made_rest)

  pub try_map_total : (xs : List A) → All Returns xs → (ys : List B) × (try_map f xs ≡ ok ys)
  unfolding try_map
  try_map_total [] _ = ([], refl)
  try_map_total (x ∷ xs) ((y, made), rest) =
      let (ys, made_rest) = try_map_total xs rest in (y ∷ ys, rw (made, made_rest) refl)

pub All-map :
    {A : Type 0} (P Q : A → Type 0) → ((x : A) → P x → Q x) → (xs : List A) → All P xs → All Q xs
All-map P Q f [] h = tt
All-map P Q f (x ∷ xs) (px, h) = (f x px, All-map P Q f xs h)
