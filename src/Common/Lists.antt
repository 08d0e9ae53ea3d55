-- ===== src/Common/Lists.antt =====
-- Lists measured and indexed by native numbers, under the library's names; slices, and writes of a
-- slice into a list.
use Prim.Native.Nat.{ℕ, zero, suc, ◌+◌, ◌-◌, ◌≤◌, ◌<◌, min}
use mathlib.Core.Path.{◌≡◌, refl, ap, ap₂}
use mathlib.Core.Option.{Option, none, some}
use mathlib.Core.List.{List, [], ◌∷◌, ◌++◌, map}
use native.Mathlib.Omega.{arith}

module _ {ℓ} {A : Type ℓ} where
  abbrev pub length : List A → ℕ
  length [] = 0
  length (x ∷ xs) = suc (length xs)

  abbrev pub get_or : List A → ℕ → A → A
  get_or [] i d = d
  get_or (x ∷ xs) zero d = x
  get_or (x ∷ xs) (suc i) d = get_or xs i d

  abbrev pub get_elem? : List A → ℕ → Option A
  get_elem? [] i = none
  get_elem? (x ∷ xs) zero = some x
  get_elem? (x ∷ xs) (suc i) = get_elem? xs i

  abbrev pub take : ℕ → List A → List A
  take zero xs = []
  take (suc n) [] = []
  take (suc n) (x ∷ xs) = x ∷ take n xs

  abbrev pub drop : ℕ → List A → List A
  drop zero xs = xs
  drop (suc n) [] = []
  drop (suc n) (x ∷ xs) = drop n xs

  abbrev pub replicate : ℕ → A → List A
  replicate zero a = []
  replicate (suc n) a = a ∷ replicate n a

  -- `&xs[start..end]`.
  unfoldable pub slice : List A → ℕ → ℕ → List A
  slice xs start end = take (end - start) (drop start xs)

  -- `xs[offset..offset + ys.len()].copy_from_slice(ys)`; what lies past the end is not written.
  unfoldable pub copy_at : List A → ℕ → List A → List A
  copy_at [] offset ys = []
  copy_at (x ∷ xs) (suc offset) ys = x ∷ copy_at xs offset ys
  copy_at (x ∷ xs) zero [] = x ∷ xs
  copy_at (x ∷ xs) zero (y ∷ ys) = y ∷ copy_at xs zero ys

  pub length-append : (xs ys : List A) → length (xs ++ ys) ≡ length xs + length ys
  length-append [] ys = omega arith
  length-append (x ∷ xs) ys = omega (arith, length-append xs ys)

  pub length-take : (n : ℕ) (xs : List A) → length (take n xs) ≡ min n (length xs)
  length-take zero xs = omega arith
  length-take (suc n) [] = omega arith
  length-take (suc n) (x ∷ xs) = omega (arith, length-take n xs)

  pub length-drop : (n : ℕ) (xs : List A) → length (drop n xs) ≡ length xs - n
  length-drop zero xs = omega arith
  length-drop (suc n) [] = omega arith
  length-drop (suc n) (x ∷ xs) = omega (arith, length-drop n xs)

  pub length-replicate : (n : ℕ) (a : A) → length (replicate n a) ≡ n
  length-replicate zero a = refl
  length-replicate (suc n) a = ap suc (length-replicate n a)

  pub get_or-take :
      (n : ℕ) (xs : List A) (i : ℕ) (d : A) → i < n → get_or (take n xs) i d ≡ get_or xs i d
  get_or-take zero xs i d h = absurd (omega arith)
  get_or-take (suc n) [] i d h = refl
  get_or-take (suc n) (x ∷ xs) zero d h = refl
  get_or-take (suc n) (x ∷ xs) (suc i) d h = get_or-take n xs i d (omega arith)

  pub get_or-drop :
      (n : ℕ) (xs : List A) (i : ℕ) (d : A) → get_or (drop n xs) i d ≡ get_or xs (n + i) d
  get_or-drop zero xs i d = ap (λ k. get_or xs k d) (omega arith)
  get_or-drop (suc n) [] i d = refl
  get_or-drop (suc n) (x ∷ xs) i d =
      let e : suc n + i ≡ suc (n + i) = omega arith in rw e (get_or-drop n xs i d)

  pub length-copy_at :
      (xs : List A) (offset : ℕ) (ys : List A) → length (copy_at xs offset ys) ≡ length xs
  unfolding copy_at
  length-copy_at [] offset ys = refl
  length-copy_at (x ∷ xs) (suc offset) ys = ap suc (length-copy_at xs offset ys)
  length-copy_at (x ∷ xs) zero [] = refl
  length-copy_at (x ∷ xs) zero (y ∷ ys) = ap suc (length-copy_at xs zero ys)

  -- What lies in the written range comes from `ys`, and the rest is as it was.
  pub get_or-copy_at_inside :
      (xs : List A) (offset : ℕ) (ys : List A) (i : ℕ) (d : A)
      → offset + length ys ≤ length xs
      → offset ≤ i
      → i < offset + length ys
      → get_or (copy_at xs offset ys) i d ≡ get_or ys (i - offset) d
  unfolding copy_at
  get_or-copy_at_inside [] offset ys i d fits lo hi = absurd (omega arith)
  get_or-copy_at_inside (x ∷ xs) (suc offset) ys zero d fits lo hi = absurd (omega arith)
  get_or-copy_at_inside (x ∷ xs) (suc offset) ys (suc i) d fits lo hi =
      let e : suc i - suc offset ≡ i - offset = omega arith in
      rw e (get_or-copy_at_inside xs offset ys i d (omega arith) (omega arith) (omega arith))
  get_or-copy_at_inside (x ∷ xs) zero [] i d fits lo hi = absurd (omega arith)
  get_or-copy_at_inside (x ∷ xs) zero (y ∷ ys) zero d fits lo hi = refl
  get_or-copy_at_inside (x ∷ xs) zero (y ∷ ys) (suc i) d fits lo hi =
      let e : suc i - 0 ≡ suc (i - 0) = omega arith in
      rw e (get_or-copy_at_inside xs zero ys i d (omega arith) (omega arith) (omega arith))

  pub get_or-copy_at_below :
      (xs : List A) (offset : ℕ) (ys : List A) (i : ℕ) (d : A)
      → i < offset
      → get_or (copy_at xs offset ys) i d ≡ get_or xs i d
  unfolding copy_at
  get_or-copy_at_below [] offset ys i d h = refl
  get_or-copy_at_below (x ∷ xs) (suc offset) ys zero d h = refl
  get_or-copy_at_below (x ∷ xs) (suc offset) ys (suc i) d h =
      get_or-copy_at_below xs offset ys i d (omega arith)
  get_or-copy_at_below (x ∷ xs) zero [] i d h = refl
  get_or-copy_at_below (x ∷ xs) zero (y ∷ ys) i d h = absurd (omega arith)

  pub get_or-copy_at_above :
      (xs : List A) (offset : ℕ) (ys : List A) (i : ℕ) (d : A)
      → offset + length ys ≤ i
      → get_or (copy_at xs offset ys) i d ≡ get_or xs i d
  unfolding copy_at
  get_or-copy_at_above [] offset ys i d h = refl
  get_or-copy_at_above (x ∷ xs) (suc offset) ys zero d h = absurd (omega arith)
  get_or-copy_at_above (x ∷ xs) (suc offset) ys (suc i) d h =
      get_or-copy_at_above xs offset ys i d (omega arith)
  get_or-copy_at_above (x ∷ xs) zero [] i d h = refl
  get_or-copy_at_above (x ∷ xs) zero (y ∷ ys) zero d h = absurd (omega arith)
  get_or-copy_at_above (x ∷ xs) zero (y ∷ ys) (suc i) d h =
      get_or-copy_at_above xs zero ys i d (omega arith)

  pub length-slice :
      (xs : List A) (start end : ℕ) → end ≤ length xs → length (slice xs start end) ≡ end - start
  unfolding slice
  length-slice xs start end h =
      omega (arith, length-take (end - start) (drop start xs), length-drop start xs)

  pub get_or-slice :
      (xs : List A) (start end i : ℕ) (d : A)
      → i < end - start
      → get_or (slice xs start end) i d ≡ get_or xs (start + i) d
  unfolding slice
  get_or-slice xs start end i d h =
      rw (get_or-take (end - start) (drop start xs) i d h) (get_or-drop start xs i d)

  -- Two lists with the same length and the same elements are equal.
  pub get_or_ext :
      (d : A) (xs ys : List A)
      → length xs ≡ length ys
      → ((i : ℕ) → i < length xs → get_or xs i d ≡ get_or ys i d)
      → xs ≡ ys
  get_or_ext d [] [] e h = refl
  get_or_ext d [] (y ∷ ys) e h = absurd (omega arith)
  get_or_ext d (x ∷ xs) [] e h = absurd (omega arith)
  get_or_ext d (x ∷ xs) (y ∷ ys) e h =
      ap₂ ◌∷◌ (h 0 (omega arith))
        (get_or_ext d xs ys (omega arith) (λ i p. h (suc i) (omega arith)))

module _ {ℓ} {A : Type ℓ} where
  -- What was copied is read back.
  pub slice-copy_at :
      (xs : List A) (offset : ℕ) (ys : List A)
      → offset + length ys ≤ length xs
      → slice (copy_at xs offset ys) offset (offset + length ys) ≡ ys
  unfolding slice copy_at
  slice-copy_at [] offset [] h = let e : offset + 0 - offset ≡ 0 = omega arith in rw e
  slice-copy_at [] offset (y ∷ ys) h = absurd (omega arith)
  slice-copy_at (x ∷ xs) (suc offset) ys h =
      let e : suc offset + length ys - suc offset ≡ offset + length ys - offset = omega arith in
      rw e (slice-copy_at xs offset ys (omega arith))
  slice-copy_at (x ∷ xs) zero [] h = refl
  slice-copy_at (x ∷ xs) zero (y ∷ ys) h =
      let e : 0 + length (y ∷ ys) - 0 ≡ suc (0 + length ys - 0) = omega arith in
      rw e (ap (λ t. y ∷ t) (slice-copy_at xs zero ys (omega arith)))

module _ {ℓ} {A : Type ℓ} where
  pub get_or-copy_at_plus :
      (xs : List A) (offset : ℕ) (ys : List A) (k : ℕ) (d : A)
      → offset + length ys ≤ length xs
      → k < length ys
      → get_or (copy_at xs offset ys) (offset + k) d ≡ get_or ys k d
  get_or-copy_at_plus xs offset ys k d fits h =
      let e : offset + k - offset ≡ k = omega arith in
      rw (get_or-copy_at_inside xs offset ys (offset + k) d fits (omega arith) (omega arith)) (rw e)

pub length-map {ℓ κ} :
    {A : Type ℓ} {B : Type κ} (f : A → B) (xs : List A) → length (map f xs) ≡ length xs
length-map f [] = refl
length-map f (x ∷ xs) = ap suc (length-map f xs)
