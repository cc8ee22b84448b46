-- ===== src/Base/Lists.antt =====
-- C arrays as lists with native indices.
use Prim.Native.Nat.{ℕ, zero, suc, ◌+◌, ◌-◌, ◌≤◌, ◌<◌, min}
use mathlib.Core.Path.{◌≡◌, refl, ap, ◌∙◌}
use mathlib.Core.Logic.{◌≢◌}
use mathlib.Core.List.{List, [], ◌∷◌, ◌++◌, append-nil, append_assoc}
use native.Mathlib.Numerals.{add-one}
use native.Mathlib.Omega.{arith}

module _ {ℓ} {A : Type ℓ} where
  abbrev pub length : List A → ℕ
  length [] = 0
  length (x ∷ xs) = suc (length xs)

  abbrev pub get_or : List A → ℕ → A → A
  get_or [] i d = d
  get_or (x ∷ xs) zero d = x
  get_or (x ∷ xs) (suc i) d = get_or xs i d

  -- A write out of bounds changes nothing.
  abbrev pub set : List A → ℕ → A → List A
  set [] i v = []
  set (x ∷ xs) zero v = v ∷ xs
  set (x ∷ xs) (suc i) v = x ∷ set xs i v

  abbrev pub take : ℕ → List A → List A
  take zero xs = []
  take (suc n) [] = []
  take (suc n) (x ∷ xs) = x ∷ take n xs

  abbrev pub drop : ℕ → List A → List A
  drop zero xs = xs
  drop (suc n) [] = []
  drop (suc n) (x ∷ xs) = drop n xs

  abbrev pub replicate : ℕ → A → List A
  replicate zero a = []
  replicate (suc n) a = a ∷ replicate n a

  pub length-append : (xs ys : List A) → length (xs ++ ys) ≡ length xs + length ys
  length-append [] ys = omega arith
  length-append (x ∷ xs) ys = omega (arith, length-append xs ys)

module _ {ℓ} {A : Type ℓ} where
  pub length-set : (xs : List A) (i : ℕ) (v : A) → length (set xs i v) ≡ length xs
  length-set [] i v = refl
  length-set (x ∷ xs) zero v = refl
  length-set (x ∷ xs) (suc i) v = ap suc (length-set xs i v)

  pub length-take : (n : ℕ) (xs : List A) → length (take n xs) ≡ min n (length xs)
  length-take zero xs = omega arith
  length-take (suc n) [] = omega arith
  length-take (suc n) (x ∷ xs) = omega (arith, length-take n xs)

  pub length-drop : (n : ℕ) (xs : List A) → length (drop n xs) ≡ length xs - n
  length-drop zero xs = omega arith
  length-drop (suc n) [] = omega arith
  length-drop (suc n) (x ∷ xs) = omega (arith, length-drop n xs)

  pub length-replicate : (n : ℕ) (a : A) → length (replicate n a) ≡ n
  length-replicate zero a = refl
  length-replicate (suc n) a = ap suc (length-replicate n a)

  pub get_or-set_self :
      (xs : List A) (i : ℕ) (v d : A) → i < length xs → get_or (set xs i v) i d ≡ v
  get_or-set_self [] i v d h = absurd (omega arith)
  get_or-set_self (x ∷ xs) zero v d h = refl
  get_or-set_self (x ∷ xs) (suc i) v d h = get_or-set_self xs i v d (omega arith)

  pub get_or-set_ne :
      (xs : List A) (i j : ℕ) (v d : A) → i ≢ j → get_or (set xs i v) j d ≡ get_or xs j d
  get_or-set_ne [] i j v d h = refl
  get_or-set_ne (x ∷ xs) zero zero v d h = absurd (h refl)
  get_or-set_ne (x ∷ xs) zero (suc j) v d h = refl
  get_or-set_ne (x ∷ xs) (suc i) zero v d h = refl
  get_or-set_ne (x ∷ xs) (suc i) (suc j) v d h = get_or-set_ne xs i j v d (λ e. h (ap suc e))

  pub take-append : (xs ys : List A) (n : ℕ) → n ≡ length xs → take n (xs ++ ys) ≡ xs
  take-append [] ys zero h = refl
  take-append [] ys (suc n) h = absurd (omega arith)
  take-append (x ∷ xs) ys zero h = absurd (omega arith)
  take-append (x ∷ xs) ys (suc n) h = ap (◌∷◌ x) (take-append xs ys n (omega arith))

  pub drop-append : (xs ys : List A) (n : ℕ) → n ≡ length xs → drop n (xs ++ ys) ≡ ys
  drop-append [] ys zero h = refl
  drop-append [] ys (suc n) h = absurd (omega arith)
  drop-append (x ∷ xs) ys zero h = absurd (omega arith)
  drop-append (x ∷ xs) ys (suc n) h = drop-append xs ys n (omega arith)

  pub drop_append_le :
      (n : ℕ) (xs ys : List A) → n ≤ length xs → drop n (xs ++ ys) ≡ drop n xs ++ ys
  drop_append_le zero xs ys h = refl
  drop_append_le (suc n) [] ys h = absurd (omega arith)
  drop_append_le (suc n) (x ∷ xs) ys h = drop_append_le n xs ys (omega arith)

  pub get_or-take :
      (n : ℕ) (xs : List A) (i : ℕ) (d : A) → i < n → get_or (take n xs) i d ≡ get_or xs i d
  get_or-take zero xs i d h = absurd (omega arith)
  get_or-take (suc n) [] i d h = refl
  get_or-take (suc n) (x ∷ xs) zero d h = refl
  get_or-take (suc n) (x ∷ xs) (suc i) d h = get_or-take n xs i d (omega arith)

  pub get_or-drop :
      (n : ℕ) (xs : List A) (i : ℕ) (d : A) → get_or (drop n xs) i d ≡ get_or xs (n + i) d
  get_or-drop zero xs i d = ap (λ k. get_or xs k d) (omega arith)
  get_or-drop (suc n) [] i d = refl
  get_or-drop (suc n) (x ∷ xs) i d =
      let e : suc n + i ≡ suc (n + i) = omega arith in rw e (get_or-drop n xs i d)

  pub get_or-append_right :
      (xs ys : List A) (i : ℕ) (d : A) → get_or (xs ++ ys) (length xs + i) d ≡ get_or ys i d
  get_or-append_right [] ys i d = ap (λ k. get_or ys k d) (omega arith)
  get_or-append_right (x ∷ xs) ys i d =
      let e : suc (length xs) + i ≡ suc (length xs + i) = omega arith in
      rw e (get_or-append_right xs ys i d)

  pub get_or_behind :
      (xs ys : List A) (i n : ℕ) (d : A) → n ≡ length xs + i → get_or (xs ++ ys) n d ≡ get_or ys i d
  get_or_behind xs ys i n d e = rw e (get_or-append_right xs ys i d)

  pub set-take : (n : ℕ) (xs : List A) (i : ℕ) (v : A) → take n (set xs i v) ≡ set (take n xs) i v
  set-take zero xs i v = refl
  set-take (suc n) [] i v = refl
  set-take (suc n) (x ∷ xs) zero v = refl
  set-take (suc n) (x ∷ xs) (suc i) v = ap (◌∷◌ x) (set-take n xs i v)

  pub take-all : (n : ℕ) (xs : List A) → length xs ≤ n → take n xs ≡ xs
  take-all zero [] h = refl
  take-all zero (x ∷ xs) h = absurd (omega arith)
  take-all (suc n) [] h = refl
  take-all (suc n) (x ∷ xs) h = ap (◌∷◌ x) (take-all n xs (omega arith))

  -- What is cut off anyway may be cut off before.
  pub take-take_append_self :
      (n : ℕ) (xs ys : List A) → take n (take n xs ++ ys) ≡ take n (xs ++ ys)
  take-take_append_self zero xs ys = refl
  take-take_append_self (suc n) [] ys = refl
  take-take_append_self (suc n) (x ∷ xs) ys = ap (◌∷◌ x) (take-take_append_self n xs ys)

  -- Writing at index `n` extends the first `n` elements by the one written.
  pub take-set_last :
      (n : ℕ) (xs : List A) (v : A)
      → n < length xs
      → take (suc n) (set xs n v) ≡ take n xs ++ (v ∷ [])
  take-set_last n [] v h = absurd (omega arith)
  take-set_last zero (x ∷ xs) v h = refl
  take-set_last (suc n) (x ∷ xs) v h = ap (◌∷◌ x) (take-set_last n xs v (omega arith))

  -- `memcpy (xs + i, ys, length ys)`
  abbrev pub write_at : List A → ℕ → List A → List A
  write_at xs i [] = xs
  write_at xs i (y ∷ ys) = write_at (set xs i y) (i + 1) ys

  write_at-suc :
      (ys xs : List A) (x : A) (i : ℕ) → write_at (x ∷ xs) (suc i) ys ≡ x ∷ write_at xs i ys
  write_at-suc [] xs x i = refl
  write_at-suc (y ∷ ys) xs x i =
      let shifted : suc i + 1 ≡ suc (i + 1) = omega arith in
      ap (λ k. write_at (x ∷ set xs i y) k ys) shifted ∙ write_at-suc ys (set xs i y) x (i + 1)

  pub write_at_start :
      (ys xs : List A) → length ys ≤ length xs → write_at xs 0 ys ≡ ys ++ drop (length ys) xs
  write_at_start [] xs h = refl
  write_at_start (y ∷ ys) [] h = absurd (omega arith)
  write_at_start (y ∷ ys) (x ∷ xs) h =
      write_at-suc ys xs y 0 ∙ ap (◌∷◌ y) (write_at_start ys xs (omega arith))

  pub length-write_at : (ys xs : List A) (i : ℕ) → length (write_at xs i ys) ≡ length xs
  length-write_at [] xs i = refl
  length-write_at (y ∷ ys) xs i = length-write_at ys (set xs i y) (i + 1) ∙ length-set xs i y

  -- What is written just behind a prefix extends that prefix.
  pub take-write_at :
      (ys xs : List A) (i n : ℕ)
      → i + length ys ≤ length xs
      → n ≡ i + length ys
      → take n (write_at xs i ys) ≡ take i xs ++ ys
  take-write_at [] xs i n h e = rw append-nil (ap (λ k. take k xs) (omega arith))
  take-write_at (y ∷ ys) xs i n h e =
      take-write_at ys (set xs i y) (i + 1) n (omega (arith, length-set xs i y)) (omega arith)
      ∙ rw (add-one, take-set_last i xs y (omega arith)) (append_assoc (take i xs) (y ∷ []) ys)

  -- Nothing before the place that is written changes.
  pub get_or-write_at_below :
      (ys xs : List A) (i j : ℕ) (d : A) → j < i → get_or (write_at xs i ys) j d ≡ get_or xs j d
  get_or-write_at_below [] xs i j d h = refl
  get_or-write_at_below (y ∷ ys) xs i j d h =
      get_or-write_at_below ys (set xs i y) (i + 1) j d (omega arith)
      ∙ get_or-set_ne xs i j y d (λ e. omega arith)
