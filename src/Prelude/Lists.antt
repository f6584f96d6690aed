-- ===== src/Prelude/Lists.antt =====
-- Lists measured and indexed by native numbers, under the library's names.
use Prim.Native.Nat.{ℕ, zero, suc, ◌+◌, ◌-◌, ◌≤◌, ◌<◌, min}
use mathlib.Core.Path.{◌≡◌, refl, ap}
use mathlib.Core.Logic.{◌≢◌}
use mathlib.Core.List.{nil≢cons, head-eq_of_cons-eq, tail-eq_of_cons-eq, List, [], ◌∷◌, ◌++◌, map}
use mathlib.Core.Option.{Option, none, some}
use native.Mathlib.Omega.{arith}

module _ {ℓ} {A : Type ℓ} where
  abbrev pub length : List A → ℕ
  length [] = 0
  length (x ∷ xs) = suc (length xs)

  abbrev pub get_elem? : List A → ℕ → Option A
  get_elem? [] i = none
  get_elem? (x ∷ xs) zero = some x
  get_elem? (x ∷ xs) (suc i) = get_elem? xs i

  -- A write out of bounds changes nothing.
  abbrev pub set : List A → ℕ → A → List A
  set [] i v = []
  set (x ∷ xs) zero v = v ∷ xs
  set (x ∷ xs) (suc i) v = x ∷ set xs i v

  pub length-append : (xs ys : List A) → length (xs ++ ys) ≡ length xs + length ys
  length-append [] ys = omega arith
  length-append (x ∷ xs) ys = omega (arith, length-append xs ys)

module _ {ℓ} {A : Type ℓ} where
  pub length-set : (xs : List A) (i : ℕ) (v : A) → length (set xs i v) ≡ length xs
  length-set [] i v = refl
  length-set (x ∷ xs) zero v = refl
  length-set (x ∷ xs) (suc i) v = ap suc (length-set xs i v)

  pub get_elem?-set_self :
      (xs : List A) (i : ℕ) (v : A) → i < length xs → get_elem? (set xs i v) i ≡ some v
  get_elem?-set_self [] i v h = elim h [ ]
  get_elem?-set_self (x ∷ xs) zero v h = refl
  get_elem?-set_self (x ∷ xs) (suc i) v h = get_elem?-set_self xs i v (omega arith)

  pub get_elem?-set_ne :
      (xs : List A) {i j : ℕ} (v : A) → i ≢ j → get_elem? (set xs i v) j ≡ get_elem? xs j
  get_elem?-set_ne [] v h = refl
  get_elem?-set_ne (x ∷ xs) {i = zero} {j = zero} v h = absurd (h refl)
  get_elem?-set_ne (x ∷ xs) {i = zero} {j = suc j} v h = refl
  get_elem?-set_ne (x ∷ xs) {i = suc i} {j = zero} v h = refl
  get_elem?-set_ne (x ∷ xs) {i = suc i} {j = suc j} v h = get_elem?-set_ne xs v (λ e. h (ap suc e))

module _ {ℓ} {A : Type ℓ} where
  abbrev pub get_or : List A → ℕ → A → A
  get_or [] i d = d
  get_or (x ∷ xs) zero d = x
  get_or (x ∷ xs) (suc i) d = get_or xs i d

  abbrev pub take : ℕ → List A → List A
  take zero xs = []
  take (suc n) [] = []
  take (suc n) (x ∷ xs) = x ∷ take n xs

  abbrev pub drop : ℕ → List A → List A
  drop zero xs = xs
  drop (suc n) [] = []
  drop (suc n) (x ∷ xs) = drop n xs

  abbrev pub replicate : ℕ → A → List A
  replicate zero a = []
  replicate (suc n) a = a ∷ replicate n a

  pub take-nil : (n : ℕ) → take n [] ≡ []
  take-nil zero = refl
  take-nil (suc n) = refl

  pub take-append-drop : (n : ℕ) (xs : List A) → take n xs ++ drop n xs ≡ xs
  take-append-drop zero xs = refl
  take-append-drop (suc n) [] = refl
  take-append-drop (suc n) (x ∷ xs) = rw (take-append-drop n xs)

  pub length-take : (n : ℕ) (xs : List A) → length (take n xs) ≡ min n (length xs)
  length-take zero xs = omega arith
  length-take (suc n) [] = omega arith
  length-take (suc n) (x ∷ xs) = omega (arith, length-take n xs)

  pub length-drop : (n : ℕ) (xs : List A) → length (drop n xs) ≡ length xs - n
  length-drop zero xs = omega arith
  length-drop (suc n) [] = omega arith
  length-drop (suc n) (x ∷ xs) = omega (arith, length-drop n xs)

  pub length-replicate : (n : ℕ) (a : A) → length (replicate n a) ≡ n
  length-replicate zero a = refl
  length-replicate (suc n) a = ap suc (length-replicate n a)

  pub length-map {κ} : {B : Type κ} (xs : List A) (f : A → B) → length (map f xs) ≡ length xs
  length-map [] f = refl
  length-map (x ∷ xs) f = ap suc (length-map xs f)

module _ {ℓ} {A : Type ℓ} where
  pub take_all : (n : ℕ) (xs : List A) → length xs ≤ n → take n xs ≡ xs
  take_all zero [] h = refl
  take_all zero (x ∷ xs) h = absurd (omega arith)
  take_all (suc n) [] h = refl
  take_all (suc n) (x ∷ xs) h = ap (λ l. x ∷ l) (take_all n xs (omega arith))

  -- A prefix within the first list does not see the second.
  pub take-append : (n : ℕ) (xs ys : List A) → n ≤ length xs → take n (xs ++ ys) ≡ take n xs
  take-append zero xs ys h = refl
  take-append (suc n) [] ys h = absurd (omega arith)
  take-append (suc n) (x ∷ xs) ys h = ap (λ l. x ∷ l) (take-append n xs ys (omega arith))

  -- One more element of a prefix is the next element.
  pub take-suc :
      (n : ℕ) (xs : List A) (x : A)
      → get_elem? xs n ≡ some x
      → take (suc n) xs ≡ take n xs ++ (x ∷ [])
  take-suc zero [] x h = cc
  take-suc zero (y ∷ ys) x h = cc
  take-suc (suc n) [] x h = cc
  take-suc (suc n) (y ∷ ys) x h = ap (λ l. y ∷ l) (take-suc n ys x h)

  pub get_elem?-append :
      (xs ys : List A) (n : ℕ) → n < length xs → get_elem? (xs ++ ys) n ≡ get_elem? xs n
  get_elem?-append [] ys n h = absurd (omega arith)
  get_elem?-append (x ∷ xs) ys zero h = refl
  get_elem?-append (x ∷ xs) ys (suc n) h = get_elem?-append xs ys n (omega arith)

  pub get_elem?-append_last :
      (xs : List A) (y : A) (n : ℕ) → n ≡ length xs → get_elem? (xs ++ (y ∷ [])) n ≡ some y
  get_elem?-append_last [] y zero h = refl
  get_elem?-append_last [] y (suc n) h = absurd (omega arith)
  get_elem?-append_last (x ∷ xs) y zero h = absurd (omega arith)
  get_elem?-append_last (x ∷ xs) y (suc n) h = get_elem?-append_last xs y n (omega arith)

  pub get_elem?-eq-none : (xs : List A) (n : ℕ) → length xs ≤ n → get_elem? xs n ≡ none
  get_elem?-eq-none [] n h = refl
  get_elem?-eq-none (x ∷ xs) zero h = absurd (omega arith)
  get_elem?-eq-none (x ∷ xs) (suc n) h = get_elem?-eq-none xs n (omega arith)

  pub take-append_length : (n : ℕ) (xs ys : List A) → n ≡ length xs → take n (xs ++ ys) ≡ xs
  take-append_length zero [] ys e = refl
  take-append_length zero (x ∷ xs) ys e = absurd (omega arith)
  take-append_length (suc n) [] ys e = absurd (omega arith)
  take-append_length (suc n) (x ∷ xs) ys e =
      ap (λ l. x ∷ l) (take-append_length n xs ys (omega arith))

  pub drop-append : (n m : ℕ) (xs ys : List A) → n ≡ length xs + m → drop n (xs ++ ys) ≡ drop m ys
  drop-append n m [] ys e = ap (λ k. drop k ys) (omega arith)
  drop-append zero m (x ∷ xs) ys e = absurd (omega arith)
  drop-append (suc n) m (x ∷ xs) ys e = drop-append n m xs ys (omega arith)

  pub take-add : (k m n : ℕ) (xs : List A) → k ≡ m + n → take k xs ≡ take m xs ++ take n (drop m xs)
  take-add k zero n xs e = ap (λ j. take j xs) (omega arith)
  take-add zero (suc m) n xs e = absurd (omega arith)
  take-add (suc k) (suc m) zero [] e = refl
  take-add (suc k) (suc m) (suc n) [] e = refl
  take-add (suc k) (suc m) n (x ∷ xs) e = ap (λ l. x ∷ l) (take-add k m n xs (omega arith))

  pub drop-drop : (k m n : ℕ) (xs : List A) → k ≡ m + n → drop n (drop m xs) ≡ drop k xs
  drop-drop k zero n xs e = ap (λ j. drop j xs) (omega arith)
  drop-drop zero (suc m) n xs e = absurd (omega arith)
  drop-drop (suc k) (suc m) zero [] e = refl
  drop-drop (suc k) (suc m) (suc n) [] e = refl
  drop-drop (suc k) (suc m) n (x ∷ xs) e = drop-drop k m n xs (omega arith)

  pub drop_all : (n : ℕ) (xs : List A) → length xs ≤ n → drop n xs ≡ []
  drop_all zero [] h = refl
  drop_all zero (x ∷ xs) h = absurd (omega arith)
  drop_all (suc n) [] h = refl
  drop_all (suc n) (x ∷ xs) h = drop_all n xs (omega arith)

  -- What starts the rest of a list is its element at that place.
  pub get_elem?-drop :
      (n : ℕ) (xs : List A) (x : A) (rest : List A)
      → drop n xs ≡ x ∷ rest
      → (get_elem? xs n ≡ some x) × (drop (suc n) xs ≡ rest)
  get_elem?-drop zero [] x rest e = absurd (nil≢cons e)
  get_elem?-drop zero (y ∷ ys) x rest e = (ap some (head-eq_of_cons-eq e), tail-eq_of_cons-eq e)
  get_elem?-drop (suc n) [] x rest e = absurd (nil≢cons e)
  get_elem?-drop (suc n) (y ∷ ys) x rest e = get_elem?-drop n ys x rest e

  -- A drop within the first list leaves the second whole.
  pub drop-append_part :
      (n : ℕ) (xs ys : List A) → n ≤ length xs → drop n (xs ++ ys) ≡ drop n xs ++ ys
  drop-append_part zero xs ys h = refl
  drop-append_part (suc n) [] ys h = absurd (omega arith)
  drop-append_part (suc n) (x ∷ xs) ys h = drop-append_part n xs ys (omega arith)

  pub get_elem?-in_range :
      (xs : List A) (i : ℕ) → i < length xs → (a : A) × (get_elem? xs i ≡ some a)
  get_elem?-in_range [] i h = absurd (omega arith)
  get_elem?-in_range (x ∷ xs) zero h = (x, refl)
  get_elem?-in_range (x ∷ xs) (suc i) h = get_elem?-in_range xs i (omega arith)
