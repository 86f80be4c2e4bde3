-- ===== src/Prelude/Lists.antt =====
-- Lists measured and cut by native numbers, under the library's names, and JavaScript's array
-- methods on them.
use Prim.Native.Nat.{ℕ, zero, suc, ◌+◌, ◌-◌, ◌≤◌, min}
use mathlib.Core.Path.{◌≡◌, refl, ap, sym}
use mathlib.Core.List.{List, [], ◌∷◌, ◌++◌}
use mathlib.Core.Option.{Option, none, some}
use native.Mathlib.Omega.{arith}
use ingestion_engine.Prelude.Tests.{ltb, if◌then◌else◌}

module _ {ℓ} {A : Type ℓ} where
  abbrev pub length : List A → ℕ
  length [] = 0
  length (x ∷ xs) = suc (length xs)

  -- `a.slice(0, n)`
  abbrev pub take : ℕ → List A → List A
  take zero xs = []
  take (suc n) [] = []
  take (suc n) (x ∷ xs) = x ∷ take n xs

  -- `a.slice(n)`
  abbrev pub drop : ℕ → List A → List A
  drop zero xs = xs
  drop (suc n) [] = []
  drop (suc n) (x ∷ xs) = drop n xs

  -- `a[i]`
  abbrev pub get_elem? : List A → ℕ → Option A
  get_elem? [] i = none
  get_elem? (x ∷ xs) zero = some x
  get_elem? (x ∷ xs) (suc i) = get_elem? xs i

  -- `a[i] || d`, for an entry that is never falsy but by being missing
  abbrev pub get_or : List A → ℕ → A → A
  get_or [] i d = d
  get_or (x ∷ xs) zero d = x
  get_or (x ∷ xs) (suc i) d = get_or xs i d

  -- `a.pop()`, the array that is left
  abbrev pub drop_last : List A → List A
  drop_last [] = []
  drop_last (x ∷ []) = []
  drop_last (x ∷ y ∷ r) = x ∷ drop_last (y ∷ r)

  -- `a.shift()`, the array that is left
  abbrev pub drop_first : List A → List A
  drop_first [] = []
  drop_first (x ∷ r) = r

  abbrev pub All {κ} : (A → Type κ) → List A → Type κ
  All P [] = Unit
  All P (x ∷ xs) = P x × All P xs

module _ {ℓ} {A : Type ℓ} where
  pub length-append : (xs ys : List A) → length (xs ++ ys) ≡ length xs + length ys
  length-append [] ys = omega arith
  length-append (x ∷ xs) ys = omega (arith, length-append xs ys)

  pub take-append-drop : (n : ℕ) (xs : List A) → take n xs ++ drop n xs ≡ xs
  take-append-drop zero xs = refl
  take-append-drop (suc n) [] = refl
  take-append-drop (suc n) (x ∷ xs) = ap (◌∷◌ x) (take-append-drop n xs)

  pub length-take : (n : ℕ) (xs : List A) → length (take n xs) ≡ min n (length xs)
  length-take zero xs = omega arith
  length-take (suc n) [] = omega arith
  length-take (suc n) (x ∷ xs) = omega (arith, length-take n xs)

  pub length-drop : (n : ℕ) (xs : List A) → length (drop n xs) ≡ length xs - n
  length-drop zero xs = omega arith
  length-drop (suc n) [] = omega arith
  length-drop (suc n) (x ∷ xs) = omega (arith, length-drop n xs)

  pub length-drop_last : (xs : List A) → length (drop_last xs) ≡ length xs - 1
  length-drop_last [] = omega arith
  length-drop_last (x ∷ []) = omega arith
  length-drop_last (x ∷ y ∷ r) = omega (arith, length-drop_last (y ∷ r))

  pub length-drop_first : (xs : List A) → length (drop_first xs) ≡ length xs - 1
  length-drop_first [] = omega arith
  length-drop_first (x ∷ r) = omega arith

  pub take_all : (n : ℕ) (xs : List A) → length xs ≤ n → take n xs ≡ xs
  take_all zero [] h = refl
  take_all zero (x ∷ xs) h = absurd (omega arith)
  take_all (suc n) [] h = refl
  take_all (suc n) (x ∷ xs) h = ap (◌∷◌ x) (take_all n xs (omega arith))

  pub take-suc : {n m : ℕ} (x : A) (xs : List A) → n ≡ suc m → take n (x ∷ xs) ≡ x ∷ take m xs
  take-suc x xs e = rw e

  pub take-zero : {n : ℕ} (xs : List A) → n ≡ 0 → take n xs ≡ []
  take-zero xs e = rw e

  pub take-nil : (n : ℕ) → take {A = A} n [] ≡ []
  take-nil zero = refl
  take-nil (suc n) = refl

  pub drop_all : (n : ℕ) (xs : List A) → length xs ≤ n → drop n xs ≡ []
  drop_all zero [] h = refl
  drop_all zero (x ∷ xs) h = absurd (omega arith)
  drop_all (suc n) [] h = refl
  drop_all (suc n) (x ∷ xs) h = drop_all n xs (omega arith)

  pub drop-append : (n : ℕ) (xs ys : List A) → n ≤ length xs → drop n (xs ++ ys) ≡ drop n xs ++ ys
  drop-append zero xs ys h = refl
  drop-append (suc n) [] ys h = absurd (omega arith)
  drop-append (suc n) (x ∷ xs) ys h = drop-append n xs ys (omega arith)

  pub drop-drop : (k m n : ℕ) (xs : List A) → k ≡ m + n → drop m (drop n xs) ≡ drop k xs
  drop-drop k m zero xs e = ap (λ (i : ℕ). drop i xs) (omega arith)
  drop-drop k zero (suc n) [] e = sym (drop_all k [] (omega arith))
  drop-drop k (suc m) (suc n) [] e = sym (drop_all k [] (omega arith))
  drop-drop zero m (suc n) (x ∷ xs) e = absurd (omega arith)
  drop-drop (suc k) m (suc n) (x ∷ xs) e = drop-drop k m n xs (omega arith)

  pub drop_one : {n : ℕ} (xs : List A) → n ≡ 1 → drop_first xs ≡ drop n xs
  drop_one [] e = rw e
  drop_one (x ∷ xs) e = rw e

  pub drop_none : {n : ℕ} (xs : List A) → n ≡ 0 → xs ≡ drop n xs
  drop_none xs e = rw e

  -- Cutting a list that is longer than `n` is taking `n` of any list.
  pub take_if_longer :
      (n : ℕ) (xs : List A) → (if ltb n (length xs) then take n xs else xs) ≡ take n xs
  take_if_longer n xs = ground (arith, take_all n xs)

  -- Dropping the last of `n + 1` entries keeps the first `n`.
  pub drop_last-take : (n : ℕ) (xs : List A) → length xs ≡ suc n → drop_last xs ≡ take n xs
  drop_last-take n [] h = absurd (omega arith)
  drop_last-take zero (x ∷ []) h = refl
  drop_last-take (suc n) (x ∷ []) h = absurd (omega arith)
  drop_last-take zero (x ∷ y ∷ r) h = absurd (omega arith)
  drop_last-take (suc n) (x ∷ y ∷ r) h = ap (◌∷◌ x) (drop_last-take n (y ∷ r) (omega arith))

  pub eq_nil_of_length : (xs : List A) → length xs ≡ 0 → xs ≡ []
  eq_nil_of_length [] h = refl
  eq_nil_of_length (x ∷ xs) h = absurd (omega arith)
