-- ===== src/Latency/Sorting.antt =====
-- The sorted copy of the samples: ascending, with the same samples.
use ingestion_engine.Prelude.{
  ℕ, suc, zero, ◌+◌, ◌≤◌, ◌<◌, ◌≡◌, refl, arith, leb, List, [], ◌∷◌, length, get_or, All,
  if◌then◌else◌,
}
use ingestion_engine.Latency.{insert_sorted, sort}

abbrev pub IsSorted : List ℕ → Type 0
IsSorted [] = Unit {0}
IsSorted (x ∷ xs) = All (λ y. x ≤ y) xs × IsSorted xs

-- The samples that are at most `v`, and at least `v`.
abbrev pub count_le : ℕ → List ℕ → ℕ
count_le v [] = 0
count_le v (x ∷ xs) = (if leb x v then 1 else 0) + count_le v xs

abbrev pub count_ge : ℕ → List ℕ → ℕ
count_ge v [] = 0
count_ge v (x ∷ xs) = (if leb v x then 1 else 0) + count_ge v xs

All-insert_sorted :
    (a x : ℕ) (xs : List ℕ) → a ≤ x → All (λ y. a ≤ y) xs → All (λ y. a ≤ y) (insert_sorted x xs)
unfolding insert_sorted
All-insert_sorted a x [] h k = (h, tt)
All-insert_sorted a x (y ∷ ys) h k = ground (arith, All-insert_sorted a x ys h k.1)

All-mono : (a b : ℕ) (xs : List ℕ) → a ≤ b → All (λ y. b ≤ y) xs → All (λ y. a ≤ y) xs
All-mono a b [] h k = tt
All-mono a b (y ∷ ys) h k = (omega arith, All-mono a b ys h k.1)

insert_sorted-IsSorted : (x : ℕ) (xs : List ℕ) → IsSorted xs → IsSorted (insert_sorted x xs)
unfolding insert_sorted
insert_sorted-IsSorted x [] s = (tt, tt)
insert_sorted-IsSorted x (y ∷ ys) s =
    ground (arith, insert_sorted-IsSorted x ys s.1, All-insert_sorted y x ys, All-mono x y ys)

pub sort-IsSorted : (xs : List ℕ) → IsSorted (sort xs)
unfolding sort
sort-IsSorted [] = tt
sort-IsSorted (x ∷ xs) = insert_sorted-IsSorted x (sort xs) (sort-IsSorted xs)

count_le-insert_sorted :
    (v x : ℕ) (xs : List ℕ) → count_le v (insert_sorted x xs) ≡ count_le v (x ∷ xs)
unfolding insert_sorted
count_le-insert_sorted v x [] = refl
count_le-insert_sorted v x (y ∷ ys) = ground (arith, count_le-insert_sorted v x ys)

count_ge-insert_sorted :
    (v x : ℕ) (xs : List ℕ) → count_ge v (insert_sorted x xs) ≡ count_ge v (x ∷ xs)
unfolding insert_sorted
count_ge-insert_sorted v x [] = refl
count_ge-insert_sorted v x (y ∷ ys) = ground (arith, count_ge-insert_sorted v x ys)

length-insert_sorted : (x : ℕ) (xs : List ℕ) → length (insert_sorted x xs) ≡ suc (length xs)
unfolding insert_sorted
length-insert_sorted x [] = refl
length-insert_sorted x (y ∷ ys) = ground (arith, length-insert_sorted x ys)

pub count_le-sort : (v : ℕ) (xs : List ℕ) → count_le v (sort xs) ≡ count_le v xs
unfolding sort
count_le-sort v [] = refl
count_le-sort v (x ∷ xs) = omega (arith, count_le-insert_sorted v x (sort xs), count_le-sort v xs)

pub count_ge-sort : (v : ℕ) (xs : List ℕ) → count_ge v (sort xs) ≡ count_ge v xs
unfolding sort
count_ge-sort v [] = refl
count_ge-sort v (x ∷ xs) = omega (arith, count_ge-insert_sorted v x (sort xs), count_ge-sort v xs)

pub length-sort : (xs : List ℕ) → length (sort xs) ≡ length xs
unfolding sort
length-sort [] = refl
length-sort (x ∷ xs) = omega (arith, length-insert_sorted x (sort xs), length-sort xs)

All-get_or : (a i : ℕ) (xs : List ℕ) → All (λ y. a ≤ y) xs → i < length xs → a ≤ get_or xs i 0
All-get_or a i [] k h = absurd (omega arith)
All-get_or a zero (x ∷ xs) k h = k.0
All-get_or a (suc i) (x ∷ xs) k h = All-get_or a i xs k.1 (omega arith)

-- In an ascending list a later entry is no smaller.
pub get_or_mono :
    (i j : ℕ) (xs : List ℕ) → IsSorted xs → i ≤ j → j < length xs → get_or xs i 0 ≤ get_or xs j 0
get_or_mono i j [] s h k = absurd (omega arith)
get_or_mono zero zero (x ∷ xs) s h k = omega arith
get_or_mono zero (suc j) (x ∷ xs) s h k = All-get_or x j xs s.0 (omega arith)
get_or_mono (suc i) zero (x ∷ xs) s h k = absurd (omega arith)
get_or_mono (suc i) (suc j) (x ∷ xs) s h k = get_or_mono i j xs s.1 (omega arith) (omega arith)

-- The entry at `i` has `i + 1` entries at most as large.
pub count_le-get_or :
    (i : ℕ) (xs : List ℕ) → IsSorted xs → i < length xs → i < count_le (get_or xs i 0) xs
count_le-get_or i [] s h = absurd (omega arith)
count_le-get_or zero (x ∷ xs) s h = ground arith
count_le-get_or (suc i) (x ∷ xs) s h =
    ground (arith, count_le-get_or i xs s.1, All-get_or x i xs s.0)

count_ge-All : (a : ℕ) (xs : List ℕ) → All (λ y. a ≤ y) xs → count_ge a xs ≡ length xs
count_ge-All a [] k = refl
count_ge-All a (x ∷ xs) k = ground (arith, count_ge-All a xs k.1)

-- The entry at `i` has `length - i` entries at least as large.
pub count_ge-get_or :
    (i : ℕ) (xs : List ℕ)
    → IsSorted xs
    → i < length xs
    → length xs ≤ i + count_ge (get_or xs i 0) xs
count_ge-get_or i [] s h = absurd (omega arith)
count_ge-get_or zero (x ∷ xs) s h = ground (arith, count_ge-All x xs s.0)
count_ge-get_or (suc i) (x ∷ xs) s h = ground (arith, count_ge-get_or i xs s.1)
