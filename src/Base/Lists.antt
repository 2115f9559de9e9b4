-- ===== src/Base/Lists.antt =====
-- Lists measured and indexed by native numbers, and predicates and loops over them.
use Prim.Native.Nat.{ℕ, zero, suc, ◌+◌, ◌≤◌, ◌<◌}
use mathlib.Core.Path.{◌≡◌, refl, ap, sym, subst}
use mathlib.Core.Logic.{inl, inr}
use mathlib.Core.Bool.{false, true, Bool, ◌||◌}
use mathlib.Core.List.{List, [], ◌∷◌, ◌++◌, Memᴰ}
use mathlib.Core.List.Memᴰ.{head, tail}
use mathlib.Core.Option.{Option, none, some}
use native.Mathlib.Omega.{arith}
use nbagent.Base.Tests.{Bool-cases, Eq, ◌==◌, if◌then◌else◌}

module _ {ℓ} {A : Type ℓ} where
  abbrev pub length : List A → ℕ
  length [] = 0
  length (x ∷ xs) = suc (length xs)

  abbrev pub get_elem? : List A → ℕ → Option A
  get_elem? [] i = none
  get_elem? (x ∷ xs) zero = some x
  get_elem? (x ∷ xs) (suc i) = get_elem? xs i

  abbrev pub take : ℕ → List A → List A
  take zero xs = []
  take (suc n) [] = []
  take (suc n) (x ∷ xs) = x ∷ take n xs

  abbrev pub drop : ℕ → List A → List A
  drop zero xs = xs
  drop (suc n) [] = []
  drop (suc n) (x ∷ xs) = drop n xs

  pub length-append : (xs ys : List A) → length (xs ++ ys) ≡ length xs + length ys
  length-append [] ys = omega arith
  length-append (x ∷ xs) ys = omega (arith, length-append xs ys)

  pub take_append : (xs ys : List A) → take (length xs) (xs ++ ys) ≡ xs
  take_append [] ys = refl
  take_append (x ∷ xs) ys = ap (◌∷◌ x) (take_append xs ys)

  pub drop_append : (xs ys : List A) → drop (length xs) (xs ++ ys) ≡ ys
  drop_append [] ys = refl
  drop_append (x ∷ xs) ys = drop_append xs ys

  pub length-take-le : (n : ℕ) (xs : List A) → length (take n xs) ≤ n
  length-take-le zero xs = omega arith
  length-take-le (suc n) [] = omega arith
  length-take-le (suc n) (x ∷ xs) = omega (arith, length-take-le n xs)

  pub length-drop-le : (n : ℕ) (xs : List A) → length (drop n xs) ≤ length xs
  length-drop-le zero xs = omega arith
  length-drop-le (suc n) [] = omega arith
  length-drop-le (suc n) (x ∷ xs) = omega (arith, length-drop-le n xs)

  pub take_of_length-le : (k : ℕ) (ys : List A) → length ys ≤ k → take k ys ≡ ys
  take_of_length-le zero [] le = refl
  take_of_length-le zero (y ∷ ys) le = absurd (omega arith)
  take_of_length-le (suc k) [] le = refl
  take_of_length-le (suc k) (y ∷ ys) le = ap (◌∷◌ y) (take_of_length-le k ys (omega arith))

  pub drop_of_length-le : (n : ℕ) (xs : List A) → length xs ≤ n → drop n xs ≡ []
  drop_of_length-le zero [] h = refl
  drop_of_length-le zero (x ∷ xs) h = absurd (omega arith)
  drop_of_length-le (suc n) [] h = refl
  drop_of_length-le (suc n) (x ∷ xs) h = drop_of_length-le n xs (omega arith)

  -- A slice keeps the elements that a test passes.
  abbrev pub keep : (A → Bool) → List A → List A
  keep p [] = []
  keep p (x ∷ xs) = let rest = keep p xs in if p x then x ∷ rest else rest

  pub length-keep-le : (p : A → Bool) (xs : List A) → length (keep p xs) ≤ length xs
  length-keep-le p [] = omega arith
  length-keep-le p (x ∷ xs) = ground (arith, length-keep-le p xs)

-- Membership as a test.
module _ {ℓ} {A : Type ℓ} ⦃e : Eq A⦄ where
  abbrev pub elem : A → List A → Bool
  elem a [] = false
  elem a (x ∷ xs) = x == a || elem a xs

module _ {ℓ κ} {A : Type ℓ} where
  abbrev pub All : (A → Type κ) → List A → Type κ
  All P [] = Unit
  All P (x ∷ xs) = P x × All P xs

pub All-mem {ℓ κ} : {A : Type ℓ} (P : A → Type κ) {a : A} (xs : List A) → All P xs → Memᴰ a xs → P a
All-mem P [] ps i = elim i [ ]
All-mem P (x ∷ xs) (p, ps) (head e) = subst P (sym e) p
All-mem P (x ∷ xs) (p, ps) (tail i) = All-mem P xs ps i

-- A loop over a list that changes a state.
abbrev pub for_each {ℓ κ} : {A : Type ℓ} {S : Type κ} → (A → S → S) → List A → S → S
for_each f [] s = s
for_each f (x ∷ xs) s = for_each f xs (f x s)

-- The invariant rule of that loop.
pub for_each_inv {ℓ κ ν} :
    {A : Type ℓ} {S : Type κ} (P : S → Type ν) (f : A → S → S)
    → ((a : A) (s : S) → P s → P (f a s))
    → (xs : List A) (s : S) → P s
    → P (for_each f xs s)
for_each_inv P f keeps [] s h = h
for_each_inv P f keeps (x ∷ xs) s h = for_each_inv P f keeps xs (f x s) (keeps x s h)

module _ {ℓ} {A : Type ℓ} ⦃e : Eq A⦄ where
  pub elem-append : (a : A) (xs ys : List A) → elem a (xs ++ ys) ≡ (elem a xs || elem a ys)
  elem-append a [] ys = refl
  elem-append a (x ∷ xs) ys = ground (arith, elem-append a xs ys)

  pub elem-keep :
      (a : A) (p : A → Bool) (xs : List A) → elem a (keep p xs) ≡ (if p a then elem a xs else false)
  elem-keep a p [] = ground arith
  elem-keep a p (x ∷ xs) = elim (Bool-cases (x == a)) [
    | inl same ↦ ground (arith, elem-keep a p xs, (e.beq_iff x a).0 same)
    | inr other ↦ ground (arith, elem-keep a p xs)
  ]

  pub get_elem?-elem :
      (xs : List A) (i : ℕ)
      → i < length xs
      → (x : A) × (get_elem? xs i ≡ some x) × (elem x xs ≡ true)
  get_elem?-elem [] i h = absurd (omega arith)
  get_elem?-elem (x ∷ xs) zero h = (x, refl, ground (arith, (e.beq_iff x x).1 refl))
  get_elem?-elem (x ∷ xs) (suc i) h =
      let (y, found, inside) = get_elem?-elem xs i (omega arith) in (y, found, ground arith)
