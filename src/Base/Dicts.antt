-- ===== src/Base/Dicts.antt =====
-- Go's maps as association lists. The order of the entries is the order in which `range` visits
-- them; no law below depends on it.
use Prim.Native.Nat.{ℕ}
use mathlib.Core.Path.{◌≡◌, refl}
use mathlib.Core.Bool.{Bool}
use mathlib.Core.Option.{Option, none, some}
use mathlib.Core.List.{List, [], ◌∷◌, map}
use native.Mathlib.Omega.{arith}
use nbagent.Base.Tests.{nat_beq, Eq, ◌==◌, if◌then◌else◌, is_some}

abbrev pub Dict {ℓ κ} : Type ℓ → Type κ → Type (ℓ ⊔ κ)
Dict K V = List (K × V)

module _ {ℓ κ} {K : Type ℓ} {V : Type κ} where
  abbrev pub keys : Dict K V → List K
  keys = map (λ e. e.0)

  abbrev pub values : Dict K V → List V
  values = map (λ e. e.1)

module _ {ℓ κ} {K : Type ℓ} ⦃e : Eq K⦄ {V : Type κ} where
  unfoldable pub find : K → Dict K V → Option V
  find k [] = none
  find k ((j, v) ∷ m) = if j == k then some v else find k m

  -- m[k] = v
  unfoldable pub put : K → V → Dict K V → Dict K V
  put k v [] = (k, v) ∷ []
  put k v ((j, w) ∷ m) = if j == k then (k, v) ∷ m else (j, w) ∷ put k v m

  -- delete(m, k)
  unfoldable pub remove : K → Dict K V → Dict K V
  remove k [] = []
  remove k ((j, w) ∷ m) = let rest = remove k m in if j == k then rest else (j, w) ∷ rest

  abbrev pub has : K → Dict K V → Bool
  has k m = is_some (find k m)

  pub find-put :
      (j k : K) (v : V) (m : Dict K V) → find j (put k v m) ≡ (if k == j then some v else find j m)
  unfolding find put
  find-put j k v [] = refl
  find-put j k v ((i, w) ∷ m) =
      ground (arith, e.beq_iff k j, e.beq_iff i k, e.beq_iff i j, find-put j k v m)

  pub find-remove :
      (j k : K) (m : Dict K V) → find j (remove k m) ≡ (if k == j then none else find j m)
  unfolding find remove
  find-remove j k [] = ground arith
  find-remove j k ((i, w) ∷ m) =
      ground (arith, e.beq_iff k j, e.beq_iff i k, e.beq_iff i j, find-remove j k m)

  pub find-put_same : (k : K) (v : V) (m : Dict K V) → find k (put k v m) ≡ some v
  find-put_same k v m = ground (arith, find-put k k v m, e.beq_iff k k)

  pub find-remove_same : (k : K) (m : Dict K V) → find k (remove k m) ≡ none
  find-remove_same k m = ground (arith, find-remove k k m, e.beq_iff k k)

  pub find_head : (k : K) (v : V) (m : Dict K V) → find k ((k, v) ∷ m) ≡ some v
  unfolding find
  find_head k v m = ground (arith, e.beq_iff k k)

  pub find_tail :
      (j k : K) (v : V) (m : Dict K V) → find j ((k, v) ∷ m) ≡ (if k == j then some v else find j m)
  unfolding find
  find_tail j k v m = refl

  pub find-nil : (k : K) → find k [] ≡ none
  unfolding find
  find-nil k = refl

  pub find_later :
      (j k : K) (v w : V) (m : Dict K V)
      → find k m ≡ none
      → find j m ≡ some w
      → find j ((k, v) ∷ m) ≡ some w
  unfolding find
  find_later j k v w m h f = ground (arith, e.beq_iff k j)

  -- No key stands twice, as in any map.
  abbrev pub Unique : Dict K V → Type κ
  Unique [] = Unit
  Unique ((k, v) ∷ m) = (find k m ≡ none) × Unique m

  pub put-Unique : (k : K) (v : V) (m : Dict K V) → Unique m → Unique (put k v m)
  unfolding put find
  put-Unique k v [] u = (refl, tt)
  put-Unique k v ((j, w) ∷ m) u =
      ground (arith, find-put j k v m, e.beq_iff j k, e.beq_iff k j, put-Unique k v m u.1)

  pub remove-Unique : (k : K) (m : Dict K V) → Unique m → Unique (remove k m)
  unfolding remove find
  remove-Unique k [] u = tt
  remove-Unique k ((j, w) ∷ m) u = ground (arith, find-remove j k m, remove-Unique k m u.1)

  pub remove_absent : (k : K) (m : Dict K V) → find k m ≡ none → remove k m ≡ m
  unfolding remove find
  remove_absent k [] h = refl
  remove_absent k ((j, w) ∷ m) h = ground (arith, remove_absent k m)

  pub remove_head : (k : K) (v : V) (m : Dict K V) → find k m ≡ none → remove k ((k, v) ∷ m) ≡ m
  unfolding remove
  remove_head k v m h = ground (arith, e.beq_iff k k, remove_absent k m h)

pub ruleset dict_laws = (find-put, find-remove)

-- A store: the objects that pointers stand for.
abbrev pub update {ℓ} : {A : Type ℓ} → (ℕ → A) → ℕ → A → ℕ → A
update f p v q = if nat_beq p q then v else f q

-- A missing slice reads as nil.
abbrev pub get_or_empty {ℓ} : {A : Type ℓ} → Option (List A) → List A
get_or_empty none = []
get_or_empty (some xs) = xs
