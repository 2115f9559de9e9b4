-- ===== src/Node/Manager/Timers/Gossip.antt =====
-- The nodes that a keep-alive tells of, node/manager.go `keepalive` and `NodeList`.
use native.Mathlib.Nat.{mod-lt}
use nbagent.Base.{
  ℕ, zero, suc, ◌+◌, ◌%◌, ◌<◌, ◌≡◌, refl, ap, subst, sym, some, List, [], ◌∷◌, arith, length,
  get_elem?, min,
}
use nbagent.Node.Manager.State.{NodeInfo}
use nbagent.Node.Manager.Timers.{window, gossip, goosip_size}

module _ {ℓ} {A : Type ℓ} where
  get_elem?-some : (xs : List A) (i : ℕ) → i < length xs → (x : A) × (get_elem? xs i ≡ some x)
  get_elem?-some [] i h = absurd (omega arith)
  get_elem?-some (x ∷ xs) zero h = (x, refl)
  get_elem?-some (x ∷ xs) (suc i) h = get_elem?-some xs i (omega arith)

  window-cons :
      (count start : ℕ) (xs : List A) (y : A) (ys : List A)
      → get_elem? xs (start % length xs) ≡ some y
      → ((i : ℕ) → i < count → get_elem? ys i ≡ get_elem? xs ((suc start + i) % length xs))
      → (i : ℕ) → i < suc count
      → get_elem? (y ∷ ys) i ≡ get_elem? xs ((start + i) % length xs)
  window-cons count start xs y ys found at zero h =
      let e : start ≡ start + 0 = omega arith in
      subst (λ n. some y ≡ get_elem? xs (n % length xs)) e (sym found)
  window-cons count start xs y ys found at (suc i) h =
      let e : suc start + i ≡ start + suc i = omega arith in
      subst (λ n. get_elem? ys i ≡ get_elem? xs (n % length xs)) e (at i (omega arith))

  window_lem :
      (count start : ℕ) (xs : List A)
      → 0 < length xs
      → (ys : List A) × (window count start (length xs) xs ≡ some ys)
        × (length ys ≡ count)
        × ((i : ℕ) → i < count → get_elem? ys i ≡ get_elem? xs ((start + i) % length xs))
  unfolding window
  window_lem zero start xs h = ([], refl, refl, λ i f. absurd (omega arith))
  window_lem (suc count) start xs h =
      let (y, found) = get_elem?-some xs (start % length xs) (mod-lt start h) in
      let (ys, rest, size, at) = window_lem count (suc start) xs h in
      (y ∷ ys, rw (found, window, rest), ap suc size, window-cons count start xs y ys found at)

-- On at least one node, whatever `rand.Intn` gives: the code stays within the list, takes five
-- nodes or all if there are fewer, and the one at `i` is the one at `start + i` of the list, taken
-- cyclically.
pub gossip_lem :
    (start : ℕ) (x : NodeInfo) (xs : List NodeInfo)
    → (ys : List NodeInfo) × (gossip start (x ∷ xs) ≡ some ys)
      × (length ys ≡ min goosip_size (length (x ∷ xs)))
      × ((i : ℕ)
          → i < length ys
          → get_elem? ys i ≡ get_elem? (x ∷ xs) ((start + i) % length (x ∷ xs)))
unfolding gossip
gossip_lem start x xs =
    let (ys, done, size, at) =
      window_lem (min goosip_size (length (x ∷ xs))) start (x ∷ xs) (omega arith) in
    (ys, done, size, λ i f. at i (rw⁻¹ size f))
