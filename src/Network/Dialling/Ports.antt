-- ===== src/Network/Dialling/Ports.antt =====
-- The port that a server finds.
use nbagent.Base.{
  ℕ, zero, suc, ◌+◌, ◌%◌, ◌^◌, ◌<◌, ◌≤◌, ◌≡◌, refl, Bool, true, false, arith, Text, Bool-cases, inl,
  inr, sym, ap, ◌∙◌,
}
use nbagent.Network.Dialling.{listening, address, next_port, new_server}

-- The port of a try, and whether the system gives it.
abbrev pub port_after : ℕ → ℕ → ℕ
port_after port i = (port + i) % 2 ^ 16

port_after-next : (port i : ℕ) → port_after (next_port port) i ≡ port_after port (suc i)
port_after-next port i = omega arith

all_below_suc {ℓ} :
    (P : ℕ → Type ℓ) (k : ℕ) → P 0 → ((i : ℕ) → i < k → P (suc i)) → (i : ℕ) → i < suc k → P i
all_below_suc P k p ps zero l = p
all_below_suc P k p ps (suc i) l = ps i (omega (arith, l))

-- The search with the port of each try as the code counts it, modulo 65536.
new_server-tries :
    (port_text : ℕ → Text) (ip : Text) (n fuel : ℕ) (listen : ℕ → Text → Bool) (port : ℕ)
    → port < 65536
    → n < fuel
    → listen n (address port_text ip (port_after port n)) ≡ true
    → (k : ℕ) × (k ≤ n)
      × (listen k (address port_text ip (port_after port k)) ≡ true)
      × ((i : ℕ) → i < k → listen i (address port_text ip (port_after port i)) ≡ false)
      × (new_server fuel port_text listen ip port true
          ≡ listening (record { ip = ip; port = port_after port k }))
unfolding new_server
new_server-tries port_text ip n zero listen port b f g = absurd (omega (arith, f))
new_server-tries port_text ip zero (suc fuel) listen port b f g =
    let here : port_after port 0 ≡ port = omega (arith, b) in
    let free : listen 0 (address port_text ip port) ≡ true = rw here at g in
    (0, omega arith, g, λ i l. absurd (omega (arith, l)), rw (free, here) refl)
new_server-tries port_text ip (suc n) (suc fuel) listen port b f g =
    let here : port_after port 0 ≡ port = omega (arith, b) in
    elim (Bool-cases (listen 0 (address port_text ip port))) [
      | inl free ↦
          (0, omega arith, rw here free, λ i l. absurd (omega (arith, l)), rw (free, here) refl)
      | inr taken ↦
          let (k, l, free, first, found) =
            new_server-tries port_text ip n fuel (λ i. listen (suc i)) (next_port port)
              (omega arith) (omega (arith, f)) (rw (port_after-next port n) g) in
          (
            suc k,
            omega (arith, l),
            rw (sym (port_after-next port k)) free,
            all_below_suc (λ i. listen i (address port_text ip (port_after port i)) ≡ false) k
                (rw here taken) (λ i l'. rw (sym (port_after-next port i)) (first i l')),
            rw (taken, sym (port_after-next port k)) found,
          )
    ]

-- A server that may choose its port, wants one that is not 0, and gets an address from the system at
-- some try before the ports of sixteen bits are out, where more tries than those before it are allowed:
-- it listens at the first port from the wanted one on that the system gives when it is tried.
pub new_server-first :
    (port_text : ℕ → Text) (ip : Text) (n fuel : ℕ) (listen : ℕ → Text → Bool) (port : ℕ)
    → 0 < port
    → port + n < 65536
    → n < fuel
    → listen n (address port_text ip (port + n)) ≡ true
    → (k : ℕ) × (k ≤ n)
      × (listen k (address port_text ip (port + k)) ≡ true)
      × ((i : ℕ) → i < k → listen i (address port_text ip (port + i)) ≡ false)
      × (new_server fuel port_text listen ip port true
          ≡ listening (record { ip = ip; port = port + k }))
new_server-first port_text ip n fuel listen port some_port fits enough free =
    let same : (i : ℕ) → i ≤ n → port_after port i ≡ port + i = λ i l. omega (arith, fits, l) in
    let (k, l, given, taken, found) =
      new_server-tries port_text ip n fuel listen port (omega (arith, fits)) enough
        (rw (same n (omega arith)) free) in
    (
      k,
      l,
      rw⁻¹ (same k l) given,
      λ i below. rw⁻¹ (same i (omega (arith, below, l))) (taken i below),
      found ∙ ap (λ q. listening (record { ip = ip; port = q })) (same k l),
    )
