-- ===== src/Sign/Decimal.antt =====
-- What the decimal digits of a number say.
use nbagent.Base.{
  ℕ, zero, suc, ◌+◌, ◌-◌, ◌*◌, ◌/◌, ◌%◌, ◌<◌, ◌≤◌, ◌≡◌, refl, sym, ap, ◌∙◌, inl, inr, false, [],
  ◌∷◌, ◌++◌, arith, Text, ltb, elem, elem-append, nat_eq, nat_beq, Bool-cases,
}
use nbagent.Sign.{digits, decimal}

-- The number that digits stand for, behind those already read.
abbrev pub value : ℕ → Text → ℕ
value n [] = n
value n (c ∷ cs) = value (n * 10 + (c - 48)) cs

value-append : (n c : ℕ) (cs : Text) → value n (cs ++ (c ∷ [])) ≡ value n cs * 10 + (c - 48)
value-append n c [] = refl
value-append n c (d ∷ cs) = value-append (n * 10 + (d - 48)) c cs

value-digits : (fuel n : ℕ) → n < fuel → value 0 (digits fuel n) ≡ n
unfolding digits
value-digits zero n l = absurd (omega (arith, l))
value-digits (suc fuel) n l = elim (Bool-cases (ltb n 10)) [
  | inl e ↦ rw e (omega arith)
  | inr e ↦
      let big : 10 ≤ n = ground (arith, e) in
      let shorter : n / 10 < fuel = omega (arith, l, big) in
      let rest = value-digits fuel (n / 10) shorter in
      rw e (value-append 0 (48 + n % 10) (digits fuel (n / 10)) ∙ omega (arith, rest))
]

-- Reading the decimal digits of a number gives the number.
pub value-decimal : (n : ℕ) → value 0 (decimal n) ≡ n
unfolding decimal
value-decimal n = value-digits (suc n) n (omega arith)

pub decimal_injective : (n k : ℕ) → decimal n ≡ decimal k → n ≡ k
decimal_injective n k e = sym (value-decimal n) ∙ ap (value 0) e ∙ value-decimal k

-- Byte 58 is the colon.
no_colon-digits : (fuel n : ℕ) → elem 58 (digits fuel n) ≡ false
unfolding digits
no_colon-digits zero n = refl
no_colon-digits (suc fuel) n = elim (Bool-cases (ltb n 10)) [
  | inl e ↦
      let small : n < 10 = ground (arith, e) in
      let other : nat_beq (48 + n) 58 ≡ false = ground (arith, small) in rw e (rw other refl)
  | inr e ↦
      let small : n % 10 < 10 = omega arith in
      let other : nat_beq (48 + n % 10) 58 ≡ false = ground (arith, small) in
      rw e (
        elem-append 58 (digits fuel (n / 10)) ((48 + n % 10) ∷ [])
        ∙ rw (no_colon-digits fuel (n / 10), other) refl)
]

pub no_colon : (n : ℕ) → elem 58 (decimal n) ≡ false
unfolding decimal
no_colon n = no_colon-digits (suc n) n
