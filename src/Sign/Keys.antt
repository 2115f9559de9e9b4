-- ===== src/Sign/Keys.antt =====
-- What a host key and a signed text say of what they are made of.
use mathlib.Core.List.{
  head-eq_of_cons-eq, tail-eq_of_cons-eq, append_cancel_left, append_cancel_right,
}
use nbagent.Base.{
  ℕ, ◌≡◌, refl, sym, ap, ◌∙◌, false, true, [], ◌∷◌, ◌++◌, arith, Text, elem, elem-append, nat_eq,
}
use nbagent.Client.Pool.{make_host_key_by_ip_port}
use nbagent.Sign.{decimal, sign_text}
use nbagent.Sign.Decimal.{decimal_injective, no_colon}

has_colon : (b x y : Text) → x ≡ b ++ (58 ∷ y) → elem 58 x ≡ false → ⊥
has_colon b x y e free =
    let inside : elem 58 x ≡ true = rw e (elem-append 58 b (58 ∷ y) ∙ ground arith) in
    cc (inside, free)

-- The last colon splits a text in one way.
split_once :
    (a b x y : Text)
    → elem 58 x ≡ false
    → elem 58 y ≡ false
    → a ++ (58 ∷ x) ≡ b ++ (58 ∷ y)
    → (a ≡ b) × (x ≡ y)
split_once [] [] x y p q e = (refl, tail-eq_of_cons-eq e)
split_once [] (c ∷ b) x y p q e = absurd (has_colon b x y (tail-eq_of_cons-eq e) p)
split_once (c ∷ a) [] x y p q e = absurd (has_colon a y x (sym (tail-eq_of_cons-eq e)) q)
split_once (c ∷ a) (d ∷ b) x y p q e =
    let (same, rest) = split_once a b x y p q (tail-eq_of_cons-eq e) in
    (cc (same, head-eq_of_cons-eq e), rest)

-- Two agents have the same host key only if they have the same address and the same port.
pub host_key_injective :
    (ip ip' : Text) (port port' : ℕ)
    → make_host_key_by_ip_port decimal ip port ≡ make_host_key_by_ip_port decimal ip' port'
    → (ip ≡ ip') × (port ≡ port')
unfolding make_host_key_by_ip_port
host_key_injective ip ip' port port' e =
    let (same, digits) =
      split_once ip ip' (decimal port) (decimal port') (no_colon port) (no_colon port') e in
    (same, decimal_injective port port' digits)

-- The text that is signed tells the time from the name and the name from the time, but not both from
-- the text.
pub sign_text_tells :
    (id id' : Text) (now now' : ℕ)
    → sign_text id now ≡ sign_text id' now'
    → ((id ≡ id') → now ≡ now') × ((now ≡ now') → id ≡ id')
unfolding sign_text
sign_text_tells id id' now now' e = (
  λ same. decimal_injective now now' (
      append_cancel_left id (decimal now) (decimal now')
        (e ∙ ap (λ t. t ++ decimal now') (sym same))),
  λ same. append_cancel_right id id' (decimal now) (e ∙ ap (λ t. id' ++ decimal t) (sym same)),
)
