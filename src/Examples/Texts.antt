-- ===== src/Examples/Texts.antt =====
-- Host keys and signed texts at concrete inputs.
use nbagent.Base.{ℕ, ◌≡◌, refl, codes}
use nbagent.Sign.{decimal, sign_text}
use nbagent.Sign.Keys.{host_key_injective}

host_key_injective_example : (codes "10.0.0.1" ≡ codes "10.0.0.1") × (◌≡◌ {A = ℕ} 8900 8900)
host_key_injective_example = host_key_injective (codes "10.0.0.1") (codes "10.0.0.1") 8900 8900 refl

-- Two nodes sign the same text at two times.
signs_alike : sign_text (codes "n1") 23 ≡ sign_text (codes "n") 123
unfolding sign_text decimal
signs_alike = refl
