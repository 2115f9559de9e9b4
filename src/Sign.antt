-- ===== src/Sign.antt =====
-- node/common.go, cli_agent/common.go and client/common.go: `makeSign`, and the
-- numbers in decimal. The three `makeSign` are the same function of a secret; the MAC is an argument.
pub mod Decimal
pub mod Keys
use nbagent.Base.{
  ℕ, zero, suc, ◌+◌, ◌-◌, ◌*◌, ◌/◌, ◌%◌, Bool, List, [], ◌∷◌, ◌++◌, Text, ltb, if◌then◌else◌,
}

-- `strconv.FormatInt` of a number that is not negative; the fuel is a bound on the digits.
unfoldable pub digits : ℕ → ℕ → Text
digits zero n = []
digits (suc fuel) n =
    let rest = digits fuel (n / 10) in
    if ltb n 10 then (48 + n) ∷ [] else rest ++ ((48 + n % 10) ∷ [])

unfoldable pub decimal : ℕ → Text
unfolding digits
decimal n = digits (suc n) n

-- `hex.EncodeToString`
abbrev pub hex_digit : ℕ → ℕ
hex_digit n = if ltb n 10 then 48 + n else 87 + n

unfoldable pub hex : List ℕ → Text
hex [] = []
hex (b ∷ bs) = hex_digit (b / 16) ∷ (hex_digit (b % 16) ∷ hex bs)

unfoldable pub sign_text : Text → ℕ → Text
unfolding decimal
sign_text id now = id ++ decimal now

-- `mac secret text` is the HMAC with MD5.
unfoldable pub make_sign : (Text → Text → List ℕ) → Text → Text → ℕ → Text
unfolding sign_text hex
make_sign mac secret id now = hex (mac secret (sign_text id now))

-- `makeSign` of the client library takes the secret last.
abbrev pub client_make_sign : (Text → Text → List ℕ) → Text → ℕ → Text → Text
client_make_sign mac id now secret = make_sign mac secret id now
