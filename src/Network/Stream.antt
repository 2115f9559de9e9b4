-- ===== src/Network/Stream.antt =====
-- network/common.go, `readLoop`: how a connection cuts what it receives into packets. The bytes
-- that arrive are a list; how the connection ends after them is `End`.
pub mod Frames
use nbagent.Base.{
  ℕ, zero, suc, ◌+◌, ◌<◌, ◌≤◌, ◌≡◌, refl, Bool, true, false, ◌&&◌, ◌*◌, ◌⊎◌, inl, inr, Bool-cases,
  Option, none, some, List, [], ◌∷◌, arith, ltb, length, length-drop-le, length-take-le, take, drop,
  All, if◌then◌else◌,
}
use nbagent.Wire.{read_u32}

-- network/server.go, `PACKET_LIMIT`
abbrev pub packet_limit : ℕ
packet_limit = 8388608

-- The peer closes the connection (`io.EOF`), or reading fails.
pub data End : Type 0 where
  eof broken : End

-- What ended the loop. On `read_err` and `size_error` the loop cleans all waiting calls; every
-- ending closes the connection, which cleans them too.
pub data Stop : Type 0 where
  closed read_err size_error : Stop

abbrev is_broken : End → Bool
is_broken eof = false
is_broken broken = true

-- `binary.Read` of the size fails: `io.EOF` only if no byte was there.
unfoldable pub no_size : List ℕ → End → Stop
no_size [] eof = closed
no_size [] broken = read_err
no_size (b ∷ bs) end = read_err

abbrev pub deliver : List ℕ → Option (List (List ℕ) × Stop) → Option (List (List ℕ) × Stop)
deliver packet none = none
deliver packet (some (packets, stop)) = some (packet ∷ packets, stop)

-- The packets handed to `OnRead`, and what ended the loop; `none` where the fuel runs out.
unfoldable pub read_loop : ℕ → List ℕ → End → Option (List (List ℕ) × Stop)
read_loop zero bytes end = none
read_loop (suc fuel) bytes end = elim (read_u32 bytes) [
  | none ↦ some ([], no_size bytes end)
  | some (n, rest) ↦
      let more = read_loop fuel (drop n rest) end in
      if ltb packet_limit n
      then some ([], size_error)
      else if ltb (length rest) n && is_broken end
      then some ([], read_err)
      else deliver (take n rest) more
]

abbrev pub IsBounded : Option (List (List ℕ) × Stop) → Type 0
IsBounded none = ⊥
IsBounded (some (packets, stop)) = All (λ packet. length packet ≤ packet_limit) packets

deliver-IsBounded :
    (packet : List ℕ) (r : Option (List (List ℕ) × Stop))
    → length packet ≤ packet_limit
    → IsBounded r
    → IsBounded (deliver packet r)
deliver-IsBounded packet none h b = b
deliver-IsBounded packet (some (packets, stop)) h b = (h, b)

-- One round of the loop, with the next rounds as an argument.
round-IsBounded :
    (n : ℕ) (rest : List ℕ) (stop : Bool) (more : Option (List (List ℕ) × Stop))
    → IsBounded more
    → IsBounded (
        if ltb packet_limit n
        then some ([], size_error)
        else if stop
        then some ([], read_err)
        else deliver (take n rest) more)
round-IsBounded n rest stop more b = elim (Bool-cases (ltb packet_limit n)) [
  | inl big ↦ rw big tt
  | inr fits ↦ rw fits (elim (Bool-cases stop) [
    | inl e ↦ rw e tt
    | inr e ↦ rw e (deliver-IsBounded (take n rest) more (ground (arith, length-take-le n rest)) b)
  ])
]

-- Whatever arrives, the loop ends within one round for each byte and one more, and no packet that
-- it hands on is longer than the limit.
pub read_loop-IsBounded :
    (fuel : ℕ) (bytes : List ℕ) (end : End)
    → length bytes < fuel
    → IsBounded (read_loop fuel bytes end)
unfolding read_loop
read_loop-IsBounded (suc fuel) (a ∷ b ∷ c ∷ d ∷ rest) end h =
    let n = a + 256 * b + 65536 * c + 16777216 * d in
    round-IsBounded n rest _ _
      (read_loop-IsBounded fuel (drop n rest) end (omega (arith, length-drop-le n rest)))
read_loop-IsBounded zero bytes end h = absurd (omega arith)
read_loop-IsBounded (suc fuel) bytes end h = tt
