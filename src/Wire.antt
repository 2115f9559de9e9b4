-- ===== src/Wire.antt =====
-- protocol/common.go: the frames that nodes, agents and clients exchange. A byte sequence is a list
-- of numbers. The readers and writers are `bytes.Buffer`s, whose writes do not fail; the marshalled
-- message is an argument.
pub mod RoundTrip
use nbagent.Base.{
  ℕ, ◌+◌, ◌*◌, ◌/◌, ◌%◌, ◌^◌, Option, none, some, List, [], ◌∷◌, ◌++◌, Text, length, take, drop,
}

abbrev pub msg_type_request : ℕ
msg_type_request = 1

abbrev pub msg_type_respone : ℕ
msg_type_respone = 2

abbrev pub msg_type_cast : ℕ
msg_type_cast = 3

abbrev pub proto_size_base : ℕ
proto_size_base = 5

-- `binary.Write` of a uint16 and of a uint32, in little endian.
abbrev pub le16 : ℕ → List ℕ
le16 n = (n % 256) ∷ (n / 256 % 256) ∷ []

abbrev pub le32 : ℕ → List ℕ
le32 n = (n % 256) ∷ (n / 256 % 256) ∷ (n / 65536 % 256) ∷ (n / 16777216 % 256) ∷ []

-- `binary.Read` of a uint8, a uint16 and a uint32.
abbrev pub read_u8 : List ℕ → Option (ℕ × List ℕ)
read_u8 [] = none
read_u8 (a ∷ rest) = some (a, rest)

abbrev pub read_u16 : List ℕ → Option (ℕ × List ℕ)
read_u16 (a ∷ b ∷ rest) = some (a + 256 * b, rest)
read_u16 _ = none

abbrev pub read_u32 : List ℕ → Option (ℕ × List ℕ)
read_u32 (a ∷ b ∷ c ∷ d ∷ rest) = some (a + 256 * b + 65536 * c + 16777216 * d, rest)
read_u32 _ = none

-- The limited read stops without an error where the buffer ends early.
unfoldable pub read_string : List ℕ → Option (Text × List ℕ)
read_string bytes = elim (read_u16 bytes) [
  | none ↦ none
  | some (n, rest) ↦ some (take n rest, drop n rest)
]

-- The length is cut to 16 bits, and the text is written whole.
unfoldable pub write_string : List ℕ → Text → List ℕ
write_string buffer s = (buffer ++ le16 (length s % 65536)) ++ s

unfoldable pub new_protocol : Text → ℕ → Text → List ℕ → List ℕ
new_protocol uri msg_type request_id msg =
    let size = proto_size_base + length uri + length request_id + length msg in
    let header = write_string (le32 (size % 2 ^ 32)) uri in
    write_string (header ++ (msg_type ∷ [])) request_id ++ msg
