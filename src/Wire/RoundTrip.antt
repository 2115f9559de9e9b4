-- ===== src/Wire/RoundTrip.antt =====
-- What a frame written by `new_protocol` reads back as.
use mathlib.Core.List.{append_assoc}
use nbagent.Base.{
  ℕ, ◌+◌, ◌<◌, ◌^◌, ◌%◌, ◌*◌, ◌/◌, ◌≤◌, ◌≢◌, ◌≡◌, ap, some, List, [], ◌∷◌, ◌++◌, arith, Text,
  length, length-append, length-take-le, take, drop, take_append, drop_append,
}
use nbagent.Wire.{le32, read_u32, read_string, write_string, new_protocol, proto_size_base}

abbrev pub IsShort : Text → Type 0
IsShort s = length s < 65536

-- What `read_string` makes of any text that `write_string` wrote: the length counts modulo 65536.
pub read_string-write_string_mod :
    (s : Text) (rest : List ℕ)
    → read_string (write_string [] s ++ rest)
      ≡ some (take (length s % 65536) (s ++ rest), drop (length s % 65536) (s ++ rest))
unfolding read_string write_string
read_string-write_string_mod s rest =
    let e : length s % 65536 % 256 + 256 * (length s % 65536 / 256 % 256) ≡ length s % 65536 =
      omega arith in
    rw e

-- A text of fewer than 65536 bytes is read back, with what follows it.
pub read_string-write_string :
    (s : Text) (rest : List ℕ)
    → IsShort s
    → read_string (write_string [] s ++ rest) ≡ some (s, rest)
read_string-write_string s rest h =
    let e : length s % 65536 ≡ length s = omega arith in
    rw (read_string-write_string_mod s rest, e, take_append s rest, drop_append s rest)

-- A longer text is not: the reader stops short of its end.
pub read_string-write_string_long :
    (s : Text) (rest : List ℕ)
    → 65536 ≤ length s
    → read_string (write_string [] s ++ rest) ≢ some (s, rest)
read_string-write_string_long s rest h e =
    ground
      (arith, read_string-write_string_mod s rest, length-take-le (length s % 65536) (s ++ rest))

-- The body of a frame: what stands behind the size.
abbrev pub payload : Text → ℕ → Text → List ℕ → List ℕ
payload uri msg_type request_id msg =
    write_string [] uri ++ (msg_type ∷ (write_string [] request_id ++ msg))

pub new_protocol-payload :
    (uri : Text) (msg_type : ℕ) (request_id : Text) (msg : List ℕ)
    → new_protocol uri msg_type request_id msg
      ≡ le32 ((proto_size_base + length uri + length request_id + length msg) % 2 ^ 32)
        ++ payload uri msg_type request_id msg
unfolding new_protocol write_string
new_protocol-payload uri msg_type request_id msg = simp append_assoc

pub length-payload :
    (uri : Text) (msg_type : ℕ) (request_id : Text) (msg : List ℕ)
    → length (payload uri msg_type request_id msg)
      ≡ proto_size_base + length uri + length request_id + length msg
unfolding write_string
length-payload uri msg_type request_id msg = omega (
  arith,
  length-append uri (msg_type ∷ (write_string [] request_id ++ msg)),
  length-append request_id msg,
)

-- A frame as the arguments of `new_protocol`.
pub record Message : Type 0 where
  pub uri : Text
  pub msg_type : ℕ
  pub request_id : Text
  pub msg : List ℕ

abbrev pub frame : Message → List ℕ
frame m = new_protocol m.uri m.msg_type m.request_id m.msg

abbrev pub body : Message → List ℕ
body m = payload m.uri m.msg_type m.request_id m.msg

le32-read :
    (n : ℕ)
    → n < 2 ^ 32
    → n % 2 ^ 32 % 256
        + 256 * (n % 2 ^ 32 / 256 % 256)
        + 65536 * (n % 2 ^ 32 / 65536 % 256)
        + 16777216 * (n % 2 ^ 32 / 16777216 % 256)
      ≡ n
le32-read n h = omega arith

-- The size field of a frame is the length of what follows it.
pub read_u32-frame :
    (m : Message) (rest : List ℕ)
    → length (body m) < 2 ^ 32
    → read_u32 (frame m ++ rest) ≡ some (length (body m), body m ++ rest)
read_u32-frame m rest h = rw (new_protocol-payload m.uri m.msg_type m.request_id m.msg) (
    rw (← length-payload m.uri m.msg_type m.request_id m.msg)
      (ap (λ n. some (n, body m ++ rest)) (le32-read (length (body m)) h)))
