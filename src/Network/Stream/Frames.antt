-- ===== src/Network/Stream/Frames.antt =====
-- A stream of frames is cut into their bodies.
use native.Mathlib.Nat.{zero-add, suc-add}
use nbagent.Base.{
  ℕ, suc, ◌+◌, ◌<◌, ◌≤◌, ◌≡◌, refl, ap, ◌∙◌, true, false, Option, some, List, [], ◌∷◌, ◌++◌, arith,
  ltb, length, length-append, take, drop, take_append, drop_append, take_of_length-le,
  drop_of_length-le, All, map,
}
use nbagent.Wire.{read_u32}
use nbagent.Wire.RoundTrip.{Message, frame, body, read_u32-frame}
use nbagent.Network.Stream.{packet_limit, End, eof, Stop, closed, deliver, read_loop, no_size}

abbrev pub stream : List Message → List ℕ → List ℕ
stream [] tail = tail
stream (m ∷ ms) tail = frame m ++ stream ms tail

abbrev pub Fits : Message → Type 0
Fits m = length (body m) ≤ packet_limit

abbrev pub prepend : List (List ℕ) → Option (List (List ℕ) × Stop) → Option (List (List ℕ) × Stop)
prepend [] r = r
prepend (p ∷ ps) r = deliver p (prepend ps r)

prepend-some : (ps : List (List ℕ)) → prepend ps (some ([], closed)) ≡ some (ps, closed)
prepend-some [] = refl
prepend-some (p ∷ ps) = rw (prepend-some ps)

-- A whole packet within the limit is handed on.
read_loop-packet :
    (fuel : ℕ) (bytes : List ℕ) (n : ℕ) (after : List ℕ) (end : End)
    → read_u32 bytes ≡ some (n, after)
    → n ≤ packet_limit
    → n ≤ length after
    → read_loop (suc fuel) bytes end ≡ deliver (take n after) (read_loop fuel (drop n after) end)
unfolding read_loop
read_loop-packet fuel bytes n after end e fits whole =
    let f : ltb packet_limit n ≡ false = ground arith in
    let g : ltb (length after) n ≡ false = ground arith in rw (e, read_loop) (rw (f, g))

-- One round of the loop reads one frame and leaves the rest of the stream.
pub read_loop-frame :
    (fuel : ℕ) (m : Message) (rest : List ℕ) (end : End)
    → Fits m
    → read_loop (suc fuel) (frame m ++ rest) end ≡ deliver (body m) (read_loop fuel rest end)
read_loop-frame fuel m rest end h =
    read_loop-packet fuel (frame m ++ rest) (length (body m)) (body m ++ rest) end
      (read_u32-frame m rest (omega arith)) h (omega (arith, length-append (body m) rest))
    ∙ rw (take_append (body m) rest, drop_append (body m) rest)

-- Frames of bodies within the limit are handed on one by one, whatever follows them.
pub read_loop-stream :
    (ms : List Message) (fuel : ℕ) (tail : List ℕ) (end : End)
    → All Fits ms
    → read_loop (length ms + fuel) (stream ms tail) end
      ≡ prepend (map body ms) (read_loop fuel tail end)
read_loop-stream [] fuel tail end h = rw zero-add
read_loop-stream (m ∷ ms) fuel tail end h = rw suc-add (
    read_loop-frame (length ms + fuel) m (stream ms tail) end h.0
    ∙ ap (deliver (body m)) (read_loop-stream ms fuel tail end h.1))

-- If the peer closes the connection after whole frames, whose bodies are within the limit, the loop
-- ends after one round for each frame and one more, and has handed on exactly their bodies, in order.
pub read_loop-stream_eof :
    (ms : List Message) (fuel : ℕ)
    → All Fits ms
    → read_loop (length ms + suc fuel) (stream ms []) eof ≡ some (map body ms, closed)
unfolding read_loop no_size
read_loop-stream_eof ms fuel h =
    unfold read_loop no_size in
    (read_loop-stream ms (suc fuel) [] eof h ∙ prepend-some (map body ms))

-- A packet of a size within the limit that the peer cuts short by closing the connection is handed
-- on as if it were whole.
pub read_loop_cut :
    (fuel : ℕ) (bytes : List ℕ) (n : ℕ) (after : List ℕ)
    → read_u32 bytes ≡ some (n, after)
    → n ≤ packet_limit
    → length after < n
    → read_loop (suc (suc fuel)) bytes eof ≡ some (after ∷ [], closed)
unfolding read_loop no_size
read_loop_cut fuel bytes n after e fits cut =
    let f : ltb packet_limit n ≡ false = ground arith in
    let g : ltb (length after) n ≡ true = ground arith in
    rw (e, read_loop)
      (rw (f, g, take_of_length-le n after (omega arith), drop_of_length-le n after (omega arith))
        (rw (drop_of_length-le n after (omega arith))))
