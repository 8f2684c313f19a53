-- ===== src/BufferReader.antt =====
-- util/buffer/BufferReader.h and BufferReader.cpp: the receiving side of a connection, whose only
-- state is its `Buffer`. The functions on integers of that file are modelled in Codec.
pub mod Growth
pub mod Skipping
pub mod Receiving
mod Tests
use lp_net.Prelude.{
  ℕ, ◌+◌, ◌-◌, ◌%◌, ◌^◌, List, Option, none, some, Bool, true, false, ltb, leb, ◌&&◌, if◌then◌else◌,
  ◌>>=◌, length, mul_size, int_below, int_to_size, ℤ, pos, negsuc, to_int, size_of_int, add_size,
}
use lp_net.Buffer
use lp_net.Buffer.{Buffer, max_bytes_per_read}
use lp_net.Buffer.Socket.{write_fd}

-- The first lines of `append` and of `read(sockfd_t)`.
pub grow : (ℕ → List ℕ) → Buffer → Option Buffer
grow new_array b =
    if int_below (Buffer.writable_bytes b) max_bytes_per_read
    then Buffer.reset new_array b (mul_size b.capacity 2)
    else some b

pub append : (ℕ → List ℕ) → Buffer → List ℕ → ℕ → Option (ℤ × Buffer)
append new_array b bytes len = do
  b' ← grow new_array b
  (written, b'') ← Buffer.write b' (some bytes) len
  some (to_int len, b'')

-- `target` is the array of the caller's string.
pub read : Buffer → ℕ → List ℕ → Option (Option (List ℕ) × ℕ × Buffer)
read b n target =
    if ltb 0 n && leb n (int_to_size (Buffer.readable_bytes b))
    then Buffer.read b (some target) n
    else some (some target, 0, b)

pub find_first : Buffer → List ℕ → Option ℤ
find_first b word = Buffer.find b word

-- What `findAndSkip` does with the result of `find`.
pub skip : Buffer → List ℕ → ℤ → Option (ℤ × Buffer)
skip b word (negsuc n) = some (negsuc n, b)
skip b word (pos len) = do
  (s, k, b') ← Buffer.read b none (add_size len (length word))
  some (to_int (add_size len (length word)), b')

pub find_and_skip : Buffer → List ℕ → Option (ℤ × Buffer)
find_and_skip b word = Buffer.find b word >>= λ place. skip b word place

-- read(sockfd_t): it calls `Buffer::write`, which sends.
pub read_fd : (ℕ → List ℕ) → (List ℕ → Option ℕ) → Buffer → Option (ℕ × Buffer)
read_fd new_array send b = do
  b' ← grow new_array b
  (answer, b'') ← write_fd send b' max_bytes_per_read
  some (elim answer [ none ↦ 0 | some len ↦ len ], b'')

pub read_all : Buffer → List ℕ → Option (Option (List ℕ) × ℕ × Buffer)
read_all b target = do
  (s, k, b') ← Buffer.read b (some target) (int_to_size (Buffer.readable_bytes b))
  some (s, Buffer.readable_bytes b, b')

pub advance : Buffer → ℕ → Option Buffer
advance b n = do (s, k, b') ← Buffer.read b none n; some b'

-- The result of `find` becomes a `size_t`: -1 is the largest one.
pub advance_to : Buffer → List ℕ → Option Buffer
advance_to b word = Buffer.find b word >>= λ place. advance b (size_of_int place)

pub clear : Buffer → Buffer
clear b = Buffer.clear b
