-- ===== src/Fnv1a.antt =====
-- The FNV-1a hash of include/fnv1a.h, for a hash of `bits` bits with its prime and offset basis, and
-- characters of `bytes` bytes. A character is its unsigned code.
pub mod Laws
pub mod Literals
pub mod Reference
mod Tests
use loginhelper.Prelude.{
  ℕ, zero, suc, ◌+◌, ◌-◌, ◌*◌, ◌%◌, ◌^◌, ◌&&◌, List, [], ◌∷◌, Option, none, some, bit_and, bit_xor,
  leb, ◌==◌, if◌then◌else◌, ◌>>>◌, Result, ok, undefined, ◌>>=◌,
}

unfoldable pub ascii_tolower : ℕ → ℕ
ascii_tolower c = if leb b'A' c && leb c b'Z' then c + (b'a' - b'A') else c

unfoldable pub ascii_toupper : ℕ → ℕ
ascii_toupper c = if leb b'a' c && leb c b'z' then c - (b'a' - b'A') else c

-- The parameters of `basic_fnv1a`, and `sizeof(Char)`.
pub record Kind : Type 0 where
  pub bits : ℕ
  pub prime : ℕ
  pub offset_basis : ℕ
  pub bytes : ℕ

-- `fnv1a32` and `fnv1a64` over `char` and `wchar_t`.
abbrev pub fnv1a32 : ℕ → Kind
fnv1a32 bytes = record { bits = 32; prime = 0x1000193; offset_basis = 2166136261; bytes = bytes }

abbrev pub fnv1a64 : ℕ → Kind
fnv1a64 bytes = record {
  bits = 64;
  prime = 0x100000001b3;
  offset_basis = 14695981039346656037;
  bytes = bytes;
}

-- `fx ? fx(c) : c`.
abbrev pub apply : Option (ℕ → ℕ) → ℕ → ℕ
apply none c = c
apply (some fx) c = fx c

module _ (kind : Kind) where
  -- The loop over the bytes of a character at `j`, with `n` rounds left.
  unfoldable pub hash_bytes : ℕ → ℕ → ℕ → ℕ → ℕ
  hash_bytes zero j c hash = hash
  hash_bytes (suc n) j c hash =
      hash_bytes n (j + 1) c
        (bit_xor hash (bit_and (c >>> (j * 8)) 0xff % 2 ^ kind.bits) * kind.prime % 2 ^ kind.bits)

  -- One round of the loop over the characters.
  unfoldable pub hash_char : Option (ℕ → ℕ) → ℕ → ℕ → ℕ
  hash_char fx hash c = hash_bytes kind.bytes 0 (apply fx c) hash

  -- `make_hash(s, fx)`: the loop up to the terminator; `undefined` where the memory has none.
  unfoldable pub hash_terminated : Option (ℕ → ℕ) → ℕ → List ℕ → Result ℕ
  hash_terminated fx hash [] = undefined
  hash_terminated fx hash (c ∷ memory) =
      let rest = hash_terminated fx (hash_char fx hash c) memory in if c == 0 then ok hash else rest

  -- `make_hash(s, size, fx)`: the loop over `size` characters.
  unfoldable pub hash_sized : Option (ℕ → ℕ) → ℕ → ℕ → List ℕ → Result ℕ
  hash_sized fx hash zero memory = ok hash
  hash_sized fx hash (suc size) [] = undefined
  hash_sized fx hash (suc size) (c ∷ memory) = hash_sized fx (hash_char fx hash c) size memory

  unfoldable pub make_hash : List ℕ → Option (ℕ → ℕ) → Result ℕ
  make_hash memory fx = hash_terminated fx kind.offset_basis memory

  unfoldable pub make_hash_sized : List ℕ → ℕ → Option (ℕ → ℕ) → Result ℕ
  make_hash_sized memory size fx = hash_sized fx kind.offset_basis size memory
