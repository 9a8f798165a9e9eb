-- ===== src/PacketBuffer.antt =====
-- The buffers that packets are written to and read from, in big-endian order:
-- ccoip/internal_include/ccoip_packet_buffer.hpp, ccoip/src/cpp/ccoip_packet_buffer.cpp. A written
-- buffer is the list of its bytes; its capacity is the vector's own. A float or a double is its bit
-- pattern, which the code casts it to.
pub mod Integers
pub mod Reads
use pccl.Common.{
  ℕ, zero, suc, ◌+◌, ◌-◌, ◌*◌, ◌/◌, ◌%◌, Bool, true, false, not, List, [], ◌∷◌, ◌++◌, Option, none,
  some, if◌then◌else◌, ◌==◌, nat_eq, ltb, leb, length, get_elem?, Text, take, drop,
}

-- The weight of a byte with so many bytes to its right, `1 << 8 * k`.
abbrev pub weight : ℕ → ℕ
weight zero = 1
weight (suc k) = 256 * weight k

-- `writeIntegral`: the bytes `value >> (8 * (sizeof(T) - 1 - i))`, each cast to 8 bits.
unfoldable pub write_integral : ℕ → ℕ → List ℕ
write_integral zero value = []
write_integral (suc k) value = (value / weight k) % 256 ∷ write_integral k value

abbrev pub write_u8 : ℕ → List ℕ
write_u8 value = value % 256 ∷ []

abbrev pub write_u16 : ℕ → List ℕ
write_u16 = write_integral 2

abbrev pub write_u32 : ℕ → List ℕ
write_u32 = write_integral 4

abbrev pub write_u64 : ℕ → List ℕ
write_u64 = write_integral 8

abbrev pub write_bool : Bool → List ℕ
write_bool b = (if b then 1 else 0) ∷ []

-- `writeFixedArray` and `writeContents`, of bytes.
unfoldable pub write_bytes : List ℕ → List ℕ
write_bytes [] = []
write_bytes (b ∷ bs) = b % 256 ∷ write_bytes bs

-- The 16 bytes of a uuid, that is, of the number which they spell.
abbrev pub write_uuid : ℕ → List ℕ
write_uuid uuid = write_integral 16 uuid

unfoldable pub write_string : Text → List ℕ
unfolding write_integral
write_string str = write_u64 (length str) ++ str

-- `length_` is the length of `data_`.
pub record PacketReadBuffer : Type 0 where
  pub data_ : List ℕ
  pub read_index_ : ℕ

-- What a read gives: a value and the buffer after it; the exception `std::out_of_range`; that
-- `deserialize` returns false; or a cast to an enum of a number that no enumerator has.
pub data Reading {ℓ} (A : Type ℓ) : Type ℓ where
  read : A → PacketReadBuffer → Reading A
  out_of_range refused unnamed : Reading A

abbrev pub Reader : Type 0 → Type 0
Reader A = PacketReadBuffer → Reading A

infixl 5 ◌>>=◌ ◌>>◌
abbrev pub ◌>>=◌ : {A B : Type 0} → Reader A → (A → Reader B) → Reader B
◌>>=◌ m f b = elim (m b) [
  | read a b' ↦ f a b'
  | out_of_range ↦ out_of_range
  | refused ↦ refused
  | unnamed ↦ unnamed
]

abbrev pub ◌>>◌ : {A B : Type 0} → Reader A → Reader B → Reader B
m >> n = m >>= λ _. n

abbrev pub return : {A : Type 0} → A → Reader A
return a b = read a b

abbrev pub refuse : {A : Type 0} → Reader A
refuse b = refused

abbrev pub remaining : PacketReadBuffer → ℕ
remaining b = length b.data_ - b.read_index_

abbrev pub byte_at : List ℕ → ℕ → ℕ
byte_at bs i = elim (get_elem? bs i) [ none ↦ 0 | some b ↦ b ]

-- `readIntegral`, with so many bytes still to read: `(value << 8) | byte`, in the type's width.
-- The low bits of the shifted value are 0, where the disjunction is the sum.
unfoldable pub read_integral : ℕ → ℕ → ℕ → PacketReadBuffer → ℕ
read_integral width zero value b = value
read_integral width (suc k) value b =
    read_integral width k ((value * 256 + byte_at b.data_ b.read_index_) % weight width)
      (record b { read_index_ = b.read_index_ + 1 })

-- `read<T>`, for a type of so many bytes.
unfoldable pub read_unsigned : ℕ → Reader ℕ
unfolding read_integral
read_unsigned width b =
    if ltb (length b.data_) (b.read_index_ + width)
    then out_of_range
    else read (read_integral width width 0 b) (record b { read_index_ = b.read_index_ + width })

abbrev pub read_u8 : Reader ℕ
read_u8 = read_unsigned 1

abbrev pub read_u16 : Reader ℕ
read_u16 = read_unsigned 2

abbrev pub read_u32 : Reader ℕ
read_u32 = read_unsigned 4

abbrev pub read_u64 : Reader ℕ
read_u64 = read_unsigned 8

-- Both `read<bool>` and `read<boolean>`, of which the latter is a byte, are true unless the byte is 0.
abbrev pub read_bool : Reader Bool
read_bool = read_u8 >>= λ b. return (not (b == 0))

-- A loop that reads one item after another. It ends at the first exception.
unfoldable pub read_times : {A : Type 0} → ℕ → Reader A → Reader (List A)
read_times zero item = return []
read_times (suc n) item = do x ← item; xs ← read_times n item; return (x ∷ xs)

-- `readString`, after its length.
unfoldable pub read_chars : ℕ → Reader Text
read_chars n b =
    if ltb (remaining b) n
    then out_of_range
    else read (take n (drop b.read_index_ b.data_)) (record b { read_index_ = b.read_index_ + n })

unfoldable pub read_string : Reader Text
unfolding read_chars read_unsigned
read_string = read_u64 >>= read_chars

-- The number that bytes spell, after the number that is spelled already.
unfoldable pub number_from : ℕ → List ℕ → ℕ
number_from acc [] = acc
number_from acc (b ∷ bs) = number_from (acc * 256 + b) bs

-- `readFixedArray<uint8_t, 16>`, into a uuid.
unfoldable pub read_uuid : Reader ℕ
read_uuid = do bytes ← read_times 16 read_u8; return (number_from 0 bytes)

-- A loop that writes one item after another.
unfoldable pub write_all : {A : Type 0} → (A → List ℕ) → List A → List ℕ
write_all item [] = []
write_all item (x ∷ xs) = item x ++ write_all item xs
