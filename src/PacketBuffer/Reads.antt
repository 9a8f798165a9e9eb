-- ===== src/PacketBuffer/Reads.antt =====
-- When a reader gives back what a writer wrote, and refuses what is cut short.
use pccl.Common.{
  ℕ, zero, suc, ◌+◌, ◌-◌, ◌*◌, ◌/◌, ◌%◌, ◌<◌, ◌≤◌, ◌≡◌, refl, sym, ap, ◌∙◌, subst, Bool, true,
  false, List, [], ◌∷◌, ◌++◌, length, Text, take, drop-append, All, arith, append-nil, append_assoc,
  length-append, length-take, take-append_short, take-append_long, get_elem?-append, ltb,
  Bool-cases, inl, inr, not, ◌==◌, nat_eq,
}
use native.Mathlib.Nat.{mod-eq_of_lt}
use pccl.PacketBuffer.{
  PacketReadBuffer, Reader, read, out_of_range, ◌>>=◌, return, weight, write_integral,
  read_integral, read_unsigned, read_times, byte_at, read_u8, write_u8, read_chars, read_string,
  write_string, remaining, write_all, write_uuid, read_uuid, number_from, read_bool, write_bool,
}
use pccl.PacketBuffer.Integers.{
  weight-pos, weight-step, length-write_integral, write_integral-bytes, number_from-write_integral,
}

-- A buffer that has been read up to the bytes `post`.
abbrev pub at : List ℕ → List ℕ → PacketReadBuffer
at pre post = record { data_ = pre ++ post; read_index_ = length pre }

-- Read where the bytes stand, whatever follows them, the value is given, and exactly they are
-- read; where the buffer ends before their end, the reader throws.
pub record Reads {A : Type 0} (m : Reader A) (v : A) (bytes : List ℕ) : Type 0 where
  pub whole : (pre tail : List ℕ) → m (at pre (bytes ++ tail)) ≡ read v (at (pre ++ bytes) tail)
  pub cut : (pre : List ℕ) (n : ℕ) → n < length bytes → m (at pre (take n bytes)) ≡ out_of_range

module _ {A : Type 0} where
  pub Reads-return : (v : A) → Reads (return v) v []
  Reads-return v = record {
    whole = λ pre tail. ap (λ p. read v (at p tail)) (sym (append-nil pre));
    cut = λ pre n h. absurd (omega arith);
  }

-- The buffers before and after a first part of the bytes.
at_assoc :
    (pre xs ys : List ℕ)
    → at (pre ++ xs) ys ≡ record (at (pre ++ xs) ys) { data_ = pre ++ (xs ++ ys) }
at_assoc pre xs ys = ap (λ d. record (at (pre ++ xs) ys) { data_ = d }) (append_assoc pre xs ys)

module _ {A B : Type 0} {m : Reader A} (f : A → Reader B) {v : A} {w : B} {xs ys : List ℕ}
    (first : Reads m v xs) (next : Reads (f v) w ys) where
  bind_whole :
      (pre tail : List ℕ)
      → (m >>= f) (at pre ((xs ++ ys) ++ tail)) ≡ read w (at (pre ++ (xs ++ ys)) tail)
  bind_whole pre tail =
      rw (append_assoc xs ys tail, first.whole pre (ys ++ tail), ◌>>=◌)
        (next.whole (pre ++ xs) tail ∙ ap (λ p. read w (at p tail)) (append_assoc pre xs ys))

  bind_cut :
      (pre : List ℕ) (n : ℕ)
      → n < length (xs ++ ys)
      → (m >>= f) (at pre (take n (xs ++ ys))) ≡ out_of_range
  bind_cut pre n h = elim (Bool-cases (ltb n (length xs))) [
    | inl short ↦
        rw (take-append_short n xs ys (ground arith), first.cut pre n (ground arith), ◌>>=◌) refl
    | inr long ↦
        let rest = n - length xs in
        let split : n ≡ length xs + rest = ground arith in
        rw (split, take-append_long rest xs ys, first.whole pre (take rest ys), ◌>>=◌)
          (next.cut (pre ++ xs) rest (omega (arith, length-append xs ys)))
  ]

  pub Reads-bind : Reads (m >>= f) w (xs ++ ys)
  Reads-bind = record { whole = bind_whole; cut = bind_cut }

-- The byte at the index, and the buffer after it.
at_step :
    (pre : List ℕ) (b : ℕ) (post : List ℕ)
    → at (pre ++ (b ∷ [])) post ≡ record { data_ = pre ++ (b ∷ post); read_index_ = length pre + 1 }
at_step pre b post = rw (append_assoc pre (b ∷ []) post, length-append pre (b ∷ [])) refl

byte_at-append :
    (pre : List ℕ) (b : ℕ) (post : List ℕ) → byte_at (pre ++ (b ∷ post)) (length pre) ≡ b
byte_at-append pre b post = rw (get_elem?-append pre b post, byte_at) refl

read_integral-write :
    (width k acc v : ℕ) (pre tail : List ℕ)
    → (acc + 1) * weight k ≤ weight width
    → read_integral width k acc (at pre (write_integral k v ++ tail))
      ≡ acc * weight k + v % weight k
unfolding read_integral write_integral
read_integral-write width zero acc v pre tail h = omega arith
read_integral-write width (suc k) acc v pre tail h =
    let b = (v / weight k) % 256 in
    let bytes = write_integral k v ++ tail in
    let fits : (acc * 256 + b + 1) * weight k ≤ weight width = grind (arith, weight-pos k) in
    let small : acc * 256 + b < weight width = grind (arith, weight-pos k) in
    rw (byte_at-append pre b bytes, mod-eq_of_lt small, ← at_step pre b bytes)
      (read_integral-write width k (acc * 256 + b) v (pre ++ (b ∷ [])) tail fits
        ∙ weight-step acc k v)

zero-step : (w n : ℕ) → 0 * w + n ≡ n
zero-step w n = omega arith

pub Reads-unsigned : (k v : ℕ) → v < weight k → Reads (read_unsigned k) v (write_integral k v)
unfolding read_unsigned
Reads-unsigned k v h = record {
  whole = λ pre tail.
      let bytes = write_integral k v in
      let found : read_integral k k 0 (at pre (bytes ++ tail)) ≡ v =
        read_integral-write k k 0 v pre tail (omega arith)
        ∙ (zero-step (weight k) (v % weight k) ∙ mod-eq_of_lt h) in
      let long : ltb (length (pre ++ (bytes ++ tail))) (length pre + k) ≡ false = ground (
        arith,
        length-append pre (bytes ++ tail),
        length-append bytes tail,
        length-write_integral k v,
      ) in
      rw (long, found) (ap (λ b. read v b) (moved pre tail bytes k (length-write_integral k v)));
  cut = λ pre n short.
      let size = length-take n (write_integral k v) (omega arith) in
      let few : ltb (length (pre ++ take n (write_integral k v))) (length pre + k) ≡ true =
        ground (
          arith,
          size,
          length-append pre (take n (write_integral k v)),
          length-write_integral k v,
        ) in
      rw few refl;
}
  where
    moved :
        (pre tail bytes : List ℕ) (k : ℕ)
        → length bytes ≡ k
        → record { data_ = pre ++ (bytes ++ tail); read_index_ = length pre + k }
          ≡ at (pre ++ bytes) tail
    moved pre tail bytes k e = rw (append_assoc pre bytes tail, length-append pre bytes, e) refl

pub Reads-map :
    {A B : Type 0} {m : Reader A} (f : A → B) {v : A} {bytes : List ℕ}
    → Reads m v bytes
    → Reads (m >>= λ x. return (f x)) (f v) bytes
Reads-map f r = record {
  whole = λ pre tail. rw (r.whole pre tail, ◌>>=◌) refl;
  cut = λ pre n h. rw (r.cut pre n h, ◌>>=◌) refl;
}

pub Reads-u8 : (v : ℕ) → v < 256 → Reads read_u8 v (write_u8 v)
unfolding write_integral
Reads-u8 v h = subst (Reads read_u8 v) one (Reads-unsigned 1 v h)
  where
    one : write_integral 1 v ≡ write_u8 v
    one = ap (λ b. b ∷ []) (omega arith)

pub Reads-bool : (b : Bool) → Reads read_bool b (write_bool b)
Reads-bool true = Reads-map (λ b. not (b == 0)) (Reads-u8 1 (omega arith))
Reads-bool false = Reads-map (λ b. not (b == 0)) (Reads-u8 0 (omega arith))

pub Reads-chars : (str : Text) → Reads (read_chars (length str)) str str
unfolding read_chars
Reads-chars str = record {
  whole = λ pre tail.
      let enough : ltb (remaining (at pre (str ++ tail))) (length str) ≡ false =
        ground (arith, length-append pre (str ++ tail), length-append str tail) in
      let found = ap (take (length str)) (drop-append pre (str ++ tail)) ∙ take_all str tail in
      rw (enough, found) (ap (λ b. read str b) (moved pre tail str));
  cut = λ pre n short.
      let few : ltb (remaining (at pre (take n str))) (length str) ≡ true =
        ground (arith, length-append pre (take n str), length-take n str) in
      rw few refl;
}
  where
    take_all : (xs ys : Text) → take (length xs) (xs ++ ys) ≡ xs
    take_all [] ys = refl
    take_all (x ∷ xs) ys = ap (λ zs. x ∷ zs) (take_all xs ys)

    moved :
        (pre tail bytes : List ℕ)
        → record { data_ = pre ++ (bytes ++ tail); read_index_ = length pre + length bytes }
          ≡ at (pre ++ bytes) tail
    moved pre tail bytes = rw (append_assoc pre bytes tail, length-append pre bytes) refl

pub Reads-string : (str : Text) → length str < weight 8 → Reads read_string str (write_string str)
unfolding read_string write_string
Reads-string str h = Reads-bind read_chars (Reads-unsigned 8 (length str) h) (Reads-chars str)

pub Reads-times :
    {A : Type 0} (item : Reader A) (write : A → List ℕ) (xs : List A)
    → All (λ x. Reads item x (write x)) xs
    → Reads (read_times (length xs) item) xs (write_all write xs)
unfolding read_times write_all
Reads-times item write [] h = Reads-return []
Reads-times item write (x ∷ xs) h =
    Reads-bind _ h.0 (Reads-map (λ ys. x ∷ ys) (Reads-times item write xs h.1))

pub Reads-bytes :
    (bs : List ℕ) → All (λ b. b < 256) bs → Reads (read_times (length bs) read_u8) bs bs
unfolding read_times
Reads-bytes [] h = Reads-return []
Reads-bytes (b ∷ bs) h =
    Reads-bind _ (subst (λ n. Reads read_u8 b (n ∷ [])) (mod-eq_of_lt h.0) (Reads-u8 b h.0))
      (Reads-map (λ xs. b ∷ xs) (Reads-bytes bs h.1))

pub Reads-uuid : (uuid : ℕ) → uuid < weight 16 → Reads read_uuid uuid (write_uuid uuid)
unfolding read_uuid
Reads-uuid uuid h =
    let bytes = write_integral 16 uuid in
    let array : Reads (read_times 16 read_u8) bytes bytes =
      subst (λ n. Reads (read_times n read_u8) bytes bytes) (length-write_integral 16 uuid)
        (Reads-bytes bytes (write_integral-bytes 16 uuid)) in
    let same : number_from 0 bytes ≡ uuid =
      number_from-write_integral 16 0 uuid
      ∙ (zero-step (weight 16) (uuid % weight 16) ∙ mod-eq_of_lt h) in
    subst (λ v. Reads read_uuid v bytes) same (Reads-map (number_from 0) array)
