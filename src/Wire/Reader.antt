-- ===== src/Wire/Reader.antt =====
-- shared/protocol/packet_reader.c. A read that fails leaves the output unset, and its callers
-- then return without looking at it; so the result is an option beside the reader.
use f4mp.Base.{
  ℕ, ◌+◌, ◌-◌, ◌*◌, Bool, true, false, ◌||◌, not, Option, none, some, List, [], ◌∷◌, ltb, leb, ◌==◌,
  if◌then◌else◌, take, drop,
}

pub record PacketReader : Type 0 where
  pub buffer : List ℕ
  pub length : ℕ
  pub offset : ℕ
  pub overflowed : Bool

-- A C function that takes the reader and an output, and returns a bool.
abbrev pub R : Type 0 → Type 0
R A = PacketReader → Option A × PacketReader

infixl 5 ◌>>=◌
-- `a && b` of two reads, the second of which may use what the first one read.
unfoldable pub ◌>>=◌ : {A B : Type 0} → R A → (A → R B) → R B
◌>>=◌ m f r = let (o, r') = m r in elim o [ none ↦ (none, r') | some a ↦ f a r' ]

-- All reads done: the function returns true with the message filled in.
unfoldable pub done : {A : Type 0} → A → R A
done a r = (some a, r)

-- `return false` with no read.
unfoldable pub fail : {A : Type 0} → R A
fail r = (none, r)

unfoldable pub pr_reserve : ℕ → PacketReader → Bool × PacketReader
pr_reserve len r =
    if r.overflowed || ltb r.length (r.offset + len)
    then (false, record r { overflowed = true })
    else (true, r)

unfoldable pub pr_init : List ℕ → ℕ → PacketReader
pr_init buffer length = record { buffer = buffer; length = length; offset = 0; overflowed = false }

unfoldable pub pr_read_bytes : ℕ → R (List ℕ)
unfolding pr_reserve
pr_read_bytes len r =
    let (ok, r') = pr_reserve len r in
    if ok
    then (some (take len (drop r'.offset r'.buffer)), record r' { offset = r'.offset + len })
    else (none, r')

-- The number that bytes in memory stand for.
abbrev pub of_le_bytes : List ℕ → ℕ
of_le_bytes [] = 0
of_le_bytes (b ∷ bs) = b + 256 * of_le_bytes bs

unfoldable pub pr_read_u8 : R ℕ
pr_read_u8 = pr_read_bytes 1 >>= λ bs. done (of_le_bytes bs)

unfoldable pub pr_read_u16 : R ℕ
pr_read_u16 = pr_read_bytes 2 >>= λ bs. done (of_le_bytes bs)

unfoldable pub pr_read_u32 : R ℕ
pr_read_u32 = pr_read_bytes 4 >>= λ bs. done (of_le_bytes bs)

unfoldable pub pr_read_i8 : R ℕ
pr_read_i8 = pr_read_bytes 1 >>= λ bs. done (of_le_bytes bs)

unfoldable pub pr_read_i16 : R ℕ
pr_read_i16 = pr_read_bytes 2 >>= λ bs. done (of_le_bytes bs)

unfoldable pub pr_read_i32 : R ℕ
pr_read_i32 = pr_read_bytes 4 >>= λ bs. done (of_le_bytes bs)

unfoldable pub pr_read_f32 : R ℕ
pr_read_f32 = pr_read_bytes 4 >>= λ bs. done (of_le_bytes bs)

unfoldable pub pr_read_bool : R Bool
pr_read_bool = pr_read_u8 >>= λ v. done (not (v == 0))

-- The bytes of a char array up to the first zero: what it is as a C string.
abbrev pub c_string : List ℕ → List ℕ
c_string [] = []
c_string (b ∷ bs) = if b == 0 then [] else b ∷ c_string bs

-- `dst[len] = 0` ends the string, if no zero came before it.
unfoldable pub pr_read_string_u16 : ℕ → R (List ℕ)
pr_read_string_u16 dst_capacity = pr_read_u16 >>= λ len r.
    if dst_capacity == 0 || ltb dst_capacity (len + 1)
    then (none, record r { overflowed = true })
    else (pr_read_bytes len >>= λ bs. done (c_string bs)) r

unfoldable pub pr_bytes_remaining : PacketReader → ℕ
pr_bytes_remaining r = if leb r.offset r.length then r.length - r.offset else 0

unfoldable pub pr_ok : PacketReader → Bool
pr_ok r = not r.overflowed
