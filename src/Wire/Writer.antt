-- ===== src/Wire/Writer.antt =====
-- shared/protocol/packet_writer.c. The buffer is the list of the bytes written so far, so that
-- `offset` counts them; a fixed-width number goes out as the machine lays it out, low byte first.
use f4mp.Base.{
  ℕ, zero, suc, ◌+◌, ◌/◌, ◌%◌, Bool, true, false, ◌||◌, List, [], ◌∷◌, ◌++◌, ltb, if◌then◌else◌,
  length,
}

pub record PacketWriter : Type 0 where
  pub buffer : List ℕ
  pub capacity : ℕ
  pub offset : ℕ
  pub overflowed : Bool

-- A C function that takes the writer and returns a bool.
abbrev pub W : Type 0
W = PacketWriter → Bool × PacketWriter

infixr 35 ◌and_then◌
-- `a && b`: the second call is made only if the first one returns true.
unfoldable pub ◌and_then◌ : W → W → W
◌and_then◌ a b w = let (ok, w') = a w in elim ok [ true ↦ b w' | false ↦ (false, w') ]

unfoldable pub pw_reserve : ℕ → W
pw_reserve len w =
    if w.overflowed || ltb w.capacity (w.offset + len)
    then (false, record w { overflowed = true })
    else (true, w)

unfoldable pub pw_init : ℕ → PacketWriter
pw_init capacity = record { buffer = []; capacity = capacity; offset = 0; overflowed = false }

unfoldable pub pw_write_bytes : List ℕ → W
unfolding pw_reserve
pw_write_bytes src w =
    let (ok, w') = pw_reserve (length src) w in
    if ok
    then (true, record w' { buffer = w'.buffer ++ src; offset = w'.offset + length src })
    else (false, w')

-- The bytes of an n-byte number in memory.
abbrev pub le_bytes : ℕ → ℕ → List ℕ
le_bytes zero v = []
le_bytes (suc n) v = (v % 256) ∷ le_bytes n (v / 256)

unfoldable pub pw_write_u8 : ℕ → W
pw_write_u8 v = pw_write_bytes (le_bytes 1 v)

unfoldable pub pw_write_u16 : ℕ → W
pw_write_u16 v = pw_write_bytes (le_bytes 2 v)

unfoldable pub pw_write_u32 : ℕ → W
pw_write_u32 v = pw_write_bytes (le_bytes 4 v)

-- A signed number is given by its bit pattern.
unfoldable pub pw_write_i8 : ℕ → W
pw_write_i8 v = pw_write_bytes (le_bytes 1 v)

unfoldable pub pw_write_i16 : ℕ → W
pw_write_i16 v = pw_write_bytes (le_bytes 2 v)

unfoldable pub pw_write_i32 : ℕ → W
pw_write_i32 v = pw_write_bytes (le_bytes 4 v)

-- A float is given by the bits that `memcpy` moves.
unfoldable pub pw_write_f32 : ℕ → W
pw_write_f32 v = pw_write_bytes (le_bytes 4 v)

unfoldable pub pw_write_bool : Bool → W
pw_write_bool v = pw_write_u8 (if v then 1 else 0)

-- A C string is the list of its bytes before the terminating zero.
unfoldable pub pw_write_string_u16 : List ℕ → W
pw_write_string_u16 utf8 w =
    if ltb 65535 (length utf8)
    then (false, record w { overflowed = true })
    else (pw_write_u16 (length utf8) and_then pw_write_bytes utf8) w

unfoldable pub pw_bytes_written : PacketWriter → ℕ
pw_bytes_written w = w.offset
