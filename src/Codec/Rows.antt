-- ===== src/Codec/Rows.antt =====
-- The loops of shared/protocol/packet_codec.c over arrays of records.
use f4mp.Base.{
  ℕ, zero, suc, ◌+◌, ◌≤◌, ◌≡◌, refl, true, false, List, [], ◌∷◌, arith, length, map, All, ltb,
  if◌then◌else◌,
}
use mathlib.Core.List.{append-nil}
use f4mp.Wire.Writer.{W, ◌and_then◌}
use f4mp.Wire.Reader.{R, ◌>>=◌, done, fail}
use f4mp.Wire.Codes.{Codes, Codes-cons, Codes-map, done-Reads}

-- A loop that ends without a failed write, and one that reads past its array.
unfoldable pub pass : W
pass w = (true, w)

unfoldable pub halt : W
halt w = (false, w)

-- `for (i = 0; i < count; ++i) if (!write(rows[i])) return false;`. The C array has `count` rows;
-- where the list has fewer, the C program reads past the array, and the model returns false.
unfoldable pub write_rows : {A : Type 0} → (A → W) → ℕ → List A → W
write_rows row zero rows = pass
write_rows row (suc count) [] = halt
write_rows row (suc count) (a ∷ rows) = row a and_then write_rows row count rows

-- `for (i = 0; i < count; ++i) if (!read(&rows_out[i])) return false;`
unfoldable pub read_rows : {A : Type 0} → R A → ℕ → R (List A)
read_rows row zero = done []
read_rows row (suc count) = row >>= λ a. read_rows row count >>= λ rows. done (a ∷ rows)

-- The bytes of all rows together.
abbrev pub total {ℓ} : {A : Type ℓ} → (A → ℕ) → List A → ℕ
total size [] = 0
total size (a ∷ rows) = size a + total size rows

pass-Codes : {A : Type 0} (a : A) → Codes pass (done a) a 0
unfolding pass
pass-Codes a = record {
  bytes = [];
  sized = refl;
  writes = record {
    fits = λ front capacity room. rw append-nil;
    full = λ front capacity room small. absurd (omega arith);
  };
  reads = done-Reads a;
}

-- Rows that are each read back as `back` of what was written are so as a whole.
sent_rows-Codes :
    {A B : Type 0} (back : A → B) (size : A → ℕ) (P : A → Type 0) (enc : A → W) (dec : R B)
    → ((a : A) → P a → Codes (enc a) dec (back a) (size a))
    → (rows : List A) → All P rows
    → Codes
        (write_rows enc (length rows) rows)
        (read_rows dec (length rows))
        (map back rows)
        (total size rows)
unfolding write_rows read_rows
sent_rows-Codes back size P enc dec each [] good = pass-Codes []
sent_rows-Codes back size P enc dec each (a ∷ rows) good =
    Codes-cons _ (each a good.0)
      (Codes-map _ (sent_rows-Codes back size P enc dec each rows good.1))

rows-Codes :
    {A : Type 0} (size : A → ℕ) (P : A → Type 0) (enc : A → W) (dec : R A)
    → ((a : A) → P a → Codes (enc a) dec a (size a))
    → (rows : List A) → All P rows
    → Codes (write_rows enc (length rows) rows) (read_rows dec (length rows)) rows (total size rows)
unfolding write_rows read_rows
rows-Codes size P enc dec each [] good = pass-Codes []
rows-Codes size P enc dec each (a ∷ rows) good =
    Codes-cons _ (each a good.0) (Codes-map _ (rows-Codes size P enc dec each rows good.1))

-- `if (count > max) return false;` before a loop.
unfoldable pub read_at_most : {A : Type 0} → ℕ → R A → ℕ → R A
read_at_most max body count = if ltb max count then fail else body

read_at_most_lem :
    {A : Type 0} (max count : ℕ) (body : R A) → count ≤ max → read_at_most max body count ≡ body
unfolding read_at_most
read_at_most_lem max count body h = ground arith

-- An array with its count before it, which the receiver checks against the room it has.
pub sent_array-Codes :
    {A B : Type 0} (back : A → B) (size : A → ℕ) (P : A → Type 0) (enc : A → W) (dec : R B)
    → ((a : A) → P a → Codes (enc a) dec (back a) (size a))
    → (rows : List A) → All P rows
    → (count max : ℕ) → count ≡ length rows
    → count ≤ max
    → Codes
        (write_rows enc count rows)
        (read_at_most max (read_rows dec count) count)
        (map back rows)
        (total size rows)
sent_array-Codes back size P enc dec each rows good count max e room =
    rw (read_at_most_lem max count (read_rows dec count) room, e)
      (sent_rows-Codes back size P enc dec each rows good)

pub array-Codes :
    {A : Type 0} (size : A → ℕ) (P : A → Type 0) (enc : A → W) (dec : R A)
    → ((a : A) → P a → Codes (enc a) dec a (size a))
    → (rows : List A) → All P rows
    → (count max : ℕ) → count ≡ length rows
    → count ≤ max
    → Codes
        (write_rows enc count rows)
        (read_at_most max (read_rows dec count) count)
        rows
        (total size rows)
array-Codes size P enc dec each rows good count max e room =
    rw (read_at_most_lem max count (read_rows dec count) room, e)
      (rows-Codes size P enc dec each rows good)
