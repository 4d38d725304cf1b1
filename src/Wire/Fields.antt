-- ===== src/Wire/Fields.antt =====
-- The fields that messages are made of, each read back as it was written.
use native.Mathlib.Nat.{pow-suc}
use mathlib.Core.List.{append_assoc}
use mathlib.Core.Path.{subst₂, subst}
use mathlib.Core.List.{append-nil}
use f4mp.Base.{
  ℕ, zero, suc, ◌+◌, ◌/◌, ◌^◌, ◌<◌, ◌≡◌, ◌≢◌, refl, ap, fun_ext, Bool, true, false, none, List, [],
  ◌∷◌, ◌++◌, ◌||◌, ◌==◌, ltb, if◌then◌else◌, arith, length, length-append, take-length_append,
  drop-length_append, All,
}
use f4mp.Wire.Writer.{
  ◌and_then◌, pw_write_bytes, pw_write_u8, pw_write_u16, pw_write_u32, pw_write_i8, pw_write_i16,
  pw_write_f32, pw_write_bool, pw_write_string_u16, le_bytes,
}
use f4mp.Wire.Reader.{
  R, ◌>>=◌, done, pr_read_bytes, pr_read_u8, pr_read_u16, pr_read_u32, pr_read_i8, pr_read_i16,
  pr_read_f32, pr_read_bool, pr_read_string_u16, of_le_bytes, c_string,
}
use f4mp.Wire.Codes.{
  Reads-bind, done-Reads, Writes, Reads, Codes, Codes-cons, Codes-map, Codes-value, reader_at,
}

bytes-Writes : (bs : List ℕ) → Writes (pw_write_bytes bs) bs
unfolding pw_write_bytes
bytes-Writes bs = record {
  fits = λ front capacity room. ground (arith, length-append front bs);
  full = λ front capacity room small. ground arith;
}

ne_nil-length {ℓ} : {A : Type ℓ} (ys : List A) → ys ≢ [] → 0 < length ys
ne_nil-length [] h = absurd (h refl)
ne_nil-length (y ∷ ys) h = omega arith

bytes_cut :
    (n : ℕ) (front xs : List ℕ) → length xs < n → (pr_read_bytes n (reader_at front xs)).0 ≡ none
unfolding pr_read_bytes
bytes_cut n front xs h = ground (arith, length-append front xs)

bytes-Reads : (bs : List ℕ) → Reads (pr_read_bytes (length bs)) bs bs
unfolding pr_read_bytes
bytes-Reads bs = record {
  takes = λ front rest. ground (
    arith,
    length-append front (bs ++ rest),
    length-append bs rest,
    drop-length_append front (bs ++ rest),
    take-length_append bs rest,
    append_assoc front bs rest,
    length-append front bs,
  );
  cut = λ front xs ys e ne.
      bytes_cut (length bs) front xs
        (omega (arith, ap length e, length-append xs ys, ne_nil-length ys ne));
}

pub bytes-Codes :
    (bs : List ℕ) {n : ℕ} → length bs ≡ n → Codes (pw_write_bytes bs) (pr_read_bytes n) bs n
bytes-Codes bs e =
    rw (← e) (record { bytes = bs; sized = refl; writes = bytes-Writes bs; reads = bytes-Reads bs })

pub length-le_bytes : (n v : ℕ) → length (le_bytes n v) ≡ n
length-le_bytes zero v = refl
length-le_bytes (suc n) v = ap suc (length-le_bytes n (v / 256))

pub of_le_bytes-le_bytes : (n v : ℕ) → v < 256 ^ n → of_le_bytes (le_bytes n v) ≡ v
of_le_bytes-le_bytes zero v h = omega arith
of_le_bytes-le_bytes (suc n) v h =
    omega (arith, of_le_bytes-le_bytes n (v / 256) (omega (arith, pow-suc 256 n)))

number-Codes :
    (n v : ℕ)
    → v < 256 ^ n
    → Codes (pw_write_bytes (le_bytes n v)) (pr_read_bytes n >>= λ bs. done (of_le_bytes bs)) v n
number-Codes n v h =
    Codes-value (of_le_bytes-le_bytes n v h)
      (Codes-map of_le_bytes (bytes-Codes (le_bytes n v) (length-le_bytes n v)))

pub u8-Codes : (v : ℕ) → v < 2 ^ 8 → Codes (pw_write_u8 v) pr_read_u8 v 1
unfolding pw_write_u8 pr_read_u8
u8-Codes v h = number-Codes 1 v h

pub u16-Codes : (v : ℕ) → v < 2 ^ 16 → Codes (pw_write_u16 v) pr_read_u16 v 2
unfolding pw_write_u16 pr_read_u16
u16-Codes v h = number-Codes 2 v h

-- The two bytes of a 16-bit number, as they are written and as they are read.
pub u16-Writes : (v : ℕ) → Writes (pw_write_u16 v) (le_bytes 2 v)
unfolding pw_write_u16
u16-Writes v = bytes-Writes (le_bytes 2 v)

two_bytes : (bs : List ℕ) → length bs ≡ 2 → Reads (pr_read_bytes 2) bs bs
two_bytes bs e = subst (λ n. Reads (pr_read_bytes n) bs bs) e (bytes-Reads bs)

pub u16-Reads : (v : ℕ) → v < 2 ^ 16 → Reads pr_read_u16 (le_bytes 2 v) v
unfolding pr_read_u16
u16-Reads v h =
    subst₂ (λ bs n. Reads (pr_read_bytes 2 >>= λ x. done (of_le_bytes x)) bs n)
      (append-nil (le_bytes 2 v)) (of_le_bytes-le_bytes 2 v h)
      (Reads-bind (pr_read_bytes 2) (λ x. done (of_le_bytes x)) (le_bytes 2 v) [] (le_bytes 2 v)
        (of_le_bytes (le_bytes 2 v)) (two_bytes (le_bytes 2 v) (length-le_bytes 2 v))
        (done-Reads (of_le_bytes (le_bytes 2 v))))

pub u32-Codes : (v : ℕ) → v < 2 ^ 32 → Codes (pw_write_u32 v) pr_read_u32 v 4
unfolding pw_write_u32 pr_read_u32
u32-Codes v h = number-Codes 4 v h

pub i8-Codes : (v : ℕ) → v < 2 ^ 8 → Codes (pw_write_i8 v) pr_read_i8 v 1
unfolding pw_write_i8 pr_read_i8
i8-Codes v h = number-Codes 1 v h

pub i16-Codes : (v : ℕ) → v < 2 ^ 16 → Codes (pw_write_i16 v) pr_read_i16 v 2
unfolding pw_write_i16 pr_read_i16
i16-Codes v h = number-Codes 2 v h

pub f32-Codes : (v : ℕ) → v < 2 ^ 32 → Codes (pw_write_f32 v) pr_read_f32 v 4
unfolding pw_write_f32 pr_read_f32
f32-Codes v h = number-Codes 4 v h

pub bool-Codes : (v : Bool) → Codes (pw_write_bool v) pr_read_bool v 1
unfolding pw_write_bool pr_read_bool
bool-Codes true = Codes-map _ (u8-Codes 1 (omega arith))
bool-Codes false = Codes-map _ (u8-Codes 0 (omega arith))

-- The bytes of a C string: none of them is zero.
abbrev pub IsCString : List ℕ → Type 0
IsCString = All (λ b. 0 < b)

pub c_string-IsCString : (s : List ℕ) → IsCString s → c_string s ≡ s
c_string-IsCString [] h = refl
c_string-IsCString (b ∷ bs) h = ground (arith, c_string-IsCString bs h.1)

short_write :
    (s : List ℕ)
    → length s < 65536
    → pw_write_string_u16 s ≡ (pw_write_u16 (length s) and_then pw_write_bytes s)
unfolding pw_write_string_u16
short_write s h = fun_ext λ w. ground arith

string_body : ℕ → ℕ → R (List ℕ)
string_body cap len r =
    if cap == 0 || ltb cap (len + 1)
    then (none, record r { overflowed = true })
    else (pr_read_bytes len >>= λ bs. done (c_string bs)) r

roomy_body :
    (cap len : ℕ)
    → len < cap
    → string_body cap len ≡ (pr_read_bytes len >>= λ bs. done (c_string bs))
unfolding string_body
roomy_body cap len h = fun_ext λ r. ground arith

read_as_body : (cap : ℕ) → pr_read_string_u16 cap ≡ (pr_read_u16 >>= string_body cap)
unfolding pr_read_string_u16 string_body
read_as_body cap = refl

-- A string goes through if it is shorter than the receiving array and than 65536 bytes.
pub string_u16-Codes :
    (s : List ℕ) (cap : ℕ)
    → IsCString s
    → length s < cap
    → length s < 65536
    → Codes (pw_write_string_u16 s) (pr_read_string_u16 cap) s (2 + length s)
string_u16-Codes s cap good room short =
    rw (short_write s short, read_as_body cap)
      (Codes-cons (string_body cap) (u16-Codes (length s) short) (
        rw (roomy_body cap (length s) room)
          (Codes-value (c_string-IsCString s good) (Codes-map c_string (bytes-Codes s refl)))))
