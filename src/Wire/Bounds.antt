-- ===== src/Wire/Bounds.antt =====
-- What a read keeps to, whatever the input holds.
use f4mp.Base.{
  ℕ, zero, suc, ◌+◌, ◌≤◌, ◌<◌, ◌≡◌, refl, subst, Option, none, some, List, [], ◌∷◌, arith, length,
  take, drop, ◌==◌, ltb, ◌||◌, Bool-cases, inl, inr,
}
use f4mp.Wire.Reader.{
  PacketReader, R, ◌>>=◌, done, pr_reserve, pr_read_bytes, pr_read_u16, pr_read_string_u16,
  c_string,
}

c_string-length : (s : List ℕ) → length (c_string s) ≤ length s
c_string-length [] = omega arith
c_string-length (b ∷ bs) = ground (arith, c_string-length bs)

take-length_le {ℓ} : {A : Type ℓ} (n : ℕ) (xs : List A) → length (take n xs) ≤ n
take-length_le zero xs = omega arith
take-length_le (suc n) [] = omega arith
take-length_le (suc n) (x ∷ xs) = omega (arith, take-length_le n xs)

-- A read that succeeds hands over at most the bytes it asked for, moves on by just as many, and stays
-- inside the input.
pub pr_read_bytes-bound :
    (n : ℕ) (r r' : PacketReader) (bs : List ℕ)
    → pr_read_bytes n r ≡ (some bs, r')
    → (length bs ≤ n)
      × (r'.offset ≡ r.offset + n)
      × (r'.offset ≤ r'.length)
      × (r'.length ≡ r.length)
unfolding pr_read_bytes pr_reserve
pr_read_bytes-bound n r r' bs e = ground (arith, take-length_le n (drop r.offset r.buffer))

-- Two reads in a row succeed only if both do.
pub >>=-inversion :
    {A B : Type 0} (m : R A) (f : A → R B) (r r' : PacketReader) (b : B)
    → (m >>= f) r ≡ (some b, r')
    → (a : A) × (r₁ : PacketReader) × (m r ≡ (some a, r₁)) × (f a r₁ ≡ (some b, r'))
unfolding ◌>>=◌
>>=-inversion {A} {B} m f r r' b e = go (m r) refl e
  where
    go :
        (p : Option A × PacketReader)
        → m r ≡ p
        → ◌≡◌ {A = Option B × PacketReader}
            (elim p.0 [ none ↦ (none, p.1) | some a ↦ f a p.1 ])
            (some b, r')
        → (a : A) × (r₁ : PacketReader) × (m r ≡ (some a, r₁)) × (f a r₁ ≡ (some b, r'))
    go (none, r₁) h k = absurd (cc)
    go (some a, r₁) h k = (a, r₁, h, k)

pub done-value : {A : Type 0} (a b : A) (r r' : PacketReader) → done a r ≡ (some b, r') → a ≡ b
unfolding done
done-value a b r r' e = cc

text_bound :
    (cap len : ℕ) (r r' : PacketReader) (s : List ℕ)
    → (pr_read_bytes len >>= λ bs. done (c_string bs)) r ≡ (some s, r')
    → len < cap
    → length s < cap
text_bound cap len r r' s e h =
    let (bs, r₁, p, q) = >>=-inversion (pr_read_bytes len) (λ bs. done (c_string bs)) r r' s e in
    let (short, _, _, _) = pr_read_bytes-bound len r r₁ bs p in
    subst (λ t. length t < cap) (done-value (c_string bs) s r₁ r' q)
      (omega (arith, c_string-length bs))

-- A string that is read fits the array it goes to, with its terminating zero.
pub pr_read_string_u16-bound :
    (cap : ℕ) (r r' : PacketReader) (s : List ℕ)
    → pr_read_string_u16 cap r ≡ (some s, r')
    → length s < cap
unfolding pr_read_string_u16
pr_read_string_u16-bound cap r r' s e =
    let (len, r₁, p, q) = >>=-inversion pr_read_u16 _ r r' s e in
    elim (Bool-cases (cap == 0 || ltb cap (len + 1))) [
      | inl t ↦ absurd (ground arith)
      | inr t ↦ text_bound cap len r₁ r' s (ground arith) (ground arith)
    ]
