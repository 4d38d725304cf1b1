-- ===== src/Wire/Codes.antt =====
-- An encoder and a decoder that agree on a value: the encoder writes some bytes where they fit and
-- fails where they do not; the decoder reads exactly those bytes back, whatever stands before and
-- after them, and fails where the input ends inside them.
use mathlib.Core.List.{append_assoc, append-nil}
use native.Mathlib.Decide.{dec_le}
use f4mp.Base.{
  ℕ, ◌+◌, ◌≤◌, ◌<◌, ◌≡◌, ◌≢◌, refl, ap, ◌∙◌, subst, true, false, none, some, ◌⊎◌, inl, inr, List,
  [], ◌∷◌, ◌++◌, arith, length, length-append,
}
use f4mp.Wire.Writer.{PacketWriter, W, ◌and_then◌}
use f4mp.Wire.Reader.{PacketReader, R, ◌>>=◌, done}

-- A writer that holds `front` and has not overflowed.
abbrev pub writer_at : List ℕ → ℕ → PacketWriter
writer_at front capacity = record {
  buffer = front;
  capacity = capacity;
  offset = length front;
  overflowed = false;
}

-- A reader that has consumed `front` and has `rest` left.
abbrev pub reader_at : List ℕ → List ℕ → PacketReader
reader_at front rest = record {
  buffer = front ++ rest;
  length = length (front ++ rest);
  offset = length front;
  overflowed = false;
}

pub record Writes (enc : W) (bs : List ℕ) : Type 0 where
  pub fits :
      (front : List ℕ) (capacity : ℕ)
      → length front + length bs ≤ capacity
      → enc (writer_at front capacity) ≡ (true, writer_at (front ++ bs) capacity)
  pub full :
      (front : List ℕ) (capacity : ℕ)
      → length front ≤ capacity
      → capacity < length front + length bs
      → (enc (writer_at front capacity)).0 ≡ false

pub record Reads {A : Type 0} (dec : R A) (bs : List ℕ) (a : A) : Type 0 where
  pub takes :
      (front rest : List ℕ)
      → dec (reader_at front (bs ++ rest)) ≡ (some a, reader_at (front ++ bs) rest)
  pub cut : (front xs ys : List ℕ) → bs ≡ xs ++ ys → ys ≢ [] → (dec (reader_at front xs)).0 ≡ none

-- `size` is the number of bytes on the wire.
pub record Codes {A : Type 0} (enc : W) (dec : R A) (a : A) (size : ℕ) : Type 0 where
  pub bytes : List ℕ
  pub sized : length bytes ≡ size
  pub writes : Writes enc bytes
  pub reads : Reads dec bytes a

-- A cut through `a ++ b` goes through `a` or through `b`.
prefix_cases {ℓ} :
    {A : Type ℓ} (a b xs ys : List A)
    → a ++ b ≡ xs ++ ys
    → ((zs : List A) × (a ≡ xs ++ zs) × (zs ≢ []))
      ⊎ ((zs : List A) × (xs ≡ a ++ zs) × (b ≡ zs ++ ys))
prefix_cases [] b xs ys e = inr (xs, refl, e)
prefix_cases (x ∷ a) b [] ys e = inl (x ∷ a, refl, λ p. cc)
prefix_cases (x ∷ a) b (y ∷ xs) ys e = elim (prefix_cases a b xs ys (cc)) [
  | inl (zs, p, q) ↦ inl (zs, cc, q)
  | inr (zs, p, q) ↦ inr (zs, cc, q)
]

and_then-true : (a b : W) (w w' : PacketWriter) → a w ≡ (true, w') → (a and_then b) w ≡ b w'
unfolding ◌and_then◌
and_then-true a b w w' e = rw (e, ◌and_then◌) (ap (λ p. b p.1) e)

and_then-false : (a b : W) (w : PacketWriter) → (a w).0 ≡ false → ((a and_then b) w).0 ≡ false
unfolding ◌and_then◌
and_then-false a b w e = rw (e, ◌and_then◌) refl

>>=-some :
    {A B : Type 0} (m : R A) (f : A → R B) (r r' : PacketReader) (a : A)
    → m r ≡ (some a, r')
    → (m >>= f) r ≡ f a r'
unfolding ◌>>=◌
>>=-some m f r r' a e = rw (e, ◌>>=◌) (ap (λ p. f a p.1) e)

>>=-none :
    {A B : Type 0} (m : R A) (f : A → R B) (r : PacketReader)
    → (m r).0 ≡ none
    → ((m >>= f) r).0 ≡ none
unfolding ◌>>=◌
>>=-none m f r e = rw (e, ◌>>=◌) refl

pub Writes-and_then :
    (e es : W) (xs ys : List ℕ) → Writes e xs → Writes es ys → Writes (e and_then es) (xs ++ ys)
Writes-and_then e es xs ys h k = record { fits = both; full = one }
  where
    both :
        (front : List ℕ) (capacity : ℕ)
        → length front + length (xs ++ ys) ≤ capacity
        → (e and_then es) (writer_at front capacity)
          ≡ (true, writer_at (front ++ (xs ++ ys)) capacity)
    both front capacity room =
        let sizes = length-append xs ys in
        let grown = length-append front xs in
        and_then-true e es _ _ (h.fits front capacity (omega arith))
        ∙ k.fits (front ++ xs) capacity (omega arith)
        ∙ ap (λ t. (true, writer_at t capacity)) (append_assoc front xs ys)

    one :
        (front : List ℕ) (capacity : ℕ)
        → length front ≤ capacity
        → capacity < length front + length (xs ++ ys)
        → ((e and_then es) (writer_at front capacity)).0 ≡ false
    one front capacity room small =
        let sizes = length-append xs ys in
        let grown = length-append front xs in
        elim (dec_le (length front + length xs) capacity) [
          | yes p ↦
              ap (λ t. t.0) (and_then-true e es _ _ (h.fits front capacity p))
              ∙ k.full (front ++ xs) capacity (omega arith) (omega arith)
          | no p ↦ and_then-false e es _ (h.full front capacity room (omega arith))
        ]

pub Reads-bind :
    {A B : Type 0} (d : R A) (f : A → R B) (xs ys : List ℕ) (a : A) (b : B)
    → Reads d xs a
    → Reads (f a) ys b
    → Reads (d >>= f) (xs ++ ys) b
Reads-bind {A} {B} d f xs ys a b h k = record { takes = both; cut = broken }
  where
    both :
        (front rest : List ℕ)
        → (d >>= f) (reader_at front ((xs ++ ys) ++ rest))
          ≡ (some b, reader_at (front ++ (xs ++ ys)) rest)
    both front rest =
        ap (λ t. (d >>= f) (reader_at front t)) (append_assoc xs ys rest)
        ∙ >>=-some d f _ _ a (h.takes front (ys ++ rest))
        ∙ k.takes (front ++ xs) rest
        ∙ ap (λ t. (some b, reader_at t rest)) (append_assoc front xs ys)

    broken :
        (front us vs : List ℕ)
        → xs ++ ys ≡ us ++ vs
        → vs ≢ []
        → ((d >>= f) (reader_at front us)).0 ≡ none
    broken front us vs e ne = elim (prefix_cases xs ys us vs e) [
      | inl (zs, p, q) ↦ >>=-none d f _ (h.cut front us zs p q)
      | inr (zs, p, q) ↦
          ap (λ t. ((d >>= f) (reader_at front t)).0) p
          ∙ ap (λ t. t.0) (>>=-some d f _ _ a (h.takes front zs))
          ∙ k.cut (front ++ xs) zs vs q ne
    ]

pub Codes-cons :
    {A B : Type 0} (f : A → R B) {e es : W} {d : R A} {a : A} {b : B} {n m : ℕ}
    → Codes e d a n
    → Codes es (f a) b m
    → Codes (e and_then es) (d >>= f) b (n + m)
Codes-cons f {e} {es} {d} {a} {b} h k = record {
  bytes = h.bytes ++ k.bytes;
  sized = omega (arith, length-append h.bytes k.bytes, h.sized, k.sized);
  writes = Writes-and_then e es h.bytes k.bytes h.writes k.writes;
  reads = Reads-bind d f h.bytes k.bytes a b h.reads k.reads;
}

pub done-Reads : {A : Type 0} (a : A) → Reads (done a) [] a
unfolding done
done-Reads a = record {
  takes = λ front rest. rw append-nil refl;
  cut = λ front xs ys e ne. absurd (ne (tail_nil xs ys e));
}
  where
    tail_nil : (xs ys : List ℕ) → [] ≡ xs ++ ys → ys ≡ []
    tail_nil [] ys e = cc
    tail_nil (x ∷ xs) ys e = cc

pub Codes-map :
    {A B : Type 0} {e : W} {d : R A} {a : A} {n : ℕ} (f : A → B)
    → Codes e d a n
    → Codes e (d >>= λ x. done (f x)) (f a) n
Codes-map {B = B} {e} {d} {a} f h = record {
  bytes = h.bytes;
  sized = h.sized;
  writes = h.writes;
  reads =
      subst (λ t. Reads (d >>= λ x. done {A = B} (f x)) t (f a)) (append-nil h.bytes)
        (Reads-bind d (λ x. done (f x)) h.bytes [] a (f a) h.reads (done-Reads (f a)));
}

pub Codes-resize :
    {A : Type 0} {e : W} {d : R A} {a : A} {n m : ℕ} → n ≡ m → Codes e d a n → Codes e d a m
Codes-resize {e = e} {d} {a} p h = subst (Codes e d a) p h

pub Codes-value :
    {A : Type 0} {e : W} {d : R A} {a b : A} {n : ℕ} → a ≡ b → Codes e d a n → Codes e d b n
Codes-value {e = e} {d = d} {n = n} p h = subst (λ t. Codes e d t n) p h
