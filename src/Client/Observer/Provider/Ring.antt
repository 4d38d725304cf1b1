-- ===== src/Client/Observer/Provider/Ring.antt =====
-- The ring of plugin/src/local_player_observer_provider.c as a queue that keeps the last eight.
use f4mp.Base.{
  ℕ, zero, suc, ◌+◌, ◌-◌, ◌%◌, ◌<◌, ◌≤◌, ◌≡◌, ◌≢◌, refl, sym, ap, ◌∙◌, List, [], ◌∷◌, ◌++◌, arith,
  length, drop, Option, none, some, inl, inr, ==_cases, length-append,
}
use f4mp.Client.Movement.{LocalPlayerObservedState}
use f4mp.Client.Observer.Provider.{
  LiveProviderState, write_at, make_room, live_queue_push, live_queue_peek_latest,
}

module _ {A : Type 0} where
  -- The n entries from an index on, around the end.
  abbrev pub read : (ℕ → A) → ℕ → ℕ → List A
  read q h zero = []
  read q h (suc n) = q h ∷ read q ((h + 1) % 8) n

  length-read : (q : ℕ → A) (h n : ℕ) → length (read q h n) ≡ n
  length-read q h zero = refl
  length-read q h (suc n) = ap suc (length-read q ((h + 1) % 8) n)

  write_at_here : (t j : ℕ) (a : A) (q : ℕ → A) → j ≡ t → write_at t a q j ≡ a
  write_at_here t j a q e = ground (arith, e)

  write_at_elsewhere : (t j : ℕ) (a : A) (q : ℕ → A) → j ≢ t → write_at t a q j ≡ q j
  write_at_elsewhere t j a q other = ground arith

  -- What is written behind the entries, which leave a place, comes last.
  read-write_at :
      (q : ℕ → A) (h n t : ℕ) (a : A)
      → h < 8
      → n < 8
      → t ≡ (h + n) % 8
      → read (write_at t a q) h (suc n) ≡ read q h n ++ (a ∷ [])
  read-write_at q h zero t a h_lt n_lt e =
      ap (λ v. v ∷ []) (write_at_here t h a q (omega (arith, e)))
  read-write_at q h (suc n) t a h_lt n_lt e =
      ap (λ v. v ∷ read (write_at t a q) ((h + 1) % 8) (suc n))
        (write_at_elsewhere t h a q (λ same. omega (arith, e, same)))
      ∙ ap (◌∷◌ (q h))
          (read-write_at q ((h + 1) % 8) n t a (omega arith) (omega arith) (omega (arith, e)))

  -- The last n entries of a list.
  abbrev pub latest : ℕ → List A → List A
  latest n xs = drop (length xs - n) xs

  abbrev pub last_of : List A → Option A
  last_of [] = none
  last_of (x ∷ []) = some x
  last_of (x ∷ (y ∷ xs)) = last_of (y ∷ xs)

  drop-nil : (k : ℕ) → drop {A = A} k [] ≡ []
  drop-nil zero = refl
  drop-nil (suc k) = refl

  drop-drop : (m k : ℕ) (xs : List A) → drop m (drop k xs) ≡ drop (k + m) xs
  drop-drop m zero xs = ap (λ k. drop k xs) (omega arith)
  drop-drop m (suc k) [] = drop-nil m ∙ sym (drop-nil (suc k + m))
  drop-drop m (suc k) (x ∷ xs) =
      drop-drop m k xs ∙ ap (λ j. drop {A = A} j (x ∷ xs)) {x = suc (k + m)} (omega arith)

  drop-append : (k : ℕ) (xs ys : List A) → k ≤ length xs → drop k (xs ++ ys) ≡ drop k xs ++ ys
  drop-append zero xs ys le = refl
  drop-append (suc k) [] ys le = ground arith
  drop-append (suc k) (x ∷ xs) ys le = drop-append k xs ys (omega arith)

  length-drop : (k : ℕ) (xs : List A) → length (drop k xs) ≡ length xs - k
  length-drop zero xs = omega arith
  length-drop (suc k) [] = omega arith
  length-drop (suc k) (x ∷ xs) = omega (arith, length-drop k xs)

  -- Of a list whose last entries alone are kept, the last entries after one more are the same.
  pub latest-latest_append :
      (n : ℕ) (xs ys : List A) → latest n (latest n xs ++ ys) ≡ latest n (xs ++ ys)
  latest-latest_append n xs ys =
      let kept = drop-append (length xs - n) xs ys (omega arith) in
      rw (sym kept, drop-drop)
        (ap (λ k. drop k (xs ++ ys))
          (omega (arith, length-drop (length xs - n) (xs ++ ys), length-append xs ys)))

  pub last_of-append : (xs : List A) (a : A) → last_of (xs ++ (a ∷ [])) ≡ some a
  last_of-append [] a = refl
  last_of-append (x ∷ []) a = refl
  last_of-append (x ∷ (y ∷ xs)) a = last_of-append (y ∷ xs) a

  last_of-drop : (k : ℕ) (xs : List A) → k < length xs → last_of (drop k xs) ≡ last_of xs
  last_of-drop zero xs lt = refl
  last_of-drop (suc k) [] lt = ground arith
  last_of-drop (suc k) (x ∷ []) lt = ground arith
  last_of-drop (suc k) (x ∷ (y ∷ xs)) lt = last_of-drop k (y ∷ xs) (omega arith)

  pub last_of-latest : (n : ℕ) (xs : List A) → 0 < n → last_of (latest n xs) ≡ last_of xs
  last_of-latest n [] lt = ap last_of (drop-nil (0 - n))
  last_of-latest n (x ∷ xs) lt = last_of-drop (length (x ∷ xs) - n) (x ∷ xs) (omega arith)

-- What the ring holds, the oldest first.
abbrev pub ring : LiveProviderState → List LocalPlayerObservedState
ring g = read g.queue g.queue_head g.queue_count

pub record IsRing (g : LiveProviderState) : Type 0 where
  pub head : g.queue_head < 8
  pub count : g.queue_count ≤ 8
  pub tail : g.queue_tail ≡ (g.queue_head + g.queue_count) % 8

-- A full ring without its oldest entry, and a ring that is not full.
latest-full :
    {A : Type 0} (q : ℕ → A) (h c : ℕ)
    → c ≡ 8
    → read q ((h + 1) % 8) (c - 1) ≡ latest 7 (read q h c)
latest-full q h c e = rw e refl

latest-short : {A : Type 0} (n : ℕ) (xs : List A) → length xs ≤ n → xs ≡ latest n xs
latest-short n xs le = ap (λ k. drop k xs) {x = 0} (omega arith)

-- What the ring is once there is room: as before, up to the oldest entry of a full one.
record HasRoom (g g' : LiveProviderState) : Type 0 where
  head : g'.queue_head < 8
  count : g'.queue_count < 8
  tail : g'.queue_tail ≡ (g'.queue_head + g'.queue_count) % 8
  kept : ring g' ≡ latest 7 (ring g)

make_room-HasRoom : (g : LiveProviderState) → IsRing g → HasRoom g (make_room g)
unfolding make_room
make_room-HasRoom g w = elim (==_cases g.queue_count 8) [
  | inl (full, e) ↦ rw full (record {
    head = omega arith;
    count = omega (arith, e);
    tail = omega (arith, e, w.head, w.tail);
    kept = latest-full g.queue g.queue_head g.queue_count e;
  })
  | inr (not_full, ne) ↦ rw not_full (record {
    head = w.head;
    count = omega (arith, ne, w.count);
    tail = w.tail;
    kept =
        latest-short 7 (ring g)
          (omega (arith, ne, w.count, length-read g.queue g.queue_head g.queue_count));
  })
]

pub live_queue_push-IsRing :
    (s : LocalPlayerObservedState) (g : LiveProviderState) → IsRing g → IsRing (live_queue_push s g)
unfolding live_queue_push
live_queue_push-IsRing s g w =
    let room = make_room-HasRoom g w in
    record { head = room.head; count = omega (arith, room.count); tail = omega (arith, room.tail) }

-- A push keeps the last eight.
pub ring-live_queue_push :
    (s : LocalPlayerObservedState) (g : LiveProviderState)
    → IsRing g
    → ring (live_queue_push s g) ≡ latest 8 (ring g ++ (s ∷ []))
unfolding live_queue_push
ring-live_queue_push s g w =
    let room = make_room-HasRoom g w in
    let g' = make_room g in
    let count = length-append (ring g) (s ∷ []) in
    ap (read (write_at g'.queue_tail s g'.queue) g'.queue_head) {y = suc g'.queue_count}
      (omega arith)
    ∙ read-write_at g'.queue g'.queue_head g'.queue_count g'.queue_tail s room.head room.count
        room.tail
    ∙ ap (λ xs. xs ++ (s ∷ [])) room.kept
    ∙ sym (drop-append (length (ring g) - 7) (ring g) (s ∷ []) (omega arith))
    ∙ ap (λ k. drop k (ring g ++ (s ∷ []))) (omega (arith, count))

-- The entry before the end is the last.
last_of-read :
    {A : Type 0} (q : ℕ → A) (h n : ℕ) → h < 8 → last_of (read q h (suc n)) ≡ some (q ((h + n) % 8))
last_of-read q h zero lt = ap (λ i. some (q i)) (omega arith)
last_of-read q h (suc n) lt =
    last_of-read q ((h + 1) % 8) n (omega arith) ∙ ap (λ i. some (q i)) (omega arith)

-- The newest is found where it was written last.
pub live_queue_peek_latest-ring :
    (g : LiveProviderState) → IsRing g → live_queue_peek_latest g ≡ last_of (ring g)
unfolding live_queue_peek_latest
live_queue_peek_latest-ring g w = elim (==_cases g.queue_count 0) [
  | inl (empty, e) ↦ rw (empty, e) refl
  | inr (busy, ne) ↦ rw busy (
      sym (
        ap (λ c. last_of (read g.queue g.queue_head c)) {x = g.queue_count}
          {y = suc (g.queue_count - 1)} (omega (arith, ne))
        ∙ last_of-read g.queue g.queue_head (g.queue_count - 1) w.head
        ∙ ap (λ i. some (g.queue i)) {x = (g.queue_head + (g.queue_count - 1)) % 8}
            (omega (arith, ne, w.tail, w.head, w.count))))
]
