-- ===== src/Client/Table/Laws.antt =====
-- The slot arrays keep at most one record in use for an id, and act as the abstract map.
use f4mp.Base.{
  ℕ, ◌+◌, ◌≤◌, ◌<◌, ◌≡◌, refl, ap, ◌∙◌, Bool, true, false, none, some, List, [], ◌∷◌, ◌==◌, arith,
  length, inl, inr, Bool-cases, Option-cases, subst,
}
use f4mp.Service.Slots.{
  find_first, update_first, count_if, is_some, find_first-update_other, find_first-update_first,
  length-update_first, find_first-update_first_new, find_first-test,
}
use f4mp.Client.Table.{Keyed, holds, is_free, get, used_count, write_slot}

module _ {A : Type 0} ⦃k : Keyed A⦄ where
  -- No two records in use have the same id.
  abbrev pub IsTable : List A → Type 0
  IsTable xs = (id : ℕ) → count_if (holds id) xs ≤ 1

  pub get-found : (id : ℕ) (xs : List A) (a : A) → get id xs ≡ some a → holds id a ≡ true
  unfolding get
  get-found id xs a e = find_first-test (holds id) xs a e

  pub write_slot-held :
      (id : ℕ) (f : A → A) (xs : List A) (a : A)
      → get id xs ≡ some a
      → write_slot id f xs ≡ update_first (holds id) f xs
  unfolding write_slot
  write_slot-held id f xs a e = ground arith

  pub write_slot-free :
      (id : ℕ) (f : A → A) (xs : List A)
      → get id xs ≡ none
      → write_slot id f xs ≡ update_first is_free f xs
  unfolding write_slot
  write_slot-free id f xs e = ground arith

  -- Another id is not found in the slot of this one, before or after a write that keeps the key.
  pub get-write_other :
      (id other : ℕ) (f : A → A) (xs : List A)
      → (other == id) ≡ false
      → ((a : A) → holds id a ≡ true → holds other (f a) ≡ false)
      → ((a : A) → is_free a ≡ true → holds other (f a) ≡ false)
      → get other (write_slot id f xs) ≡ get other xs
  unfolding get
  get-write_other id other f xs ne kept fresh = elim (Option-cases (get id xs)) [
    | inl e ↦
        ap (find_first (holds other)) (write_slot-free id f xs e)
        ∙ find_first-update_other is_free (holds other) f xs (λ a h. ground arith) fresh
    | inr (a, e) ↦
        ap (find_first (holds other)) (write_slot-held id f xs a e)
        ∙ find_first-update_other (holds id) (holds other) f xs (λ a h. ground arith) kept
  ]

  -- What is found under the id of a write.
  pub get-write_held :
      (id : ℕ) (f : A → A) (xs : List A) (a : A)
      → get id xs ≡ some a
      → holds id (f a) ≡ true
      → get id (write_slot id f xs) ≡ some (f a)
  unfolding get
  get-write_held id f xs a e h =
      ap (find_first (holds id)) (write_slot-held id f xs a e)
      ∙ find_first-update_first (holds id) f xs a e h

  get-write_free :
      (id : ℕ) (v : A) (xs : List A)
      → get id xs ≡ none
      → is_some (find_first is_free xs) ≡ true
      → holds id v ≡ true
      → get id (write_slot id (λ _. v) xs) ≡ some v
  unfolding get
  get-write_free id v xs e room h =
      ap (find_first (holds id)) (write_slot-free id (λ _. v) xs e)
      ∙ find_first-update_first_new is_free (holds id) v xs e room h

  length-write_slot : (id : ℕ) (f : A → A) (xs : List A) → length (write_slot id f xs) ≡ length xs
  unfolding write_slot
  length-write_slot id f xs =
      ground (arith, length-update_first is_free f xs, length-update_first (holds id) f xs)

  -- Sizes: a write in place keeps the used_count, a new record adds one, a clear takes one away.
  pub count-held :
      (id : ℕ) (f : A → A) (xs : List A) (a : A)
      → get id xs ≡ some a
      → ((b : A) → holds id b ≡ true → k.in_use (f b) ≡ true)
      → used_count (update_first (holds id) f xs) ≡ used_count xs
  unfolding used_count count_if get find_first update_first
  count-held id f [] a e h = refl
  count-held id f (x ∷ xs) a e h = ground (arith, h x, count-held id f xs a)

  pub count-clear :
      (id : ℕ) (f : A → A) (xs : List A) (a : A)
      → get id xs ≡ some a
      → ((b : A) → holds id b ≡ true → k.in_use (f b) ≡ false)
      → used_count (update_first (holds id) f xs) + 1 ≡ used_count xs
  unfolding used_count count_if get find_first update_first
  count-clear id f [] a e h = cc
  count-clear id f (x ∷ xs) a e h = ground (arith, h x, count-clear id f xs a)

  pub count-new :
      (f : A → A) (xs : List A) (a : A)
      → find_first is_free xs ≡ some a
      → ((b : A) → is_free b ≡ true → k.in_use (f b) ≡ true)
      → used_count (update_first is_free f xs) ≡ used_count xs + 1
  unfolding used_count count_if find_first update_first
  count-new f [] a e h = cc
  count-new f (x ∷ xs) a e h = ground (arith, h x, count-new f xs a)

  pub count-room : (xs : List A) → find_first is_free xs ≡ none → used_count xs ≡ length xs
  unfolding used_count count_if find_first
  count-room [] e = refl
  count-room (x ∷ xs) e = ground (arith, count-room xs)

  count-bound : (xs : List A) → used_count xs ≤ length xs
  unfolding used_count count_if
  count-bound [] = omega arith
  count-bound (x ∷ xs) = ground (arith, count-bound xs)

  pub count-free :
      (xs : List A) (a : A) → find_first is_free xs ≡ some a → used_count xs < length xs
  unfolding used_count count_if find_first
  count-free [] a e = cc
  count-free (x ∷ xs) a e = ground (arith, count-free xs a, count-bound xs)

  -- Writes of a slot: how the number of slots that pass a test changes.
  count_if-keeps :
      (test p : A → Bool) (f : A → A) (xs : List A)
      → ((a : A) → test a ≡ true → p (f a) ≡ true → p a ≡ true)
      → count_if p (update_first test f xs) ≤ count_if p xs
  unfolding count_if update_first
  count_if-keeps test p f [] h = omega arith
  count_if-keeps test p f (x ∷ xs) h = ground (arith, h x, count_if-keeps test p f xs h)

  count_if-one_more :
      (test p : A → Bool) (f : A → A) (xs : List A)
      → count_if p (update_first test f xs) ≤ count_if p xs + 1
  unfolding count_if update_first
  count_if-one_more test p f [] = omega arith
  count_if-one_more test p f (x ∷ xs) = ground (arith, count_if-one_more test p f xs)

  count_if-one_less :
      (p : A → Bool) (f : A → A) (xs : List A) (a : A)
      → find_first p xs ≡ some a
      → ((b : A) → p b ≡ true → p (f b) ≡ false)
      → count_if p (update_first p f xs) + 1 ≡ count_if p xs
  unfolding count_if update_first find_first
  count_if-one_less p f [] a e h = cc
  count_if-one_less p f (x ∷ xs) a e h = ground (arith, h x, count_if-one_less p f xs a)

  count_if-none : (p : A → Bool) (xs : List A) → find_first p xs ≡ none → count_if p xs ≡ 0
  unfolding count_if find_first
  count_if-none p [] e = refl
  count_if-none p (x ∷ xs) e = ground (arith, count_if-none p xs)

  find_first-zero : (p : A → Bool) (xs : List A) → count_if p xs ≡ 0 → find_first p xs ≡ none
  unfolding count_if find_first
  find_first-zero p [] e = refl
  find_first-zero p (x ∷ xs) e = ground (arith, find_first-zero p xs)

  pub keeps-IsTable :
      (test : A → Bool) (f : A → A) (xs : List A)
      → ((a : A) (id : ℕ) → test a ≡ true → holds id (f a) ≡ true → holds id a ≡ true)
      → IsTable xs
      → IsTable (update_first test f xs)
  keeps-IsTable test f xs h t =
      λ id. omega (arith, t id, count_if-keeps test (holds id) f xs (λ a. h a id))

  pub new-IsTable :
      (v : A) (xs : List A)
      → get (k.key v) xs ≡ none
      → IsTable xs
      → IsTable (update_first is_free (λ _. v) xs)
  unfolding get
  new-IsTable v xs e t = λ id. elim (Bool-cases (k.key v == id)) [
    | inl p ↦ omega (
      arith,
      count_if-one_more is_free (holds id) (λ _. v) xs,
      count_if-none (holds id) xs (subst (λ i. find_first (holds i) xs ≡ none) (ground arith) e),
    )
    | inr p ↦
        omega (arith, t id, count_if-keeps is_free (holds id) (λ _. v) xs (λ a h q. ground arith))
  ]

  pub cleared :
      (id : ℕ) (zero : A) (xs : List A) (a : A)
      → get id xs ≡ some a
      → k.in_use zero ≡ false
      → IsTable xs
      → get id (update_first (holds id) (λ _. zero) xs) ≡ none
  unfolding get
  cleared id zero xs a e z t =
      find_first-zero (holds id) _
        (omega (arith, t id, count_if-one_less (holds id) (λ _. zero) xs a e (λ b h. ground arith)))
