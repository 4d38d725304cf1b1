-- ===== src/Service/Slots.antt =====
-- The loops of the service over its slot arrays: to the first slot that passes a test, which is then
-- read or written through the pointer.
use mathlib.Core.Path.{◌≡◌, refl}
use f4mp.Base.{
  ℕ, suc, Bool, true, false, Option, none, some, List, [], ◌∷◌, arith, length, if◌then◌else◌, All,
  Bool-cases, inl, inr, subst,
}

module _ {ℓ} {A : Type ℓ} where
  -- `for (i = 0; i < N; ++i) if (test(&a[i])) return &a[i]; return NULL;`
  unfoldable pub find_first : (A → Bool) → List A → Option A
  find_first test [] = none
  find_first test (a ∷ rest) = if test a then some a else find_first test rest

  -- A write through the pointer that the loop returned; nothing where it returned NULL.
  unfoldable pub update_first : (A → Bool) → (A → A) → List A → List A
  update_first test f [] = []
  update_first test f (a ∷ rest) = if test a then f a ∷ rest else a ∷ update_first test f rest

  abbrev pub is_some : Option A → Bool
  is_some none = false
  is_some (some a) = true

  -- How many slots pass a test.
  unfoldable pub count_if : (A → Bool) → List A → ℕ
  count_if test [] = 0
  count_if test (a ∷ rest) = let n = count_if test rest in if test a then suc n else n

module _ {ℓ} {A : Type ℓ} (test : A → Bool) where
  pub find_first-test : (xs : List A) (a : A) → find_first test xs ≡ some a → test a ≡ true
  unfolding find_first
  find_first-test [] a e = cc
  find_first-test (x ∷ xs) a e = ground (arith, find_first-test xs a)

  pub length-update_first : (f : A → A) (xs : List A) → length (update_first test f xs) ≡ length xs
  unfolding update_first
  length-update_first f [] = refl
  length-update_first f (x ∷ xs) = ground (arith, length-update_first f xs)

  pub update_first-none :
      (f : A → A) (xs : List A) → find_first test xs ≡ none → update_first test f xs ≡ xs
  unfolding find_first update_first
  update_first-none f [] e = refl
  update_first-none f (x ∷ xs) e = ground (arith, update_first-none f xs)

  -- What is found after a write to the slot that the same test finds.
  pub find_first-update_first :
      (f : A → A) (xs : List A) (a : A)
      → find_first test xs ≡ some a
      → test (f a) ≡ true
      → find_first test (update_first test f xs) ≡ some (f a)
  unfolding find_first update_first
  find_first-update_first f [] a e h = cc
  find_first-update_first f (x ∷ xs) a e h = elim (Bool-cases (test x)) [
    | inl p ↦ ground arith
    | inr p ↦ ground (arith, find_first-update_first f xs a)
  ]

  -- A test that no write changes the outcome of finds what it found before.
  pub find_first-update_other :
      (other : A → Bool) (f : A → A) (xs : List A)
      → ((a : A) → test a ≡ true → other a ≡ false)
      → ((a : A) → test a ≡ true → other (f a) ≡ false)
      → find_first other (update_first test f xs) ≡ find_first other xs
  unfolding find_first update_first
  find_first-update_other other f [] before after = refl
  find_first-update_other other f (x ∷ xs) before after =
      ground (arith, before x, after x, find_first-update_other other f xs before after)

  pub All-update_first {κ} :
      (P : A → Type κ) (f : A → A) (xs : List A)
      → ((a : A) → test a ≡ true → P a → P (f a))
      → All P xs
      → All P (update_first test f xs)
  unfolding update_first
  All-update_first P f [] keep h = tt
  All-update_first P f (x ∷ xs) keep h = elim (Bool-cases (test x)) [
    | inl e ↦ rw e (keep x e h.0, h.1)
    | inr e ↦ rw e (h.0, All-update_first P f xs keep h.1)
  ]

  -- Only the slot that the loop finds is written.
  pub All-update_found {κ} :
      (P : A → Type κ) (f : A → A) (xs : List A) (a : A)
      → find_first test xs ≡ some a
      → P (f a)
      → All P xs
      → All P (update_first test f xs)
  unfolding find_first update_first
  All-update_found P f [] a e p h = tt
  All-update_found P f (x ∷ xs) a e p h = elim (Bool-cases (test x)) [
    | inl t ↦ rw t (first_is t, h.1)
    | inr t ↦ rw t (h.0, All-update_found P f xs a (ground arith) p h.1)
  ]
    where
      first_is : test x ≡ true → P (f x)
      first_is t = subst (λ y. P (f y)) (ground arith) p

  -- A value that is put into the slot found by one test is what another test finds, if it passes that
  -- test and no slot did before.
  pub find_first-update_first_new :
      (other : A → Bool) (v : A) (xs : List A)
      → find_first other xs ≡ none
      → is_some (find_first test xs) ≡ true
      → other v ≡ true
      → find_first other (update_first test (λ _. v) xs) ≡ some v
  unfolding find_first update_first
  find_first-update_first_new other v [] e h o = cc
  find_first-update_first_new other v (x ∷ xs) e h o =
      ground (arith, find_first-update_first_new other v xs)
