-- ===== src/Client/Table/Refines.antt =====
-- Spawns, updates and despawns of a slot array are the operations of the abstract map.
use f4mp.Base.{
  ℕ, ◌≡◌, refl, sym, Bool, true, false, Option, none, some, List, ◌==◌, arith, length, inl, inr,
  Bool-cases, Option-cases, subst, ==_iff,
}
use f4mp.Service.Slots.{
  find_first, update_first, find_first-update_other, find_first-update_first, length-update_first,
  find_first-update_first_new, find_first-test,
}
use f4mp.Client.Table.{
  Keyed, holds, is_free, get, used_count, find_slot, write_slot, put_slot, change_slot, clear_slot,
}
use f4mp.Client.Table.Model.{
  Model, at_id, put, change, clear, view, put-held, put-room, put-full, change-held, change-none,
  clear-held, clear-none,
}
use f4mp.Client.Table.Laws.{
  IsTable, get-found, count-room, count-free, count-held, count-clear, count-new, keeps-IsTable,
  new-IsTable, cleared,
}

module _ {A : Type 0} ⦃k : Keyed A⦄ where
  -- The outcome of an operation on a slot array against that of the abstract one.
  pub record Refines (before : List A) (r : Bool × List A) (s : Bool × Model A) : Type 0 where
    pub result : r.0 ≡ s.0
    pub entries : (id : ℕ) → get id r.1 ≡ s.1.entries id
    pub size : used_count r.1 ≡ s.1.size
    pub table : IsTable r.1
    pub sized : length r.1 ≡ length before

  put_held :
      (id : ℕ) (v : A) (xs : List A) (a : A)
      → get id xs ≡ some a
      → put_slot id v xs ≡ (true, update_first (holds id) (λ _. v) xs)
  unfolding put_slot find_slot write_slot
  put_held id v xs a e = ground arith

  put_free :
      (id : ℕ) (v : A) (xs : List A) (a : A)
      → get id xs ≡ none
      → find_first is_free xs ≡ some a
      → put_slot id v xs ≡ (true, update_first is_free (λ _. v) xs)
  unfolding put_slot find_slot write_slot
  put_free id v xs a e f = ground arith

  put_full :
      (id : ℕ) (v : A) (xs : List A)
      → get id xs ≡ none
      → find_first is_free xs ≡ none
      → put_slot id v xs ≡ (false, xs)
  unfolding put_slot find_slot write_slot
  put_full id v xs e f = ground arith

  change_held :
      (id : ℕ) (f : A → A) (xs : List A) (a : A)
      → get id xs ≡ some a
      → change_slot id f xs ≡ (true, update_first (holds id) f xs)
  unfolding change_slot find_slot write_slot
  change_held id f xs a e = ground (arith, get-found id xs a e)

  change_none :
      (id : ℕ) (f : A → A) (xs : List A) → get id xs ≡ none → change_slot id f xs ≡ (false, xs)
  unfolding change_slot find_slot write_slot
  change_none id f xs e = elim (Option-cases (find_first is_free xs)) [
    | inl n ↦ ground arith
    | inr (a, n) ↦ ground (arith, find_first-test is_free xs a n)
  ]

  -- What is found after an update of a record that is there.
  pub change_slot-get :
      (id : ℕ) (f : A → A) (xs : List A) (a : A)
      → get id xs ≡ some a
      → holds id (f a) ≡ true
      → ((change_slot id f xs).0 ≡ true) × (get id (change_slot id f xs).1 ≡ some (f a))
  unfolding get
  change_slot-get id f xs a e h =
      rw (change_held id f xs a e) (refl, find_first-update_first (holds id) f xs a e h)

  clear_held :
      (id : ℕ) (zero : A) (xs : List A) (a : A)
      → get id xs ≡ some a
      → clear_slot id zero xs ≡ (true, update_first (holds id) (λ _. zero) xs)
  unfolding clear_slot find_slot write_slot
  clear_held id zero xs a e = ground (arith, get-found id xs a e)

  clear_none :
      (id : ℕ) (zero : A) (xs : List A) → get id xs ≡ none → clear_slot id zero xs ≡ (false, xs)
  unfolding clear_slot find_slot write_slot
  clear_none id zero xs e = elim (Option-cases (find_first is_free xs)) [
    | inl n ↦ ground arith
    | inr (a, n) ↦ ground (arith, find_first-test is_free xs a n)
  ]

  -- A lookup after an operation at one id, from the lookups at that id and at another.
  changed_at :
      (xs ys : List A) (id : ℕ) (w : Option A)
      → get id ys ≡ w
      → ((other : ℕ) → (other == id) ≡ false → get other ys ≡ get other xs)
      → (other : ℕ) → get other ys ≡ at_id (λ i. get i xs) id w other
  changed_at xs ys id w same rest other = elim (Bool-cases (other == id)) [
    | inl p ↦ rw p (subst (λ i. get i ys ≡ w) (sym ((==_iff other id).0 p)) same)
    | inr p ↦ rw p (rest other p)
  ]

  -- The two lookups after a write in place, and after a record is put where one was free.
  held-other :
      (id other : ℕ) (f : A → A) (xs : List A)
      → ((b : A) → holds id b ≡ true → holds other (f b) ≡ false)
      → (other == id) ≡ false
      → get other (update_first (holds id) f xs) ≡ get other xs
  unfolding get
  held-other id other f xs h p =
      find_first-update_other (holds id) (holds other) f xs (λ b q. ground arith) h

  free-other :
      (other : ℕ) (v : A) (xs : List A)
      → holds other v ≡ false
      → get other (update_first is_free (λ _. v) xs) ≡ get other xs
  unfolding get
  free-other other v xs h =
      find_first-update_other is_free (holds other) (λ _. v) xs (λ b q. ground arith) (λ b q. h)

  -- A write in place keeps the id, and replaces the record.
  change_in_place :
      (id : ℕ) (f : A → A) (xs : List A) (a : A)
      → get id xs ≡ some a
      → ((b : A) → holds id b ≡ true → holds id (f b) ≡ true)
      → IsTable xs
      → Refines xs
          (true, update_first (holds id) f xs)
          (true, record { entries = at_id (λ i. get i xs) id (some (f a)); size = used_count xs })
  unfolding find_first get
  change_in_place id f xs a e h t = record {
    result = refl;
    entries =
        changed_at xs _ id _
          (find_first-update_first (holds id) f xs a e (h a (get-found id xs a e)))
          (λ other p. held-other id other f xs (λ b q. ground (arith, h b q)) p);
    size = count-held id f xs a e (λ b q. ground (arith, h b q));
    table = keeps-IsTable (holds id) f xs (λ b i q r. ground (arith, h b q)) t;
    sized = length-update_first (holds id) f xs;
  }

  unchanged : (xs : List A) → IsTable xs → Refines xs (false, xs) (false, view xs)
  unfolding view
  unchanged xs t = record {
    result = refl;
    entries = λ id. refl;
    size = refl;
    table = t;
    sized = refl;
  }

  put_absent :
      (id : ℕ) (v : A) (xs : List A)
      → k.in_use v ≡ true
      → k.key v ≡ id
      → IsTable xs
      → get id xs ≡ none
      → Refines xs (put_slot id v xs) (put (length xs) id v (view xs))
  unfolding view find_first get
  put_absent id v xs u e t n = elim (Option-cases (find_first is_free xs)) [
    | inl f ↦
        rw (put_full id v xs n f, put-full (length xs) id v (view xs) n (count-room xs f))
          (unchanged xs t)
    | inr (a, f) ↦
        rw (put_free id v xs a n f, put-room (length xs) id v (view xs) n (count-free xs a f))
          (record {
            result = refl;
            entries =
                changed_at xs _ id (some v)
                  (find_first-update_first_new is_free (holds id) v xs n (ground arith)
                    (ground arith))
                  (λ other p. free-other other v xs (ground arith));
            size = count-new (λ _. v) xs a f (λ b q. u);
            table = new-IsTable v xs (subst (λ i. get i xs ≡ none) (sym e) n) t;
            sized = length-update_first is_free (λ _. v) xs;
          })
  ]

  -- A spawn.
  put_slot-Refines_length :
      (id : ℕ) (v : A) (xs : List A)
      → k.in_use v ≡ true
      → k.key v ≡ id
      → IsTable xs
      → Refines xs (put_slot id v xs) (put (length xs) id v (view xs))
  unfolding view get
  put_slot-Refines_length id v xs u e t = elim (Option-cases (get id xs)) [
    | inl n ↦ put_absent id v xs u e t n
    | inr (a, n) ↦
        rw (put_held id v xs a n, put-held (length xs) id v (view xs) a n)
          (change_in_place id (λ _. v) xs a n (λ b q. ground arith) t)
  ]

  pub put_slot-Refines :
      (n id : ℕ) (v : A) (xs : List A)
      → length xs ≡ n
      → k.in_use v ≡ true
      → k.key v ≡ id
      → IsTable xs
      → Refines xs (put_slot id v xs) (put n id v (view xs))
  put_slot-Refines n id v xs l u e t =
      subst (λ m. Refines xs (put_slot id v xs) (put m id v (view xs))) l
        (put_slot-Refines_length id v xs u e t)

  -- An update.
  pub change_slot-Refines :
      (id : ℕ) (f : A → A) (xs : List A)
      → ((b : A) → holds id b ≡ true → holds id (f b) ≡ true)
      → IsTable xs
      → Refines xs (change_slot id f xs) (change id f (view xs))
  unfolding view
  change_slot-Refines id f xs h t = elim (Option-cases (get id xs)) [
    | inl n ↦ rw (change_none id f xs n, change-none id f (view xs) n) (unchanged xs t)
    | inr (a, n) ↦
        rw (change_held id f xs a n, change-held id f (view xs) a n)
          (change_in_place id f xs a n h t)
  ]

  -- A despawn.
  pub clear_slot-Refines :
      (id : ℕ) (zero : A) (xs : List A)
      → k.in_use zero ≡ false
      → IsTable xs
      → Refines xs (clear_slot id zero xs) (clear id (view xs))
  unfolding view
  clear_slot-Refines id zero xs z t = elim (Option-cases (get id xs)) [
    | inl n ↦ rw (clear_none id zero xs n, clear-none id (view xs) n) (unchanged xs t)
    | inr (a, n) ↦
        rw (clear_held id zero xs a n, clear-held id (view xs) a n)
          (record {
            result = refl;
            entries =
                changed_at xs _ id none (cleared id zero xs a n z t)
                  (λ other p. held-other id other (λ _. zero) xs (λ b q. ground arith) p);
            size = omega (arith, count-clear id (λ _. zero) xs a n (λ b q. z));
            table = keeps-IsTable (holds id) (λ _. zero) xs (λ b i q r. ground arith) t;
            sized = length-update_first (holds id) (λ _. zero) xs;
          })
  ]
