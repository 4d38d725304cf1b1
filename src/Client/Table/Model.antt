-- ===== src/Client/Table/Model.antt =====
-- The abstract view of a slot array: a finite map from ids to records, with its size.
use f4mp.Base.{
  ℕ, ◌+◌, ◌-◌, Bool, true, false, Option, none, some, List, ◌==◌, ltb, if◌then◌else◌, ◌≡◌, ◌<◌,
  arith,
}
use f4mp.Client.Table.{Keyed, get, used_count}

pub record Model (A : Type 0) : Type 0 where
  pub entries : ℕ → Option A
  pub size : ℕ

module _ {A : Type 0} where
  -- A map, changed at one id.
  abbrev pub at_id : (ℕ → Option A) → ℕ → Option A → ℕ → Option A
  at_id m id v other = if other == id then v else m other

  -- A map of limited size takes a new record while it has room, and always overwrites one.
  unfoldable pub put : ℕ → ℕ → A → Model A → Bool × Model A
  put capacity id v m = elim (m.entries id) [
    | none ↦
        if ltb m.size capacity
        then (true, record { entries = at_id m.entries id (some v); size = m.size + 1 })
        else (false, m)
    | some a ↦ (true, record m { entries = at_id m.entries id (some v) })
  ]

  unfoldable pub change : ℕ → (A → A) → Model A → Bool × Model A
  change id f m = elim (m.entries id) [
    | none ↦ (false, m)
    | some a ↦ (true, record m { entries = at_id m.entries id (some (f a)) })
  ]

  unfoldable pub clear : ℕ → Model A → Bool × Model A
  clear id m = elim (m.entries id) [
    | none ↦ (false, m)
    | some a ↦ (true, record { entries = at_id m.entries id none; size = m.size - 1 })
  ]

  unfoldable pub view : ⦃k : Keyed A⦄ → List A → Model A
  view xs = record { entries = λ id. get id xs; size = used_count xs }

  pub put-held :
      (capacity id : ℕ) (v : A) (m : Model A) (a : A)
      → m.entries id ≡ some a
      → put capacity id v m ≡ (true, record m { entries = at_id m.entries id (some v) })
  unfolding put
  put-held capacity id v m a e = ground arith

  pub put-room :
      (capacity id : ℕ) (v : A) (m : Model A)
      → m.entries id ≡ none
      → m.size < capacity
      → put capacity id v m
        ≡ (true, record { entries = at_id m.entries id (some v); size = m.size + 1 })
  unfolding put
  put-room capacity id v m e h = ground arith

  pub put-full :
      (capacity id : ℕ) (v : A) (m : Model A)
      → m.entries id ≡ none
      → m.size ≡ capacity
      → put capacity id v m ≡ (false, m)
  unfolding put
  put-full capacity id v m e h = ground arith

  pub change-held :
      (id : ℕ) (f : A → A) (m : Model A) (a : A)
      → m.entries id ≡ some a
      → change id f m ≡ (true, record m { entries = at_id m.entries id (some (f a)) })
  unfolding change
  change-held id f m a e = ground arith

  pub change-none :
      (id : ℕ) (f : A → A) (m : Model A) → m.entries id ≡ none → change id f m ≡ (false, m)
  unfolding change
  change-none id f m e = ground arith

  pub clear-held :
      (id : ℕ) (m : Model A) (a : A)
      → m.entries id ≡ some a
      → clear id m ≡ (true, record { entries = at_id m.entries id none; size = m.size - 1 })
  unfolding clear
  clear-held id m a e = ground arith

  pub clear-none : (id : ℕ) (m : Model A) → m.entries id ≡ none → clear id m ≡ (false, m)
  unfolding clear
  clear-none id m e = ground arith
