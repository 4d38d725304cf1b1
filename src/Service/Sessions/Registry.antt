-- ===== src/Service/Sessions/Registry.antt =====
-- The registry as a map from GUIDs to player ids, and where it is none.
use f4mp.Base.{
  ℕ, zero, suc, ◌≤◌, ◌<◌, ◌≡◌, ◌≢◌, refl, sym, ◌∙◌, ap, true, false, ◌||◌, none, some, List, [],
  ◌∷◌, arith, length, take, All, Bool-cases, inl, inr, Option-cases,
}
use mathlib.Core.Option
use f4mp.Service.Slots.{
  find_first, update_first, is_some, find_first-update_first, find_first-update_other,
  find_first-test, All-update_first,
}
use f4mp.Service.Sessions.{
  SessionRegistryEntry, Registry, same_string, has_guid, free_entry, sr_find_player_id,
  sr_bind_player,
}

pub same_string_eq : (a b : List ℕ) → same_string a b ≡ true → a ≡ b
unfolding same_string
same_string_eq [] [] e = refl
same_string_eq [] (y ∷ ys) e = cc
same_string_eq (x ∷ xs) [] e = cc
same_string_eq (x ∷ xs) (y ∷ ys) e = ground (arith, same_string_eq xs ys)

pub same_string_refl : (a : List ℕ) → same_string a a ≡ true
unfolding same_string
same_string_refl [] = refl
same_string_refl (x ∷ xs) = ground (arith, same_string_refl xs)

take_all {ℓ} : {A : Type ℓ} (n : ℕ) (xs : List A) → length xs ≤ n → take n xs ≡ xs
take_all zero [] h = refl
take_all zero (x ∷ xs) h = absurd (omega arith)
take_all (suc n) [] h = refl
take_all (suc n) (x ∷ xs) h = ap (◌∷◌ x) (take_all n xs (omega arith))

-- An entry that is taken is skipped by the search for a free one.
find_bound :
    (guid : List ℕ) (id : ℕ) (g : Registry)
    → find_first (has_guid guid) g ≡ none
    → is_some (find_first free_entry g) ≡ true
    → find_first (has_guid guid) (
        update_first free_entry
          (λ e. record e { in_use = true; player_guid = guid; player_id = id })
          g)
      ≡ some (record { in_use = true; player_guid = guid; player_id = id })
unfolding find_first update_first has_guid free_entry
find_bound guid id [] e h = cc
find_bound guid id (x ∷ g) e h = ground (arith, find_bound guid id g, same_string_refl guid)

found_again :
    (guid : List ℕ) (id : ℕ) (g : Registry) (e : SessionRegistryEntry)
    → find_first (has_guid guid) g ≡ some e
    → find_first (has_guid guid) (update_first (has_guid guid) (λ x. record x { player_id = id }) g)
      ≡ some (record e { player_id = id })
unfolding has_guid
found_again guid id g e p =
    find_first-update_first (has_guid guid) (λ x. record x { player_id = id }) g e p
      (find_first-test (has_guid guid) g e p)

-- After a bind, the GUID is found with the new player id, if it has 1 to 63 bytes and either is bound
-- already or an entry is free.
pub sr_find_player_id-sr_bind_player :
    (g : Registry) (guid : List ℕ) (id : ℕ)
    → guid ≢ []
    → length guid ≤ 63
    → is_some (sr_find_player_id g guid) || is_some (find_first free_entry g) ≡ true
    → sr_find_player_id (sr_bind_player g guid id) guid ≡ some id
unfolding sr_find_player_id sr_bind_player
sr_find_player_id-sr_bind_player g [] id ne short room = absurd (ne refl)
sr_find_player_id-sr_bind_player g (c ∷ cs) id ne short room =
    elim (Option-cases (find_first (has_guid (c ∷ cs)) g)) [
      | inl p ↦ rw (p, take_all 63 (c ∷ cs) short) (ground (arith, find_bound (c ∷ cs) id g))
      | inr (e, p) ↦ rw p (ground (arith, found_again (c ∷ cs) id g e p))
    ]

other_guid :
    (guid other : List ℕ) (e : SessionRegistryEntry)
    → guid ≢ other
    → has_guid guid e ≡ true
    → has_guid other e ≡ false
unfolding has_guid
other_guid guid other e ne h = ground (
  arith,
  λ (p : same_string e.player_guid guid ≡ true) (q : same_string e.player_guid other ≡ true).
      ne (sym (same_string_eq e.player_guid guid p) ∙ same_string_eq e.player_guid other q),
)

different_strings : (guid other : List ℕ) → guid ≢ other → same_string guid other ≡ false
different_strings guid other ne = elim (Bool-cases (same_string guid other)) [
  | inl e ↦ absurd (ne (same_string_eq guid other e))
  | inr e ↦ e
]

abbrev bound : List ℕ → ℕ → SessionRegistryEntry → SessionRegistryEntry
bound guid id e = record e { in_use = true; player_guid = take 63 guid; player_id = id }

bind_existing :
    (g : Registry) (guid other : List ℕ) (id : ℕ)
    → guid ≢ other
    → find_first
        (has_guid other)
        (update_first (has_guid guid) (λ e. record e { player_id = id }) g)
      ≡ find_first (has_guid other) g
unfolding has_guid
bind_existing g guid other id ne =
    find_first-update_other (has_guid guid) (has_guid other) (λ e. record e { player_id = id }) g
      (λ e h. other_guid guid other e ne h) (λ e h. other_guid guid other e ne h)

bind_fresh :
    (g : Registry) (guid other : List ℕ) (id : ℕ)
    → guid ≢ other
    → length guid ≤ 63
    → find_first (has_guid other) (update_first free_entry (bound guid id) g)
      ≡ find_first (has_guid other) g
unfolding has_guid free_entry
bind_fresh g guid other id ne short =
    find_first-update_other free_entry (has_guid other) (bound guid id) g (λ e h. ground arith)
      (λ e h. rw (take_all 63 guid short) (different_strings guid other ne))

-- A bind of one GUID of up to 63 bytes leaves every other GUID bound to what it was bound to.
pub sr_find_player_id-sr_bind_player_other :
    (g : Registry) (guid other : List ℕ) (id : ℕ)
    → guid ≢ other
    → length guid ≤ 63
    → sr_find_player_id (sr_bind_player g guid id) other ≡ sr_find_player_id g other
unfolding sr_find_player_id sr_bind_player
sr_find_player_id-sr_bind_player_other g [] other id ne short = refl
sr_find_player_id-sr_bind_player_other g (c ∷ cs) other id ne short =
    elim (Bool-cases (is_some (find_first (has_guid (c ∷ cs)) g))) [
      | inl e ↦ rw e (ap (Option.map _) (bind_existing g (c ∷ cs) other id ne))
      | inr e ↦ rw e (ap (Option.map _) (bind_fresh g (c ∷ cs) other id ne short))
    ]

-- What every entry holds: a string of a `char[64]`.
abbrev pub IsStored : Registry → Type 0
IsStored = All (λ e. length e.player_guid ≤ 63)

length-take_le {ℓ} : {A : Type ℓ} (n : ℕ) (xs : List A) → length (take n xs) ≤ n
length-take_le zero xs = omega arith
length-take_le (suc n) [] = omega arith
length-take_le (suc n) (x ∷ xs) = omega (arith, length-take_le n xs)

sr_bind_player-IsStored :
    (g : Registry) (guid : List ℕ) (id : ℕ) → IsStored g → IsStored (sr_bind_player g guid id)
unfolding sr_bind_player
sr_bind_player-IsStored g [] id h = h
sr_bind_player-IsStored g (c ∷ cs) id h =
    elim (Bool-cases (is_some (find_first (has_guid (c ∷ cs)) g))) [
      | inl e ↦ rw e (
          All-update_first (has_guid (c ∷ cs)) (λ x. length x.player_guid ≤ 63)
            (λ x. record x { player_id = id }) g (λ x _ p. p) h)
      | inr e ↦ rw e (
          All-update_first free_entry (λ x. length x.player_guid ≤ 63) (bound (c ∷ cs) id) g
            (λ x _ p. length-take_le 63 (c ∷ cs)) h)
    ]

not_found :
    (g : Registry) (guid : List ℕ)
    → IsStored g
    → 63 < length guid
    → find_first (has_guid guid) g ≡ none
unfolding find_first has_guid
not_found [] guid h long = refl
not_found (e ∷ g) guid h long = elim (Bool-cases (same_string e.player_guid guid)) [
  | inl p ↦ absurd (omega (arith, ap length (same_string_eq e.player_guid guid p)))
  | inr p ↦ ground (arith, not_found g guid h.1 long)
]

-- A GUID of 64 bytes or more is never found again: the entry that the bind makes holds its first 63
-- bytes, which are another string.
pub sr_bind_player_long :
    (g : Registry) (guid : List ℕ) (id : ℕ)
    → IsStored g
    → 63 < length guid
    → sr_find_player_id (sr_bind_player g guid id) guid ≡ none
unfolding sr_find_player_id
sr_bind_player_long g guid id h long =
    ap (Option.map _)
      (not_found (sr_bind_player g guid id) guid (sr_bind_player-IsStored g guid id h) long)
