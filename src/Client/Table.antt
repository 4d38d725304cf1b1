-- ===== src/Client/Table.antt =====
-- The slot arrays of the plugin: proxy_runtime.c, fo4_scene_proxy_backend_stub.c,
-- fo4_proxy_actor_driver.c and fo4_proxy_actor_backend_stub.c keep records in a fixed array, found by
-- an id among those in use, and otherwise placed in the first that is free.
pub mod Model
pub mod Laws
pub mod Refines
use f4mp.Base.{ℕ, Bool, true, false, not, ◌&&◌, Option, none, some, List, ◌==◌, if◌then◌else◌}
use f4mp.Service.Slots.{find_first, update_first, count_if}

pub record Keyed (A : Type 0) : Type 0 where
  pub in_use : A → Bool
  pub key : A → ℕ

module _ {A : Type 0} ⦃k : Keyed A⦄ where
  abbrev pub holds : ℕ → A → Bool
  holds id a = k.in_use a && k.key a == id

  abbrev pub is_free : A → Bool
  is_free a = not (k.in_use a)

  -- The getters: the first record in use with the id.
  unfoldable pub get : ℕ → List A → Option A
  get id xs = find_first (holds id) xs

  unfoldable pub used_count : List A → ℕ
  used_count xs = count_if k.in_use xs

  -- `find_slot`: that record, otherwise the first that is free.
  unfoldable pub find_slot : ℕ → List A → Option A
  find_slot id xs = elim (get id xs) [ none ↦ find_first is_free xs | some a ↦ some a ]

  -- A write through the pointer that `find_slot` returned.
  unfoldable pub write_slot : ℕ → (A → A) → List A → List A
  write_slot id f xs = elim (get id xs) [
    | none ↦ update_first is_free f xs
    | some a ↦ update_first (holds id) f xs
  ]

  -- The spawns: the slot is overwritten, in use or not.
  unfoldable pub put_slot : ℕ → A → List A → Bool × List A
  put_slot id v xs = elim (find_slot id xs) [
    | none ↦ (false, xs)
    | some s ↦ (true, write_slot id (λ _. v) xs)
  ]

  -- The updates: `if (!s || !s->in_use) return false;`
  unfoldable pub change_slot : ℕ → (A → A) → List A → Bool × List A
  change_slot id f xs = elim (find_slot id xs) [
    | none ↦ (false, xs)
    | some s ↦ if not (k.in_use s) then (false, xs) else (true, write_slot id f xs)
  ]

  -- The despawns: `if (!s || !s->in_use || s->key != id) return false; memset(s, 0, sizeof(*s));`
  unfoldable pub clear_slot : ℕ → A → List A → Bool × List A
  clear_slot id zero xs = elim (find_slot id xs) [
    | none ↦ (false, xs)
    | some s ↦
        if not (k.in_use s)
        then (false, xs)
        else if not (k.key s == id)
        then (false, xs)
        else (true, write_slot id (λ _. zero) xs)
  ]
