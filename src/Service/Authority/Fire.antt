-- ===== src/Service/Authority/Fire.antt =====
-- Shooting: what a shot changes.
use f4mp.Base.{
  ℕ, zero, suc, ◌+◌, ◌≡◌, subst, ◌⊎◌, inl, inr, refl, sym, ap, true, false, none, some, Option,
  List, [], ◌∷◌, ◌++◌, arith, length, All, Bool-cases, Option-cases, if◌then◌else◌,
}
use f4mp.Messages.Types.{Vec3f}
use f4mp.Messages.Combat.{MsgFireIntent, MsgDamageResult}
use f4mp.Service.State.{SessionState, ActorRuntimeState}
use f4mp.Service.Slots.{is_some}
use f4mp.Service.Quest.{has_bit}
use f4mp.Service.Floats.{Floats}
use f4mp.Service.Geometry.{cg_normalize, cg_target_within_cone, av_default_combat_geometry}
use f4mp.Service.Validation.{validate_fire_intent}
use f4mp.Service.Authority.{
  Best, FireResult, actf_dead, is_target, consider, best_target, hit, ac_handle_fire_intent,
  update_at, get_elem?, shoot, actf_hostile, health_after, death_of, damage_of, set_bit,
}

get_elem?-length {ℓ} :
    {A : Type ℓ} (front : List A) (a : A) (rest : List A)
    → get_elem? (front ++ a ∷ rest) (length front) ≡ some a
unfolding get_elem?
get_elem?-length [] a rest = refl
get_elem?-length (x ∷ front) a rest = get_elem?-length front a rest

-- What an index picks out of a list, and what a write to it does.
record IsSplit {A : Type 0} (i : ℕ) (f : A → A) (xs : List A) (a : A) : Type 0 where
  before : List A
  rest : List A
  splits : xs ≡ before ++ (a ∷ rest)
  written : update_at i f xs ≡ before ++ (f a ∷ rest)

get_elem?-IsSplit :
    {A : Type 0} (i : ℕ) (f : A → A) (xs : List A) (a : A)
    → get_elem? xs i ≡ some a
    → IsSplit i f xs a
unfolding get_elem? update_at
get_elem?-IsSplit i f [] a e = absurd (ground arith)
get_elem?-IsSplit zero f (x ∷ xs) a e =
    let same : x ≡ a = ground arith in
    record {
      before = [];
      rest = xs;
      splits = ap (λ y. y ∷ xs) same;
      written = ap (λ y. f y ∷ xs) same;
    }
get_elem?-IsSplit (suc i) f (x ∷ xs) a e =
    let tail = get_elem?-IsSplit i f xs a e in
    record {
      before = x ∷ tail.before;
      rest = tail.rest;
      splits = ap (◌∷◌ x) tail.splits;
      written = ap (◌∷◌ x) tail.written;
    }

module _ (F : Floats) (origin dir : Vec3f) where
  open F use {lt}

  -- How well the shot points at an actor, if it is in the cone.
  abbrev pub aim : ActorRuntimeState → Option ℕ
  aim a = cg_target_within_cone F origin dir a.replicated_state.position av_default_combat_geometry

  -- The slot that is chosen holds an actor that can be shot, and is in the cone.
  abbrev IsTargetAt : List ActorRuntimeState → Best → Type 0
  IsTargetAt actors none = Unit {0}
  IsTargetAt actors (some (i, score)) =
      (a : ActorRuntimeState) × (get_elem? actors i ≡ some a)
      × (is_target a ≡ true)
      × (aim a ≡ some score)

  -- An actor that the shot cannot meet.
  abbrev pub IsMissed : ActorRuntimeState → Type 0
  IsMissed a = (is_target a ≡ false) ⊎ (aim a ≡ none)

  consider-IsTargetAt :
      (actors : List ActorRuntimeState) (i : ℕ) (a : ActorRuntimeState) (best : Best)
      → get_elem? actors i ≡ some a
      → IsTargetAt actors best
      → IsTargetAt actors (consider F origin dir i a best)
  unfolding consider
  consider-IsTargetAt actors i a best e h = elim (Bool-cases (is_target a)) [
    | inr t ↦ rw t h
    | inl t ↦ rw t (elim (Option-cases (aim a)) [
      | inl p ↦ rw p h
      | inr (score, p) ↦ rw p (better t score p best h)
    ])
  ]
    where
      better :
          is_target a ≡ true
          → (score : ℕ) → aim a ≡ some score
          → (b : Best) → IsTargetAt actors b
          → IsTargetAt actors (elim b [
            | none ↦ some (i, score)
            | some (j, best_score) ↦
                if lt best_score score then some (i, score) else some (j, best_score)
          ])
      better t score p none k = (a, e, t, p)
      better t score p (some (j, best_score)) k = elim (Bool-cases (lt best_score score)) [
        | inl l ↦ rw l (a, e, t, p)
        | inr l ↦ rw l k
      ]

  -- `rest` is what `actors` holds from slot `i` on.
  best_target-IsTargetAt :
      (actors rest : List ActorRuntimeState) (i : ℕ) (best : Best)
      → ((k : ℕ) → get_elem? actors (i + k) ≡ get_elem? rest k)
      → IsTargetAt actors best
      → IsTargetAt actors (best_target F origin dir i rest best)
  unfolding best_target get_elem?
  best_target-IsTargetAt actors [] i best e h = h
  best_target-IsTargetAt actors (a ∷ rest) i best e h =
      best_target-IsTargetAt actors rest (suc i) (consider F origin dir i a best)
        (λ k. subst (λ n. get_elem? actors n ≡ get_elem? rest k) (omega arith) (next k))
        (consider-IsTargetAt actors i a best first h)
    where
      next : (k : ℕ) → get_elem? actors (i + suc k) ≡ get_elem? rest k
      next k = e (suc k)

      first : get_elem? actors i ≡ some a
      first = subst (λ n. get_elem? actors n ≡ some a) (omega arith) (e 0)

  consider-none :
      (i : ℕ) (a : ActorRuntimeState) (best : Best)
      → consider F origin dir i a best ≡ none
      → (best ≡ none) × IsMissed a
  unfolding consider
  consider-none i a none e = elim (Bool-cases (is_target a)) [
    | inr t ↦ (refl, inl t)
    | inl t ↦ elim (Option-cases (aim a)) [
      | inl p ↦ (refl, inr p)
      | inr (score, p) ↦ absurd (ground (arith, e, t, p))
    ]
  ]
  consider-none i a (some (j, score)) e = absurd (ground (arith, e))

  -- Where no slot is chosen, the shot cannot meet any actor.
  best_target-none :
      (rest : List ActorRuntimeState) (i : ℕ) (best : Best)
      → best_target F origin dir i rest best ≡ none
      → (best ≡ none) × All IsMissed rest
  unfolding best_target
  best_target-none [] i best e = (e, tt)
  best_target-none (a ∷ rest) i best e =
      let (chosen, missed) = best_target-none rest (suc i) (consider F origin dir i a best) e in
      let (before, first) = consider-none i a best chosen in (before, (first, missed))

-- What a shot does that meets an actor: `health` and `flags` are what the actor has then.
pub record IsShot (F : Floats) (s : SessionState) (msg : MsgFireIntent) (r : FireResult)
    : Type 0 where
  pub before : List ActorRuntimeState
  pub victim : ActorRuntimeState
  pub rest : List ActorRuntimeState
  pub health : ℕ
  pub flags : ℕ
  pub actors : s.actors ≡ before ++ (victim ∷ rest)
  pub session : r.session ≡ record s {
    actors =
        before
        ++ (record victim {
          replicated_state = record (victim.replicated_state) {
            health_norm = health;
            actor_flags = flags;
          };
        }
            ∷ rest);
  }
  pub used : victim.in_use ≡ true
  pub hostile : has_bit victim.replicated_state.actor_flags actf_hostile ≡ true
  pub alive : has_bit victim.replicated_state.actor_flags actf_dead ≡ false
  pub aimed : is_some (aim F msg.origin (cg_normalize F msg.direction).1 victim) ≡ true
  pub hurt : health ≡ (
      if F.lt (F.sub victim.replicated_state.health_norm 0x3e80_0000) 0
      then 0
      else F.sub victim.replicated_state.health_norm 0x3e80_0000)
  pub marked : flags ≡ (
      if F.le health 0
      then set_bit victim.replicated_state.actor_flags actf_dead
      else victim.replicated_state.actor_flags)
  pub named : r.damage.victim_actor_net_id ≡ victim.actor_net_id
  pub reported : r.damage.health_after ≡ health
  pub dies : is_some r.death ≡ has_bit flags actf_dead

-- A shot that meets nobody: no actor can be met, or one that can is no better aimed at than -1000.
pub record IsMiss (F : Floats) (s : SessionState) (msg : MsgFireIntent) (damage : MsgDamageResult)
    (r : FireResult) : Type 0 where
  pub nothing : r ≡ record { session = s; damage = damage; death = none }
  pub reason :
      All (IsMissed F msg.origin (cg_normalize F msg.direction).1) s.actors
      ⊎ ((i : ℕ) × (a : ActorRuntimeState) × (score : ℕ) × (get_elem? s.actors i ≡ some a)
          × (is_target a ≡ true)
          × (aim F msg.origin (cg_normalize F msg.direction).1 a ≡ some score)
          × (F.le score 0xc47a_0000 ≡ true))

alive_flags : (x : ℕ) → has_bit x actf_dead ≡ false → has_bit (set_bit x actf_dead) actf_dead ≡ true
alive_flags x h = ground arith

target_parts :
    (a : ActorRuntimeState)
    → is_target a ≡ true
    → (a.in_use ≡ true)
      × (has_bit a.replicated_state.actor_flags actf_hostile ≡ true)
      × (has_bit a.replicated_state.actor_flags actf_dead ≡ false)
unfolding is_target
target_parts a h = ground arith

module _ (F : Floats) where
  hit_dies :
      (msg : MsgFireIntent) (a : ActorRuntimeState)
      → is_target a ≡ true
      → is_some (death_of F msg a) ≡ has_bit ((hit F a).replicated_state.actor_flags) actf_dead
  unfolding death_of hit
  hit_dies msg a t = ground (arith, target_parts a t, alive_flags a.replicated_state.actor_flags)

  shoot_chosen :
      (s : SessionState) (msg : MsgFireIntent) (damage : MsgDamageResult) (i score : ℕ)
      (a : ActorRuntimeState)
      → get_elem? s.actors i ≡ some a
      → is_target a ≡ true
      → aim F msg.origin (cg_normalize F msg.direction).1 a ≡ some score
      → IsMiss F s msg damage (shoot F s msg damage (some (i, score)))
        ⊎ IsShot F s msg (shoot F s msg damage (some (i, score)))
  unfolding shoot damage_of hit health_after
  shoot_chosen s msg damage i score a e t p = elim (Bool-cases (F.le score 0xc47a_0000)) [
    | inl l ↦ rw l (inl (record { nothing = refl; reason = inr (i, a, score, e, t, p, l) }))
    | inr l ↦
        let at = get_elem?-IsSplit i (hit F) s.actors a e in
        let (used, hostile, alive) = target_parts a t in
        rw (l, e)
          (inr (record {
            before = at.before;
            victim = a;
            rest = at.rest;
            health = (hit F a).replicated_state.health_norm;
            flags = (hit F a).replicated_state.actor_flags;
            actors = at.splits;
            session = ap (λ xs. record s { actors = xs }) at.written;
            used = used;
            hostile = hostile;
            alive = alive;
            aimed = ap is_some p;
            hurt = refl;
            marked = refl;
            named = refl;
            reported = refl;
            dies = hit_dies msg a t;
          }))
  ]

  shoot-IsShot :
      (s : SessionState) (msg : MsgFireIntent) (damage : MsgDamageResult) (best : Best)
      → best ≡ best_target F msg.origin (cg_normalize F msg.direction).1 0 s.actors none
      → IsTargetAt F msg.origin (cg_normalize F msg.direction).1 s.actors best
      → IsMiss F s msg damage (shoot F s msg damage best)
        ⊎ IsShot F s msg (shoot F s msg damage best)
  unfolding shoot
  shoot-IsShot s msg damage none e h = inl (record {
    nothing = refl;
    reason =
        inl
          (best_target-none F msg.origin (cg_normalize F msg.direction).1 s.actors 0 none
            (sym e)).1;
  })
  shoot-IsShot s msg damage (some (i, score)) e (a, at, t, p) =
      shoot_chosen s msg damage i score a at t p

  -- A shot that fails validation is refused. One that passes meets nobody, and then changes and reports
  -- nothing, for no actor in use, hostile and alive is in its cone, or one that is has a score of at most
  -- -1000; or it meets such an actor, which loses a quarter of the full health, but not below none, and
  -- gets the dead flag if none is left, while all else of it and of the session stays; the damage result
  -- then names it with the health it has left, and a death is reported exactly if it is dead.
  pub ac_handle_fire_intent-IsShot :
      (s : SessionState) (msg : MsgFireIntent) (damage : MsgDamageResult)
      → ((ac_handle_fire_intent F s msg damage ≡ none) × (validate_fire_intent F s msg ≡ false))
        ⊎ ((r : FireResult) × (ac_handle_fire_intent F s msg damage ≡ some r)
            × (validate_fire_intent F s msg ≡ true)
            × (IsMiss F s msg damage r ⊎ IsShot F s msg r))
  unfolding ac_handle_fire_intent
  ac_handle_fire_intent-IsShot s msg damage = elim (Bool-cases (validate_fire_intent F s msg)) [
    | inr v ↦ rw v (inl (refl, refl))
    | inl v ↦ rw v (
        inr (
          _,
          refl,
          refl,
          shoot-IsShot s msg damage _ refl (
              best_target-IsTargetAt F msg.origin (cg_normalize F msg.direction).1 s.actors s.actors
                0 none (λ k. ap (get_elem? s.actors) (omega arith)) tt),
        ))
  ]
