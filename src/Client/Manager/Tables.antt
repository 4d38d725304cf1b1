-- ===== src/Client/Manager/Tables.antt =====
-- What the scene backend does, the tables of plugin/src/proxy_runtime.c stay as they are: the note of
-- the update policy's result.
use f4mp.Base.{
  ℕ, ◌≡◌, refl, ◌∙◌, Bool, true, false, not, ◌||◌, Option, none, some, arith, inl, inr, Bool-cases,
  ◌==◌, if◌then◌else◌,
}
use f4mp.Messages.Player.{MsgPlayerState}
use f4mp.Service.Floats.{Floats}
use f4mp.Client.Table.{find_slot}
use f4mp.Client.Records.{ProxyPlayerUpdateSpec, player_keyed}
use f4mp.Client.Scene.Records.{
  ProxyWorld, Act, refuse, effect, ◌then_act◌, Fo4SceneProxyPlayerState, Fo4ProxyActorMoveSpec,
  Fo4ProxyActorRotateSpec, scene_keyed,
}
use f4mp.Client.Scene.Driver.{fpad_move, fpad_rotate, next32}
use f4mp.Client.Scene.Contract.{
  fpalc_apply_presented_state, note_last, fpalc_enabled, on_live, move_spec, rotate_spec,
}
use f4mp.Client.Scene.Backend.{sync_scene_actor_handle, apply_driver_presented_state}
use f4mp.Client.Scene.Updates.{present, settle, fo4_scene_proxy_backend_stub_note_policy_result}

-- A call that leaves the tables of proxy_runtime.c alone.
record Keeps (a : Act) : Type 0 where
  pub kept : (w : ProxyWorld) → (a w).1.runtime ≡ w.runtime

then_act-Keeps : (a b : Act) → Keeps a → Keeps b → Keeps (a then_act b)
unfolding ◌then_act◌
then_act-Keeps a b h k = record {
  kept = λ w. elim (Bool-cases (a w).0) [
    | inl e ↦ rw (e, ◌then_act◌) (k.kept (a w).1 ∙ h.kept w)
    | inr e ↦ rw (e, ◌then_act◌) (h.kept w)
  ];
}

sync-Keeps : (id : ℕ) (w : ProxyWorld) → (sync_scene_actor_handle id w).runtime ≡ w.runtime
unfolding sync_scene_actor_handle
sync-Keeps id w = ground arith

if-Keeps : (b : Bool) (x y : Act) → Keeps x → Keeps y → Keeps (if b then x else y)
if-Keeps true x y h k = h
if-Keeps false x y h k = k

move-Keeps : (spec : Fo4ProxyActorMoveSpec) → Keeps (fpad_move spec)
unfolding fpad_move
move-Keeps spec = record { kept = λ w. refl }

rotate-Keeps : (spec : Fo4ProxyActorRotateSpec) → Keeps (fpad_rotate spec)
unfolding fpad_rotate
rotate-Keeps spec = record { kept = λ w. refl }

refuse_or-Keeps : (b : Bool) (a : Act) → Keeps a → Keeps (if b then refuse else a)
refuse_or-Keeps true a h = record { kept = λ w. refl }
refuse_or-Keeps false a h = h

effect-Keeps :
    (f : ProxyWorld → ProxyWorld)
    → ((w : ProxyWorld) → (f w).runtime ≡ w.runtime)
    → Keeps (effect f)
effect-Keeps f h = record { kept = h }

when-Keeps :
    (b : Bool) (a : Act)
    → Keeps a
    → (w : ProxyWorld) → (if b then a w else (false, w)).1.runtime ≡ w.runtime
when-Keeps true a h w = h.kept w
when-Keeps false a h w = refl

slot-Keeps :
    (found : Option Fo4SceneProxyPlayerState) (body : Fo4SceneProxyPlayerState → Act)
    → ((s : Fo4SceneProxyPlayerState) → Keeps (body s))
    → (w : ProxyWorld)
    → (elim found as (λ _. Bool × ProxyWorld) [ none ↦ (false, w) | some s ↦ body s w ]).1.runtime
      ≡ w.runtime
slot-Keeps none body h w = refl
slot-Keeps (some s) body h w = (h s).kept w

fpalc-Keeps : (msg : MsgPlayerState) (handle : ℕ) → Keeps (fpalc_apply_presented_state msg handle)
unfolding fpalc_apply_presented_state note_last
fpalc-Keeps msg handle = record {
  kept = λ w.
      when-Keeps w.live.enabled _
        (then_act-Keeps _ _
          (then_act-Keeps _ _
            (then_act-Keeps _ _
              (refuse_or-Keeps (msg.player_id == 0) _ (move-Keeps (move_spec msg handle)))
              (rotate-Keeps (rotate_spec msg handle)))
            (effect-Keeps
              (on_live (λ l. record l {
                move_count = next32 l.move_count;
                rotate_count = next32 l.rotate_count;
              }))
              (λ v. refl)))
          (effect-Keeps (note_last msg.player_id handle) (λ v. refl)))
        w;
}

apply-Keeps :
    (s : Fo4SceneProxyPlayerState) (spec : ProxyPlayerUpdateSpec)
    → Keeps (apply_driver_presented_state s spec)
unfolding apply_driver_presented_state
apply-Keeps s spec = record {
  kept = λ w.
      (then_act-Keeps _ _
          (if-Keeps (fpalc_enabled w) _ _ (fpalc-Keeps _ _)
            (then_act-Keeps _ _ (move-Keeps _) (rotate-Keeps _)))
          (effect-Keeps (sync_scene_actor_handle s.player_id) (sync-Keeps s.player_id))).kept
        w;
}

module _ (F : Floats) where
  present-Keeps : (id : ℕ) (spec : ProxyPlayerUpdateSpec) → Keeps (present F id spec)
  present-Keeps id spec = record {
    kept = λ w. slot-Keeps (find_slot id w.scene.players) _ (λ s. apply-Keeps s spec) w;
  }

  settle-Keeps :
      (id : ℕ) (teleported : Bool) (s : Fo4SceneProxyPlayerState) (w : ProxyWorld)
      → (settle F id teleported s w).runtime ≡ w.runtime
  settle-Keeps id true s w = (present-Keeps id s.last_update).kept _
  settle-Keeps id false s w = refl

  -- What the policy notes in the scene leaves the tables alone.
  pub note-Keeps :
      (id : ℕ) (a b c : Bool) (d : ℕ) (w : ProxyWorld)
      → (fo4_scene_proxy_backend_stub_note_policy_result F id a b c d w).runtime ≡ w.runtime
  unfolding fo4_scene_proxy_backend_stub_note_policy_result
  note-Keeps id a b c d w = go (find_slot id w.scene.players)
    where
      unless :
          (stop : Bool) (s : Fo4SceneProxyPlayerState)
          → (if stop then w else settle F id a s w).runtime ≡ w.runtime
      unless true s = refl
      unless false s = settle-Keeps id a s w

      go :
          (found : Option Fo4SceneProxyPlayerState)
          → (elim found as (λ _. ProxyWorld) [
            | none ↦ w
            | some s ↦
                if not s.in_use || not (s.player_id == id)
                then w
                else settle F id a
                    (record s {
                      last_update_teleported = a;
                      last_update_smoothed_position = b;
                      last_update_smoothed_rotation = c;
                      last_update_source_distance = d;
                    })
                    w
          ]).runtime
            ≡ w.runtime
      go none = refl
      go (some s) = unless (not s.in_use || not (s.player_id == id)) (record s {
        last_update_teleported = a;
        last_update_smoothed_position = b;
        last_update_smoothed_rotation = c;
        last_update_source_distance = d;
      })
