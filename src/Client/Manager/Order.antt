-- ===== src/Client/Manager/Order.antt =====
-- The order in which plugin/src/remote_proxy_manager.c applies the states of a remote player, with the
-- default backend.
use f4mp.Base.{
  ◌<◌, ◌≤◌, ◌&&◌, ◌⊎◌, ◌≡◌, ◌≢◌, refl, ap, ◌∙◌, subst, Bool, true, false, not, some, arith, inl,
  inr, Bool-cases, Option-cases, if◌then◌else◌,
}
use f4mp.Messages.Player.{MsgPlayerState}
use f4mp.Service.Floats.{Floats}
use f4mp.Client.Table.{find_slot, get, change_slot}
use f4mp.Service.Slots.{find_first}
use f4mp.Client.Table.Laws.{get-write_held, get-found}
use f4mp.Client.Table.Refines.{change_slot-get}
use f4mp.Client.Runtime.{proxy_update_player, proxy_runtime_get_player, player_of_update}
use f4mp.Client.Records.{ProxyPlayerUpdateSpec, ProxyPlayerRecord, player_keyed}
use f4mp.Client.Scene.Records.{ProxyWorld, on_runtime, scene_keyed}
use f4mp.Client.Scene.Driver.{next32}
use f4mp.Client.Policy.{rpup_apply_player_update_ex, dist_sq}
use f4mp.Client.Manager.{
  Plugin, default_backend, remote_player, apply_policy, is_old_state, note_order, update_remote,
  check_order, rpm_apply_remote_player_state, update_spec,
}
use f4mp.Client.Scene.Updates.{clamp01, lerp_vec, lerp_rot}
use f4mp.Client.Manager.Tables.{note-Keeps}

-- A state that is not newer than the last that was applied to a player.
abbrev pub IsNotNewer : MsgPlayerState → ProxyPlayerRecord → Type 0
IsNotNewer msg current =
    ((msg.state_sequence ≢ 0)
      × (current.last_state_sequence ≢ 0)
      × (msg.state_sequence < current.last_state_sequence))
    ⊎ ((msg.state_sequence ≡ current.last_state_sequence)
        × (msg.observed_tick ≢ 0)
        × (current.last_observed_tick ≢ 0)
        × (msg.observed_tick ≤ current.last_observed_tick))

old_state-IsNotNewer :
    (msg : MsgPlayerState) (current : ProxyPlayerRecord)
    → is_old_state msg current ≡ true
    → IsNotNewer msg current
unfolding is_old_state
old_state-IsNotNewer msg current e = ground arith

new_state :
    (msg : MsgPlayerState) (current : ProxyPlayerRecord)
    → is_old_state msg current ≡ false
    → ¬ (IsNotNewer msg current)
unfolding is_old_state
new_state msg current e old = ground arith

module _ (F : Floats) where
  same_player :
      (p : Plugin) (s : ProxyPlayerRecord) (up : ProxyPlayerUpdateSpec)
      → (rpup_apply_player_update_ex F p.policy s up).0.player_id ≡ up.player_id
  unfolding rpup_apply_player_update_ex
  same_player p s up = ground arith

  -- The policy changes the transform of an update alone, and no table.
  policy-Keeps :
      (p : Plugin) (up : ProxyPlayerUpdateSpec)
      → ((apply_policy F p up).0.player_id ≡ up.player_id)
        × ((apply_policy F p up).1.runtime ≡ p.world.runtime)
  unfolding apply_policy proxy_runtime_get_player
  policy-Keeps p up = elim (Option-cases (remote_player p up.player_id)) [
    | inl e ↦ rw (e, apply_policy) (refl, refl)
    | inr (s, e) ↦
        rw (e, apply_policy) (same_player p s up, note-Keeps F up.player_id _ _ _ _ p.world)
  ]

  -- The two writes of a state that is applied.
  noted :
      (msg : MsgPlayerState) (w : ProxyWorld) (x : ProxyPlayerRecord)
      → get msg.player_id w.runtime.players ≡ some x
      → get msg.player_id (note_order msg w).runtime.players
        ≡ some (record x {
          last_state_sequence = msg.state_sequence;
          last_observed_tick = msg.observed_tick;
        })
  unfolding note_order proxy_runtime_get_player player_keyed
  noted msg w x e =
      rw (e, note_order)
        (get-write_held msg.player_id _ w.runtime.players x e
          (get-found msg.player_id w.runtime.players x e))

  updated :
      (up : ProxyPlayerUpdateSpec) (w : ProxyWorld) (x : ProxyPlayerRecord)
      → get up.player_id w.runtime.players ≡ some x
      → ((on_runtime (proxy_update_player up) w).0 ≡ true)
        × (get up.player_id (on_runtime (proxy_update_player up) w).1.runtime.players
            ≡ some (player_of_update up x))
  unfolding proxy_update_player player_keyed
  updated up w x e =
      change_slot-get up.player_id (player_of_update up) w.runtime.players x e
        (get-found up.player_id w.runtime.players x e)

  -- A state that is applied: the record of its player then carries its place in the order.
  update_remote-order :
      (msg : MsgPlayerState) (p : Plugin) (current : ProxyPlayerRecord)
      → p.backend ≡ default_backend
      → remote_player p msg.player_id ≡ some current
      → ((update_remote F msg p).0 ≡ true)
        × (remote_player (update_remote F msg p).1 msg.player_id
            ≡ some (record (player_of_update (apply_policy F p (update_spec msg)).0 current) {
              last_state_sequence = msg.state_sequence;
              last_observed_tick = msg.observed_tick;
            }))
  unfolding update_remote proxy_runtime_get_player proxy_update_player get change_slot find_first
      find_slot apply_policy
  update_remote-order msg p current b e =
      let (same, kept) = policy-Keeps p (update_spec msg) in
      let up = (apply_policy F p (update_spec msg)).0 in
      let w = (apply_policy F p (update_spec msg)).1 in
      let found : get up.player_id w.runtime.players ≡ some current =
        ap (λ i. get i w.runtime.players) same ∙ ap (λ rt. get msg.player_id rt.players) kept ∙ e in
      let (ok, got) = updated up w current found in
      let got' =
        subst
          (λ i.
            get i (on_runtime (proxy_update_player up) w).1.runtime.players
            ≡ some (player_of_update up current))
          same got in
      rw (b, ok) (refl, noted msg _ _ got')

  check_order-behind :
      (msg : MsgPlayerState) (p : Plugin) (current : ProxyPlayerRecord)
      → remote_player p msg.player_id ≡ some current
      → is_old_state msg current ≡ true
      → check_order F msg p
        ≡ (true, record p { rejected_stale_updates = next32 p.rejected_stale_updates })
  unfolding check_order
  check_order-behind msg p current e h = ground (arith, e, h)

  check_order-ahead :
      (msg : MsgPlayerState) (p : Plugin) (current : ProxyPlayerRecord)
      → remote_player p msg.player_id ≡ some current
      → is_old_state msg current ≡ false
      → check_order F msg p ≡ update_remote F msg p
  unfolding check_order
  check_order-ahead msg p current e h = ground (arith, e, h)

  known_player :
      (msg : MsgPlayerState) (p : Plugin) (current : ProxyPlayerRecord)
      → msg.player_id ≢ 0
      → msg.player_id ≢ p.local_player_id
      → remote_player p msg.player_id ≡ some current
      → rpm_apply_remote_player_state F msg p ≡ check_order F msg p
  unfolding rpm_apply_remote_player_state
  known_player msg p current some_player other e = ground (arith, e)

  -- Whether the update policy smooths: it is on, and the player has not moved far.
  abbrev pub smooths : Plugin → ProxyPlayerRecord → MsgPlayerState → Bool
  smooths p current msg =
      p.policy.enabled
      && not (
          F.lt (F.mul p.policy.teleport_distance p.policy.teleport_distance)
            (dist_sq F current.position msg.position))

  -- The record of a player once a state is applied to it: where it is shown, and all else as the state has
  -- it.
  abbrev pub applied : Plugin → ProxyPlayerRecord → MsgPlayerState → ProxyPlayerRecord
  applied p current msg = record current {
    position =
        if smooths p current msg
        then lerp_vec F current.position msg.position (clamp01 F p.policy.position_lerp_alpha)
        else msg.position;
    rotation =
        if smooths p current msg
        then lerp_rot F current.rotation msg.rotation (clamp01 F p.policy.rotation_lerp_alpha)
        else msg.rotation;
    velocity = msg.velocity;
    stance = msg.stance;
    anim_state = msg.anim_state;
    equipped_form_id = msg.equipped_form_id;
    last_state_sequence = msg.state_sequence;
    last_observed_tick = msg.observed_tick;
  }

  policy-shown :
      (msg : MsgPlayerState) (p : Plugin) (current : ProxyPlayerRecord)
      → record (player_of_update
          (rpup_apply_player_update_ex F p.policy current (update_spec msg)).0
          current) {
            last_state_sequence = msg.state_sequence;
            last_observed_tick = msg.observed_tick;
          }
        ≡ applied p current msg
  unfolding rpup_apply_player_update_ex
  policy-shown msg p current = elim (Bool-cases p.policy.enabled) [
    | inr off ↦ simp off refl
    | inl on ↦
        elim (Bool-cases (
          F.lt (F.mul p.policy.teleport_distance p.policy.teleport_distance)
            (dist_sq F current.position msg.position))) [
              | inl far ↦ simp (on, far) refl
              | inr near ↦ simp (on, near) refl
            ]
  ]

  apply_policy-known :
      (p : Plugin) (up : ProxyPlayerUpdateSpec) (current : ProxyPlayerRecord)
      → remote_player p up.player_id ≡ some current
      → (apply_policy F p up).0 ≡ (rpup_apply_player_update_ex F p.policy current up).0
  unfolding apply_policy
  apply_policy-known p up current e = rw (e, apply_policy) refl

  update_remote-shown :
      (msg : MsgPlayerState) (p : Plugin) (current : ProxyPlayerRecord)
      → p.backend ≡ default_backend
      → remote_player p msg.player_id ≡ some current
      → ((update_remote F msg p).0 ≡ true)
        × (remote_player (update_remote F msg p).1 msg.player_id ≡ some (applied p current msg))
  update_remote-shown msg p current b e =
      let (ok, got) = update_remote-order msg p current b e in
      (
        ok,
        got
            ∙ ap
                (λ up. some (record (player_of_update up current) {
                  last_state_sequence = msg.state_sequence;
                  last_observed_tick = msg.observed_tick;
                }))
                (apply_policy-known p (update_spec msg) current e)
            ∙ ap some (policy-shown msg p current),
      )

  -- With the default backend, a state of a known remote player is not newer than the one that was applied
  -- last, and then it is only counted; or it is newer, the call returns true, and the player's record is
  -- the state's, with its number and its tick, where the position and the rotation are smoothed between
  -- the old and the new if the update policy is on and the player has not moved too far. A state is not
  -- newer if its sequence number is lower, or the same and its tick is not higher, where a number or a
  -- tick of 0 counts as unknown, but for a number that both have.
  pub rpm_apply_remote_player_state-order :
      (msg : MsgPlayerState) (p : Plugin) (current : ProxyPlayerRecord)
      → p.backend ≡ default_backend
      → msg.player_id ≢ 0
      → msg.player_id ≢ p.local_player_id
      → remote_player p msg.player_id ≡ some current
      → (IsNotNewer msg current
          × (rpm_apply_remote_player_state F msg p
              ≡ (true, record p { rejected_stale_updates = next32 p.rejected_stale_updates })))
        ⊎ ((¬ (IsNotNewer msg current))
            × ((rpm_apply_remote_player_state F msg p).0 ≡ true)
            × (remote_player (rpm_apply_remote_player_state F msg p).1 msg.player_id
                ≡ some (applied p current msg)))
  rpm_apply_remote_player_state-order msg p current b some_player other e =
      let known = known_player msg p current some_player other e in
      elim (Bool-cases (is_old_state msg current)) [
        | inl h ↦
            inl (old_state-IsNotNewer msg current h, known ∙ check_order-behind msg p current e h)
        | inr h ↦
            let ahead = known ∙ check_order-ahead msg p current e h in
            let (ok, got) = update_remote-shown msg p current b e in
            inr (
              new_state msg current h,
              ap (λ r. r.0) ahead ∙ ok,
              ap (λ r. remote_player r.1 msg.player_id) ahead ∙ got,
            )
      ]
