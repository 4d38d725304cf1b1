-- ===== src/Client/Bridge.antt =====
-- plugin/src/movement_live_client_bridge.c: the loop of a live client, which polls its connection, says
-- what is seen of its own player and moves the remote ones.
pub mod Ticks
use f4mp.Base.{
  ℕ, zero, suc, ◌%◌, Bool, true, false, not, ◌&&◌, ◌||◌, Option, none, some, List, ◌==◌, ltb,
  if◌then◌else◌,
}
use f4mp.Messages.Player.{MsgPlayerState}
use f4mp.Service.Floats.{Floats}
use f4mp.Client.Scene.Records.{Fo4SceneProxyInterpolationConfig, ProxyWorld}
use f4mp.Client.Scene.Driver.{next32}
use f4mp.Client.Scene.Updates.{set_interpolation_config}
use f4mp.Client.Manager.{Plugin, rpm_init, rpb_step_backend}
use f4mp.Client.Movement.{LocalPlayerObservedState, MovementSync, msb_build_player_state_if_changed}
use f4mp.Client.Observer.{Observer, lpo_init, lpo_capture}
use f4mp.Client.Link.{
  Udp, Link, PluginTransportClient, ptc_open, ptc_close, ptc_send_hello, ptc_poll_once,
  ptc_send_disconnect, ptc_send_ping, ptc_send_player_state, on_client,
}

pub record MovementLiveClientBridgeConfig : Type 0 where
  pub heartbeat_interval_ticks : ℕ
  pub auto_step_remote_backend : Bool
  pub owns_remote_backend : Bool
  pub remote_backend_step_count : ℕ
  pub apply_scene_backend_interp_config : Bool
  pub scene_interp_config : Fo4SceneProxyInterpolationConfig

-- All but the transport client.
pub record MovementLiveClientBridge : Type 0 where
  pub joined : Bool
  pub tick_counter : ℕ
  pub cfg : MovementLiveClientBridgeConfig

-- The bridge with its client, and the statics of the observer and of the movement bridge.
pub record LiveClient (Net User : Type 0) : Type 0 where
  pub bridge : MovementLiveClientBridge
  pub link : Link Net
  pub observer : Observer User
  pub sync : MovementSync

-- `0.35f` and `0.5f`
unfoldable pub mlcb_init : MovementLiveClientBridge
mlcb_init = record {
  joined = false;
  tick_counter = 0;
  cfg = record {
    heartbeat_interval_ticks = 10;
    auto_step_remote_backend = true;
    owns_remote_backend = true;
    remote_backend_step_count = 2;
    apply_scene_backend_interp_config = false;
    scene_interp_config = record {
      enabled = true;
      position_alpha = 0x3eb3_3333;
      rotation_alpha = 0x3f00_0000;
    };
  };
}

unfoldable pub mlcb_get_config : MovementLiveClientBridge → MovementLiveClientBridgeConfig
mlcb_get_config b = b.cfg

-- `n` steps of the backend.
unfoldable pub step_times : Floats → ℕ → Plugin → Plugin
step_times F zero p = p
step_times F (suc n) p = step_times F n (rpb_step_backend F p)

module _ {Net User : Type 0} where
  abbrev pub on_plugin : (Plugin → Plugin) → LiveClient Net User → LiveClient Net User
  on_plugin f c = record c { link = record link { plugin = f link.plugin } }
    where
      open c use {link}

  module _ (F : Floats) where
    -- `if (b->apply_scene_backend_interp_config) fo4_scene_proxy_backend_stub_set_interpolation_config(...)`
    unfoldable pub mlcb_apply_scene_backend_interpolation_config :
        LiveClient Net User → LiveClient Net User
    mlcb_apply_scene_backend_interpolation_config c =
        if not cfg.apply_scene_backend_interp_config
        then c
        else on_plugin (λ p. record p { world = configured p.world }) c
      where
        open c.bridge use {cfg}

        configured : ProxyWorld → ProxyWorld
        configured w = record w {
          scene = set_interpolation_config F (some cfg.scene_interp_config) w.scene;
        }

    unfoldable pub mlcb_set_config :
        MovementLiveClientBridgeConfig → LiveClient Net User → LiveClient Net User
    mlcb_set_config cfg c = mlcb_apply_scene_backend_interpolation_config (record c {
      bridge = record bridge {
        cfg = record cfg {
          remote_backend_step_count =
              if cfg.remote_backend_step_count == 0 then 1 else cfg.remote_backend_step_count;
        };
      };
    })
      where
        open c use {bridge}

    unfoldable pub mlcb_step_remote_backend : LiveClient Net User → LiveClient Net User
    mlcb_step_remote_backend c =
        if not cfg.auto_step_remote_backend || not cfg.owns_remote_backend
        then c
        else on_plugin (step_times F cfg.remote_backend_step_count) c
      where
        open c.bridge use {cfg}

  -- `mlcb_init` of the bridge with the client in it.
  abbrev pub reset_bridge : LiveClient Net User → LiveClient Net User
  reset_bridge c = record c { bridge = mlcb_init; link = on_client (λ _. ptc_close) c.link }

  -- The first tick that is connected.
  unfoldable pub join : LiveClient Net User → LiveClient Net User
  join c = if not link.client.connected || bridge.joined then c else record c {
    bridge = record bridge { joined = true };
    link = record link { plugin = rpm_init link.client.local_player_id link.plugin };
    observer = lpo_init link.client.local_player_id observer;
  }
    where
      open c use {bridge, link, observer}

  abbrev pub with_link : Bool × Link Net → LiveClient Net User → Bool × LiveClient Net User
  with_link r c = (r.0, record c { link = r.1 })

  module _ (udp : Udp Net) where
    unfoldable pub heartbeat : LiveClient Net User → Bool × LiveClient Net User
    heartbeat c =
        if not joined
          || not (ltb 0 cfg.heartbeat_interval_ticks)
          || not (tick_counter % cfg.heartbeat_interval_ticks == 0)
        then (true, c)
        else with_link (ptc_send_ping udp tick_counter c.link) c
      where
        open c.bridge use {joined, cfg, tick_counter}

    module _ (F : Floats) (capture : User → Option LocalPlayerObservedState × User) where
      -- What msb_build_player_state_if_changed captures and builds, where the bridge has joined.
      unfoldable pub build_state : LiveClient Net User → Option MsgPlayerState × LiveClient Net User
      build_state c =
          let (cur, observer') = lpo_capture capture observer in
          let (msg, sync') = msb_build_player_state_if_changed F cur sync in
          if not bridge.joined
          then (none, c)
          else (msg, record c { observer = observer'; sync = sync' })
        where
          open c use {bridge, observer, sync}

      -- The state of the local player is sent, if there is one; `none` is a send that failed.
      unfoldable pub send_state : LiveClient Net User → Option Bool × LiveClient Net User
      send_state c =
          let (msg?, c') = build_state c in
          elim msg? [
            | none ↦ (some false, c')
            | some msg ↦
                let (ok, link') = ptc_send_player_state udp msg c'.link in
                (if ok then some true else none, record c' { link = link' })
          ]

      -- Up to the point where a state is built: polled, joined, counted and with a heartbeat. `none` is a
      -- tick that fails before, otherwise it is whether something was applied.
      unfoldable pub begin_tick : LiveClient Net User → Option Bool × LiveClient Net User
      begin_tick c =
          let (polled, link') = ptc_poll_once udp F 5 c.link in
          let c₁ : LiveClient Net User = record c { link = link' } in
          let c₂ = count (join c₁) in
          let (alive, c₃) = heartbeat c₂ in
          elim polled [
            | none ↦ (none, c₁)
            | some applied ↦ (if alive then some applied else none, c₃)
          ]
        where
          count : LiveClient Net User → LiveClient Net User
          count c = record c {
            bridge = record bridge { tick_counter = next32 bridge.tick_counter };
          }
            where
              open c use {bridge}

      -- What was sent and what was applied; `none` is false.
      unfoldable pub mlcb_tick : LiveClient Net User → Option (Bool × Bool) × LiveClient Net User
      mlcb_tick c =
          let (begun, c₁) = begin_tick c in
          let (sent?, c₂) = send_state c₁ in
          elim begun [
            | none ↦ (none, c₁)
            | some applied ↦ elim sent? [
              | none ↦ (none, c₂)
              | some sent ↦ (some (sent, applied), mlcb_step_remote_backend F c₂)
            ]
          ]

      unfoldable pub mlcb_open :
          ℕ → Bool → Bool → List ℕ → List ℕ → ℕ → LiveClient Net User → Bool × LiveClient Net User
      mlcb_open port opened parsed player_guid player_name build_hash c =
          let c₁ = mlcb_apply_scene_backend_interpolation_config F (reset_bridge c) in
          let (open?, client) = ptc_open port opened parsed c₁.link.client in
          let l₂ : Link Net = on_client (λ _. client) c₁.link in
          let (said, l₃) = ptc_send_hello udp build_hash player_guid player_name l₂ in
          if not open?
          then (false, record c₁ { link = l₂ })
          else if not said
          then (false, record c₁ { link = on_client (λ _. ptc_close) l₃ })
          else (true, record c₁ { link = l₃ })

      unfoldable pub mlcb_close : LiveClient Net User → LiveClient Net User
      mlcb_close c =
          let l₁ = (ptc_send_disconnect udp 0 c.link).1 in
          let l₂ = (ptc_poll_once udp F 5 l₁).1 in
          reset_bridge (if c.link.client.connected then record c { link = l₂ } else c)
