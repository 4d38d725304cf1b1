-- ===== src/Service/Transport/Players.antt =====
-- service/src/transport_loop.c: the profile of a player that says hello, the player behind a
-- connection, and what a newcomer is told; profile_make_default of profile_store.c. The files that
-- profile_load_json and profile_save_json read and write are a parameter.
use f4mp.Base.{
  ℕ, ◌-◌, Bool, true, not, ◌&&◌, ◌||◌, Option, none, some, List, [], ◌∷◌, ◌++◌, ◌==◌, ltb, leb,
  if◌then◌else◌, take, drop, map, replicate,
}
use f4mp.Messages.Types.{Vec3f}
use f4mp.Codec.Player.{encode_msg_player_state}
use f4mp.Codec.Actor.{encode_msg_actor_spawn, encode_msg_actor_state}
use f4mp.Codec.Workshop.{encode_msg_object_spawn}
use f4mp.Service.State.{
  SessionState, PlayerRuntimeState, ActorRuntimeState, ObjectRuntimeState, PlayerProfileSnapshot,
}
use f4mp.Service.Floats.{Floats}
use f4mp.Service.Slots.{find_first}
use f4mp.Service.Geometry.{distance_sq}
use f4mp.Service.Dialogue.{codes}
use f4mp.Service.Transport.{TransportLoopContext, tl_send_single}
use f4mp.Service.Transport.Send.{actor_spawn, object_spawn, reliable, ch1_world, ch3_work}

pub record PlayerProfileItemData : Type 0 where
  pub form_id : ℕ
  pub count : ℕ
  pub equipped : ℕ

pub record PlayerProfilePerkData : Type 0 where
  pub perk_form_id : ℕ
  pub rank : ℕ

pub record PlayerProfileData : Type 0 where
  pub player_guid : List ℕ
  pub display_name : List ℕ
  pub level : ℕ
  pub xp : ℕ
  pub equipped_form_id : ℕ
  pub caps : ℕ
  pub str_stat : ℕ
  pub per_stat : ℕ
  pub end_stat : ℕ
  pub cha_stat : ℕ
  pub int_stat : ℕ
  pub agi_stat : ℕ
  pub luk_stat : ℕ
  pub item_count : ℕ
  pub items : List PlayerProfileItemData
  pub perk_count : ℕ
  pub perks : List PlayerProfilePerkData
  pub sex : ℕ
  pub body_preset : ℕ

-- `snprintf` into arrays of 64 bytes.
unfoldable pub profile_make_default : List ℕ → List ℕ → PlayerProfileData
profile_make_default player_guid display_name = record {
  player_guid = take 63 player_guid;
  display_name = take 63 display_name;
  level = 1;
  xp = 0;
  equipped_form_id = 0;
  caps = 0;
  str_stat = 5;
  per_stat = 5;
  end_stat = 5;
  cha_stat = 5;
  int_stat = 5;
  agi_stat = 5;
  luk_stat = 5;
  item_count = 2;
  items =
      record { form_id = 1; count = 1; equipped = 1 }
      ∷ record { form_id = 2; count = 20; equipped = 0 }
      ∷ replicate 14 (record { form_id = 0; count = 0; equipped = 0 });
  perk_count = 2;
  perks =
      record { perk_form_id = 0x1001; rank = 1 }
      ∷ record { perk_form_id = 0x1002; rank = 1 }
      ∷ replicate 14 (record { perk_form_id = 0; rank = 0 });
  sex = 0;
  body_preset = 0;
}

-- Letters, digits, `_` and `-`.
abbrev pub is_safe : ℕ → Bool
is_safe c =
    (leb 97 c && leb c 122)
    || (leb 65 c && leb c 90)
    || (leb 48 c && leb c 57)
    || c == 95
    || c == 45

-- Into an array of `out_cap` bytes, which is not 0.
unfoldable pub tl_make_safe_guid : List ℕ → ℕ → List ℕ
tl_make_safe_guid guid out_cap = map (λ c. if is_safe c then c else 95) (take (out_cap - 1) guid)

abbrev or_anonymous : List ℕ → List ℕ
or_anonymous [] = codes "anonymous"
or_anonymous (c ∷ cs) = c ∷ cs

unfoldable pub tl_profile_path_for_guid : List ℕ → ℕ → List ℕ
unfolding tl_make_safe_guid
tl_profile_path_for_guid player_guid out_cap =
    take (out_cap - 1)
      (codes "profiles/" ++ or_anonymous (tl_make_safe_guid player_guid 96) ++ codes ".json")

-- The first `count` entries of an array, 16 at most, are written over.
abbrev pub overlay {ℓ} : {A : Type ℓ} → ℕ → List A → List A → List A
overlay count new old = let n = if ltb count 16 then count else 16 in take n new ++ drop n old

unfoldable pub store_profile : PlayerProfileData → PlayerProfileSnapshot → PlayerProfileSnapshot
store_profile p s = record {
  loaded = true;
  level = p.level;
  xp = p.xp;
  equipped_form_id = p.equipped_form_id;
  caps = p.caps;
  str_stat = p.str_stat;
  per_stat = p.per_stat;
  end_stat = p.end_stat;
  cha_stat = p.cha_stat;
  int_stat = p.int_stat;
  agi_stat = p.agi_stat;
  luk_stat = p.luk_stat;
  item_count = p.item_count;
  items =
      overlay p.item_count
        (map
          (λ (i : PlayerProfileItemData). record {
            form_id = i.form_id;
            count = i.count;
            equipped = i.equipped;
          })
          p.items)
        s.items;
  perk_count = p.perk_count;
  perks =
      overlay p.perk_count
        (map
          (λ (i : PlayerProfilePerkData). record { perk_form_id = i.perk_form_id; rank = i.rank })
          p.perks)
        s.perks;
  sex = p.sex;
  body_preset = p.body_preset;
}

-- The files that hold the profiles, by path. A load that fails is `none`.
pub record ProfileFiles (Disk : Type 0) : Type 0 where
  pub load : Disk → List ℕ → Option PlayerProfileData
  pub save : Disk → List ℕ → PlayerProfileData → Disk

unfoldable pub tl_load_profile_into_player :
    {Disk : Type 0} → ProfileFiles Disk → Disk → PlayerRuntimeState → PlayerRuntimeState × Disk
unfolding store_profile
tl_load_profile_into_player files disk slot =
    let path = tl_profile_path_for_guid slot.profile_ref.player_guid 128 in
    elim (files.load disk path) [
      | some profile ↦
          (record slot { profile_snapshot = store_profile profile slot.profile_snapshot }, disk)
      | none ↦
          let profile =
            profile_make_default slot.profile_ref.player_guid slot.profile_ref.display_name in
          (
            record slot { profile_snapshot = store_profile profile slot.profile_snapshot },
            files.save disk path profile,
          )
    ]

unfoldable pub is_behind : ℕ → PlayerRuntimeState → Bool
is_behind connection_id p = p.connected && p.connection_id == connection_id

unfoldable pub tl_find_player_by_connection : SessionState → ℕ → Option PlayerRuntimeState
tl_find_player_by_connection s connection_id = find_first (is_behind connection_id) s.players

-- The first loop of tl_send_existing_state_to_player: the states that are sent, and the centre.
unfoldable pub send_players :
    List PlayerRuntimeState → ℕ → ℕ → Vec3f → TransportLoopContext → Vec3f × TransportLoopContext
send_players [] connection_id exclude center ctx = (center, ctx)
send_players (p ∷ players) connection_id exclude center ctx =
    send_players players connection_id exclude
      (if p.connected && p.player_id == exclude then p.replicated_state.position else center)
      (if p.connected && not (p.player_id == exclude)
        then (tl_send_single ctx connection_id 0x0102 ch1_world
            (encode_msg_player_state p.replicated_state)).1
        else ctx)

module _ (F : Floats) where
  open F use {mul, lt, le}

  unfoldable pub send_actors :
      List ActorRuntimeState → ℕ → Vec3f → ℕ → TransportLoopContext → TransportLoopContext
  send_actors [] connection_id center radius ctx = ctx
  send_actors (a ∷ actors) connection_id center radius ctx =
      send_actors actors connection_id center radius (
        if a.in_use
          && not (lt (mul radius radius) (distance_sq F a.replicated_state.position center))
        then (tl_send_single
            (tl_send_single ctx connection_id 0x0201 (reliable ch1_world)
              (encode_msg_actor_spawn (actor_spawn a))).1
            connection_id 0x0202 ch1_world (encode_msg_actor_state a.replicated_state)).1
        else ctx)

  unfoldable pub send_objects :
      List ObjectRuntimeState → ℕ → Vec3f → ℕ → TransportLoopContext → TransportLoopContext
  send_objects [] connection_id center radius ctx = ctx
  send_objects (o ∷ objects) connection_id center radius ctx =
      send_objects objects connection_id center radius (
        if o.in_use && not (lt (mul radius radius) (distance_sq F o.position center))
        then (tl_send_single ctx connection_id 0x0403 (reliable ch3_work)
            (encode_msg_object_spawn (object_spawn o))).1
        else ctx)

  -- 512.0f where the bubble has no radius.
  unfoldable pub tl_send_existing_state_to_player :
      TransportLoopContext → ℕ → ℕ → TransportLoopContext
  tl_send_existing_state_to_player ctx connection_id exclude =
      let s = ctx.session in
      let (center, ctx') = send_players s.players connection_id exclude s.bubble.center ctx in
      let radius = if le s.bubble.radius 0 then 0x4400_0000 else s.bubble.radius in
      send_objects s.objects connection_id center radius
        (send_actors s.actors connection_id center radius ctx')
