-- ===== src/Service/Transport/Tick.antt =====
-- service/src/transport_loop.c: tl_tick. The replay log, which is only written, is left out.
use f4mp.Base.{ℕ, ◌+◌, ◌-◌, ◌%◌, ◌^◌, ◌&&◌, List, [], ◌∷◌, ltb, if◌then◌else◌, take}
use f4mp.Service.State.{PlayerRuntimeState, ActorRuntimeState}
use f4mp.Service.Store.{ws_remove_actor}
use f4mp.Service.Sessions.{sm_remove_player}
use f4mp.Service.Quest.{has_bit}
use f4mp.Service.Authority.{ac_tick, actf_dead}
use f4mp.Service.Transport.{TransportLoopContext}
use f4mp.Service.Transport.Send.{tl_broadcast_player_left, tl_broadcast_actor_despawn}

-- `ctx->current_tick - p->last_heard_tick`, in 32 bits.
abbrev pub ticks_since : ℕ → ℕ → ℕ
ticks_since now then_ = (now + 2 ^ 32 - then_) % 2 ^ 32

unfoldable pub timed_out : ℕ → ℕ → List PlayerRuntimeState → List ℕ
timed_out now limit [] = []
timed_out now limit (p ∷ players) =
    let rest = timed_out now limit players in
    if p.connected && ltb limit (ticks_since now p.last_heard_tick)
    then p.player_id ∷ rest
    else rest

unfoldable pub drop_players : List ℕ → TransportLoopContext → TransportLoopContext
drop_players [] ctx = ctx
drop_players (id ∷ ids) ctx =
    let ctx' = tl_broadcast_player_left ctx id in
    drop_players ids (record ctx' { session = (sm_remove_player ctx'.session id).1 })

-- The ids of the dead actors that are pending; the loop stops after 64.
unfoldable pub pending_dead : List ActorRuntimeState → List ℕ
pending_dead [] = []
pending_dead (a ∷ actors) =
    let rest = pending_dead actors in
    if a.in_use && a.pending_despawn && has_bit a.replicated_state.actor_flags actf_dead
    then a.actor_net_id ∷ rest
    else rest

unfoldable pub despawn_actors : List ℕ → TransportLoopContext → TransportLoopContext
despawn_actors [] ctx = ctx
despawn_actors (id ∷ ids) ctx =
    let ctx' = tl_broadcast_actor_despawn ctx id 3 in
    despawn_actors ids (record ctx' { session = ws_remove_actor ctx'.session id })

-- The players that were not heard for too long.
unfoldable pub expire : TransportLoopContext → TransportLoopContext
expire ctx =
    if ltb 0 ctx.player_timeout_ticks
    then drop_players (timed_out ctx.current_tick ctx.player_timeout_ticks ctx.session.players) ctx
    else ctx

-- The tick of the authority, and the dead actors that are pending then.
unfoldable pub clear_dead : TransportLoopContext → TransportLoopContext
clear_dead ctx =
    let s = ac_tick ctx.session in
    despawn_actors (take 64 (pending_dead s.actors)) (record ctx { session = s })

unfoldable pub tl_tick : TransportLoopContext → TransportLoopContext
tl_tick ctx = clear_dead (expire (record ctx { current_tick = (ctx.current_tick + 1) % 2 ^ 32 }))
