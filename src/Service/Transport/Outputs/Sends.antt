-- ===== src/Service/Transport/Outputs/Sends.antt =====
-- What is sent, to one player or to all of them, and the queue of outputs.
use f4mp.Base.{ℕ, ◌==◌, Bool, true, false, Option, none, some, List, [], ◌∷◌, if◌then◌else◌}
use f4mp.Wire.Writer.{W}
use f4mp.Messages.Types.{Vec3f}
use f4mp.Service.State.{PlayerRuntimeState, ActorRuntimeState, ObjectRuntimeState}
use f4mp.Service.Floats.{Floats}
use f4mp.Service.Authority.{FireResult}
use f4mp.Service.Transport.{TransportLoopContext}
use f4mp.Service.Transport.Send.{
  broadcast, and_next, tl_broadcast_player_state, tl_broadcast_damage, tl_broadcast_death,
  tl_broadcast_actor_state, tl_broadcast_object_spawn, tl_broadcast_object_update,
  tl_broadcast_object_despawn, tl_send_welcome, tl_send_profile_snapshot,
}
use f4mp.Service.Transport.Players.{
  send_players, send_actors, send_objects, tl_send_existing_state_to_player,
}
use f4mp.Service.Transport.Requests.{announce_shot}
use f4mp.Service.Transport.Outputs.{IsQueue, send_all-IsQueue, tl_send_single-IsQueue}

pub broadcast-IsQueue :
    (ctx : TransportLoopContext) (msg_type msg_flags : ℕ) (enc : W)
    → IsQueue ctx.outputs
    → IsQueue (broadcast ctx msg_type msg_flags enc).outputs
unfolding broadcast
broadcast-IsQueue ctx msg_type msg_flags enc h =
    send_all-IsQueue ctx.session.players msg_type msg_flags enc ctx h

cond-IsQueue :
    (b : Bool) (x y : TransportLoopContext)
    → IsQueue x.outputs
    → IsQueue y.outputs
    → IsQueue (if b then x else y).outputs
cond-IsQueue true x y h k = h
cond-IsQueue false x y h k = k

pub case-IsQueue :
    {A : Type 0} (o : Option A) (x : TransportLoopContext) (f : A → TransportLoopContext)
    → IsQueue x.outputs
    → ((a : A) → IsQueue (f a).outputs)
    → IsQueue (elim o as (λ _. TransportLoopContext) [ none ↦ x | some a ↦ f a ]).outputs
case-IsQueue none x f h k = h
case-IsQueue (some a) x f h k = k a

and_next-IsQueue :
    (p : Bool × TransportLoopContext) (next : TransportLoopContext → Bool × TransportLoopContext)
    → IsQueue p.1.outputs
    → ((ctx : TransportLoopContext) → IsQueue ctx.outputs → IsQueue (next ctx).1.outputs)
    → IsQueue (and_next p next).1.outputs
unfolding and_next
and_next-IsQueue (true, ctx) next h k = k ctx h
and_next-IsQueue (false, ctx) next h k = h

pub announce_shot-IsQueue :
    (res : FireResult) (ctx : TransportLoopContext)
    → IsQueue ctx.outputs
    → IsQueue (announce_shot res ctx).outputs
unfolding announce_shot tl_broadcast_damage tl_broadcast_death tl_broadcast_actor_state
announce_shot-IsQueue res ctx h =
    let shown = broadcast-IsQueue ctx _ _ _ h in
    cond-IsQueue (res.damage.victim_actor_net_id == 0) _ _ h (
      case-IsQueue res.death _ _ (case-IsQueue _ _ _ shown (λ a. broadcast-IsQueue _ _ _ _ shown))
        (λ d.
          broadcast-IsQueue _ _ _ _
            (case-IsQueue _ _ _ shown (λ a. broadcast-IsQueue _ _ _ _ shown))))

pub tl_send_profile_snapshot-IsQueue :
    (ctx : TransportLoopContext) (connection_id : ℕ) (p : PlayerRuntimeState)
    → IsQueue ctx.outputs
    → IsQueue (tl_send_profile_snapshot ctx connection_id p).1.outputs
unfolding tl_send_profile_snapshot
tl_send_profile_snapshot-IsQueue ctx connection_id p h =
    and_next-IsQueue _ _ (tl_send_single-IsQueue ctx _ _ _ _ h) λ ctx₁ h₁.
      and_next-IsQueue _ _ (tl_send_single-IsQueue ctx₁ _ _ _ _ h₁) λ ctx₂ h₂.
        and_next-IsQueue _ _ (tl_send_single-IsQueue ctx₂ _ _ _ _ h₂)
          λ ctx₃ h₃. tl_send_single-IsQueue ctx₃ _ _ _ _ h₃

send_players-IsQueue :
    (players : List PlayerRuntimeState) (connection_id exclude : ℕ) (center : Vec3f)
    (ctx : TransportLoopContext)
    → IsQueue ctx.outputs
    → IsQueue (send_players players connection_id exclude center ctx).1.outputs
unfolding send_players
send_players-IsQueue [] connection_id exclude center ctx h = h
send_players-IsQueue (p ∷ players) connection_id exclude center ctx h =
    send_players-IsQueue players connection_id exclude _ _
      (cond-IsQueue _ _ _ (tl_send_single-IsQueue ctx _ _ _ _ h) h)

module _ (F : Floats) where
  send_actors-IsQueue :
      (actors : List ActorRuntimeState) (connection_id : ℕ) (center : Vec3f) (radius : ℕ)
      (ctx : TransportLoopContext)
      → IsQueue ctx.outputs
      → IsQueue (send_actors F actors connection_id center radius ctx).outputs
  unfolding send_actors
  send_actors-IsQueue [] connection_id center radius ctx h = h
  send_actors-IsQueue (a ∷ actors) connection_id center radius ctx h =
      send_actors-IsQueue actors connection_id center radius _ (
        cond-IsQueue _ _ _ (tl_send_single-IsQueue _ _ _ _ _ (tl_send_single-IsQueue ctx _ _ _ _ h))
          h)

  send_objects-IsQueue :
      (objects : List ObjectRuntimeState) (connection_id : ℕ) (center : Vec3f) (radius : ℕ)
      (ctx : TransportLoopContext)
      → IsQueue ctx.outputs
      → IsQueue (send_objects F objects connection_id center radius ctx).outputs
  unfolding send_objects
  send_objects-IsQueue [] connection_id center radius ctx h = h
  send_objects-IsQueue (o ∷ objects) connection_id center radius ctx h =
      send_objects-IsQueue objects connection_id center radius _
        (cond-IsQueue _ _ _ (tl_send_single-IsQueue ctx _ _ _ _ h) h)

  pub existing-IsQueue :
      (ctx : TransportLoopContext) (connection_id exclude : ℕ)
      → IsQueue ctx.outputs
      → IsQueue (tl_send_existing_state_to_player F ctx connection_id exclude).outputs
  unfolding tl_send_existing_state_to_player
  existing-IsQueue ctx connection_id exclude h =
      send_objects-IsQueue ctx.session.objects connection_id _ _ _ (
        send_actors-IsQueue ctx.session.actors connection_id _ _ _ (
          send_players-IsQueue ctx.session.players connection_id exclude ctx.session.bubble.center
            ctx h))

pub player_state-IsQueue :
    (ctx : TransportLoopContext) (p : PlayerRuntimeState)
    → IsQueue ctx.outputs
    → IsQueue (tl_broadcast_player_state ctx p).outputs
unfolding tl_broadcast_player_state
player_state-IsQueue ctx p h = broadcast-IsQueue ctx _ _ _ h

pub despawn-IsQueue :
    (ctx : TransportLoopContext) (object_net_id reason : ℕ)
    → IsQueue ctx.outputs
    → IsQueue (tl_broadcast_object_despawn ctx object_net_id reason).outputs
unfolding tl_broadcast_object_despawn
despawn-IsQueue ctx object_net_id reason h = broadcast-IsQueue ctx _ _ _ h

pub update-IsQueue :
    (ctx : TransportLoopContext) (o : ObjectRuntimeState) (fields_mask : ℕ)
    → IsQueue ctx.outputs
    → IsQueue (tl_broadcast_object_update ctx o fields_mask).outputs
unfolding tl_broadcast_object_update
update-IsQueue ctx o fields_mask h = broadcast-IsQueue ctx _ _ _ h

pub spawn-IsQueue :
    (ctx : TransportLoopContext) (o : ObjectRuntimeState)
    → IsQueue ctx.outputs
    → IsQueue (tl_broadcast_object_spawn ctx o).outputs
unfolding tl_broadcast_object_spawn
spawn-IsQueue ctx o h = broadcast-IsQueue ctx _ _ _ h

pub welcomed-IsQueue :
    (ctx : TransportLoopContext) (connection_id player_id : ℕ)
    → IsQueue ctx.outputs
    → IsQueue (tl_send_welcome ctx connection_id player_id).1.outputs
unfolding tl_send_welcome
welcomed-IsQueue ctx connection_id player_id h = tl_send_single-IsQueue ctx _ _ _ _ h
