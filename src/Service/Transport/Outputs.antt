-- ===== src/Service/Transport/Outputs.antt =====
-- The queue of outputs of service/src/transport_loop.c: its bounds, and tl_tick.
pub mod Sends
use f4mp.Base.{
  ℕ, ◌+◌, ◌%◌, ◌^◌, take, ◌≤◌, ◌<◌, ◌≡◌, refl, Bool, true, false, Option, none, some, List, [], ◌∷◌,
  ◌++◌, arith, length, length-append, All, Bool-cases, Option-cases, inl, inr, if◌then◌else◌, ◌||◌,
  ◌==◌, ltb, leb,
}
use f4mp.Wire.Writer.{W}
use f4mp.Service.State.{PlayerRuntimeState}
use f4mp.Service.Authority.{ac_tick}
use f4mp.Service.Transport.{
  TransportLoopContext, TransportOutput, tl_push_output, tl_send_single, framed, next_sequence,
  packet_header, max_outputs, max_packet_size,
}
use f4mp.Service.Transport.Send.{
  send_all, broadcast, tl_broadcast_player_left, tl_broadcast_actor_despawn,
}
use f4mp.Service.Transport.Tick.{
  tl_tick, expire, clear_dead, timed_out, pending_dead, drop_players, despawn_actors,
}

abbrev pub IsPacket : TransportOutput → Type 0
IsPacket o = (0 < o.length) × (o.length ≤ max_packet_size) × (length o.bytes ≡ o.length)

pub record IsQueue (outputs : List TransportOutput) : Type 0 where
  pub few : length outputs ≤ max_outputs
  pub packets : All IsPacket outputs

All-snoc {ℓ κ} :
    {A : Type ℓ} (P : A → Type κ) (xs : List A) (a : A) → All P xs → P a → All P (xs ++ a ∷ [])
All-snoc P [] a h p = (p, tt)
All-snoc P (x ∷ xs) a h p = (h.0, All-snoc P xs a h.1 p)

tl_push_output-IsQueue :
    (ctx : TransportLoopContext) (connection_id : ℕ) (bytes : List ℕ)
    → IsQueue ctx.outputs
    → IsQueue (tl_push_output ctx connection_id bytes).1.outputs
unfolding tl_push_output
tl_push_output-IsQueue ctx connection_id bytes h =
    elim (Bool-cases (length bytes == 0 || ltb max_packet_size (length bytes))) [
      | inl e ↦ rw e h
      | inr e ↦ rw e (elim (Bool-cases (leb max_outputs (length ctx.outputs))) [
        | inl f ↦ rw f h
        | inr f ↦ rw f (record {
          few = ground (
            arith,
            length-append ctx.outputs (
                record { connection_id = connection_id; length = length bytes; bytes = bytes }
                ∷ []),
            h.few,
          );
          packets =
              All-snoc IsPacket ctx.outputs
                (record { connection_id = connection_id; length = length bytes; bytes = bytes })
                h.packets (ground arith, ground arith, refl);
        })
      ])
    ]

pub tl_send_single-IsQueue :
    (ctx : TransportLoopContext) (connection_id msg_type msg_flags : ℕ) (enc : W)
    → IsQueue ctx.outputs
    → IsQueue (tl_send_single ctx connection_id msg_type msg_flags enc).1.outputs
unfolding tl_send_single
tl_send_single-IsQueue ctx connection_id msg_type msg_flags enc h =
    elim (Option-cases (
      framed (packet_header (next_sequence ctx))
        (record { type = msg_type; flags = msg_flags; length = 0 }) enc)) [
          | inl e ↦ rw (tl_send_single, e) h
          | inr (bytes, e) ↦
              rw (tl_send_single, e)
                (tl_push_output-IsQueue (next_sequence ctx) connection_id bytes h)
        ]

pub send_all-IsQueue :
    (players : List PlayerRuntimeState) (msg_type msg_flags : ℕ) (enc : W)
    (ctx : TransportLoopContext)
    → IsQueue ctx.outputs
    → IsQueue (send_all players msg_type msg_flags enc ctx).outputs
unfolding send_all
send_all-IsQueue [] msg_type msg_flags enc ctx h = h
send_all-IsQueue (p ∷ players) msg_type msg_flags enc ctx h =
    send_all-IsQueue players msg_type msg_flags enc _ (elim (Bool-cases p.connected) [
      | inl e ↦ rw e (tl_send_single-IsQueue ctx p.connection_id msg_type msg_flags enc h)
      | inr e ↦ rw e h
    ])

drop_players-IsQueue :
    (ids : List ℕ) (ctx : TransportLoopContext)
    → IsQueue ctx.outputs
    → IsQueue (drop_players ids ctx).outputs
unfolding drop_players tl_broadcast_player_left broadcast
drop_players-IsQueue [] ctx h = h
drop_players-IsQueue (id ∷ ids) ctx h =
    drop_players-IsQueue ids _ (send_all-IsQueue ctx.session.players _ _ _ ctx h)

despawn_actors-IsQueue :
    (ids : List ℕ) (ctx : TransportLoopContext)
    → IsQueue ctx.outputs
    → IsQueue (despawn_actors ids ctx).outputs
unfolding despawn_actors tl_broadcast_actor_despawn broadcast
despawn_actors-IsQueue [] ctx h = h
despawn_actors-IsQueue (id ∷ ids) ctx h =
    despawn_actors-IsQueue ids _ (send_all-IsQueue ctx.session.players _ _ _ ctx h)

expire-IsQueue : (ctx : TransportLoopContext) → IsQueue ctx.outputs → IsQueue (expire ctx).outputs
unfolding expire
expire-IsQueue ctx h = elim (Bool-cases (ltb 0 ctx.player_timeout_ticks)) [
  | inl e ↦
      rw (e, expire)
        (drop_players-IsQueue
          (timed_out ctx.current_tick ctx.player_timeout_ticks ctx.session.players) ctx h)
  | inr e ↦ rw (e, expire) h
]

clear_dead-IsQueue :
    (ctx : TransportLoopContext) → IsQueue ctx.outputs → IsQueue (clear_dead ctx).outputs
unfolding clear_dead
clear_dead-IsQueue ctx h =
    despawn_actors-IsQueue (take 64 (pending_dead (ac_tick ctx.session).actors))
      (record ctx { session = ac_tick ctx.session }) h

-- A tick keeps the queue within its array of 64 outputs, each of 1 to 1400 bytes.
pub tl_tick-IsQueue :
    (ctx : TransportLoopContext) → IsQueue ctx.outputs → IsQueue (tl_tick ctx).outputs
unfolding tl_tick
tl_tick-IsQueue ctx h =
    let ctx' : TransportLoopContext = record ctx {
      current_tick = (ctx.current_tick + 1) % 2 ^ 32;
    } in
    clear_dead-IsQueue (expire ctx') (expire-IsQueue ctx' h)
