-- ===== src/Service/Transport/World.antt =====
-- service/src/transport_loop.c: what the handlers of tl_handle_envelope reach.
use f4mp.Base.{ℕ, Bool, false, none, some}
use f4mp.Wire.Reader.{PacketReader, R}
use f4mp.Service.State.{SessionState}
use f4mp.Service.Store.{with_player}
use f4mp.Service.Sessions.{Registry}
use f4mp.Service.Validation.{Whitelist}
use f4mp.Service.Transport.{TransportLoopContext}

-- The context, and what the handlers reach besides: the registry, the counters and the whitelist of the
-- authority, and the profiles on disk.
pub record World (Disk : Type 0) : Type 0 where
  pub ctx : TransportLoopContext
  pub registry : Registry
  pub next_object_id : ℕ
  pub next_actor_id : ℕ
  pub whitelist : Whitelist
  pub disk : Disk

module _ {Disk : Type 0} where
  abbrev pub with_ctx : World Disk → TransportLoopContext → World Disk
  with_ctx w ctx = record w { ctx = ctx }

  abbrev pub with_session : World Disk → SessionState → World Disk
  with_session w s = record w { ctx = record (w.ctx) { session = s } }

  abbrev pub received : World Disk → ℕ → World Disk
  received w sequence = record w {
    ctx = record (w.ctx) { transport = record (w.ctx.transport) { last_rx_sequence = sequence } };
  }

  -- `mutable_player->last_heard_tick = ctx->current_tick`, if there is such a player.
  abbrev pub heard : World Disk → ℕ → World Disk
  heard w player_id =
      with_session w (
        with_player w.ctx.session player_id
          (λ p. record p { last_heard_tick = w.ctx.current_tick }))

  -- `if (!decode(&r, &msg)) return false;`
  abbrev pub decoded :
      {A : Type 0} → R A → PacketReader → World Disk → (A → Bool × World Disk) → Bool × World Disk
  decoded dec r w next = elim (dec r).0 [ none ↦ (false, w) | some msg ↦ next msg ]
