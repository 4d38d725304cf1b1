-- ===== src/Client/Link/TooLong.antt =====
-- The names that plugin/src/plugin_transport_client.c cannot send.
use f4mp.Base.{
  ℕ, zero, suc, ◌+◌, ◌<◌, ◌≡◌, refl, ap, ◌∙◌, Bool, true, false, Option, none, List, [], ◌∷◌, arith,
  length, take, replicate,
}
use f4mp.Service.Floats.{Floats}
use f4mp.Client.Scene.Driver.{next32}
use f4mp.Client.Link.{
  nothing, Udp, PluginTransportClient, Link, ptc_send_cached_hello, ptc_maybe_retry_hello,
  ptc_send_hello, retry_then, ptc_poll_once,
}

-- The client waits to send a first HELLO that does not fit.
record IsStuck (c : PluginTransportClient) : Type 0 where
  long : 126 < length c.hello_player_guid + length c.hello_player_name
  pending : c.hello_pending ≡ true
  connected : c.connected ≡ false
  unsent : c.hello_send_count ≡ 0

module _ {Net : Type 0} (udp : Udp Net) where
  -- The results of `n` polls one after another, and what they leave.
  unfoldable pub poll_results : Floats → ℕ → ℕ → Link Net → List (Option Bool) × Link Net
  poll_results F t zero l = ([], l)
  poll_results F t (suc n) l =
      let (result, l₁) = ptc_poll_once udp F t l in
      let (results, l₂) = poll_results F t n l₁ in (result ∷ results, l₂)

  cached_too_long :
      (is_retry : Bool) (l : Link Net)
      → 126 < length l.client.hello_player_guid + length l.client.hello_player_name
      → ptc_send_cached_hello udp is_retry l ≡ (false, l)
  unfolding ptc_send_cached_hello
  cached_too_long is_retry l long = ground arith

  -- What ptc_send_hello leaves where it cannot send.
  unsent :
      (build_hash : ℕ) (guid name : List ℕ) (l : Link Net)
      → 126 < length (take 64 guid) + length (take 64 name)
      → ptc_send_hello udp build_hash guid name l ≡ (
        false,
        record l {
          client = record (l.client) {
            hello_build_hash = build_hash;
            hello_player_guid = take 64 guid;
            hello_player_name = take 64 name;
            hello_pending = true;
            connected = false;
            local_player_id = 0;
          };
        },
      )
  unfolding ptc_send_hello
  unsent build_hash guid name l long = cached_too_long false _ long

  -- What a poll leaves in which nothing arrives.
  abbrev after_poll : ℕ → Link Net → Link Net
  after_poll t l = record l {
    client = record (l.client) { poll_count = next32 l.client.poll_count };
    net = (udp.wait t l.net).1;
  }

  quiet_failure :
      (F : Floats) (t : ℕ) (l : Link Net)
      → IsStuck l.client
      → (udp.wait t l.net).0 ≡ nothing
      → ptc_poll_once udp F t l ≡ (none, after_poll t l)
  unfolding ptc_poll_once retry_then ptc_maybe_retry_hello
  quiet_failure F t l stuck quiet =
      let refused =
        cached_too_long false
          (record l {
            client = record (l.client) { poll_count = next32 l.client.poll_count };
            net = (udp.wait t l.net).1;
          })
          stuck.long in
      ground (arith, quiet, stuck.pending, stuck.connected, stuck.unsent, refused)

  -- Nothing arrives, and to wait sends nothing: `sent` is what has gone out.
  module _ (F : Floats) (sent : Net → List (List ℕ))
      (quiet : (timeout_ms : ℕ) (net : Net) → (udp.wait timeout_ms net).0 ≡ nothing)
      (waits : (timeout_ms : ℕ) (net : Net) → sent (udp.wait timeout_ms net).1 ≡ sent net) where
    stuck_polls :
        (t n : ℕ) (l : Link Net)
        → IsStuck l.client
        → ((poll_results F t n l).0 ≡ replicate n none)
          × (sent (poll_results F t n l).1.net ≡ sent l.net)
    unfolding poll_results
    stuck_polls t zero l stuck = (refl, refl)
    stuck_polls t (suc n) l stuck =
        let e = quiet_failure F t l stuck (quiet t l.net) in
        let (results, out) = stuck_polls t n (after_poll t l) (record {
          long = stuck.long;
          pending = stuck.pending;
          connected = stuck.connected;
          unsent = stuck.unsent;
        }) in
        (
          ap (λ r. r.0 ∷ (poll_results F t n r.1).0) e ∙ ap (◌∷◌ none) results,
          ap (λ r. sent (poll_results F t n r.1).1.net) e ∙ out ∙ waits t l.net,
        )

    -- A GUID and a name that come to more than 126 bytes, after each is cut to 64, are not sent, while
    -- nothing arrives, by a client that has sent no HELLO before: ptc_send_hello returns false, every poll
    -- after it returns false, however many there are, and no datagram goes out.
    pub ptc_send_hello-too_long :
        (t n build_hash : ℕ) (guid name : List ℕ) (l : Link Net)
        → 126 < length (take 64 guid) + length (take 64 name)
        → l.client.hello_send_count ≡ 0
        → let (ok, l₁) = ptc_send_hello udp build_hash guid name l in
          let (results, l₂) = poll_results F t n l₁ in
          (ok ≡ false) × (results ≡ replicate n none) × (sent l₂.net ≡ sent l.net)
    ptc_send_hello-too_long t n build_hash guid name l long fresh =
        let e = unsent build_hash guid name l long in
        let (results, out) =
          stuck_polls t n _
            (record { long = long; pending = refl; connected = refl; unsent = fresh }) in
        (
          ap (λ r. r.0) e,
          ap (λ r. (poll_results F t n r.1).0) e ∙ results,
          ap (λ r. sent (poll_results F t n r.1).1.net) e ∙ out,
        )
