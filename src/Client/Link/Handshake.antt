-- ===== src/Client/Link/Handshake.antt =====
-- The HELLO of plugin/src/plugin_transport_client.c, until the service answers.
use f4mp.Base.{
  ℕ, zero, suc, ◌+◌, ◌*◌, ◌^◌, ◌<◌, ◌≡◌, refl, sym, ap, ◌∙◌, subst, Bool, true, false, ◌&&◌, some,
  List, [], ◌∷◌, ◌++◌, arith, length-append,
}
use mathlib.Core.List.{append_assoc, append-nil}
use f4mp.Service.Floats.{Floats}
use f4mp.Service.Slots.{is_some}
use f4mp.Client.Scene.Driver.{next32}
use f4mp.Client.Link.{
  nothing, Udp, counted, Link, ptc_send_one, ptc_send_cached_hello, ptc_maybe_retry_hello,
  retry_then, ptc_poll_once,
}
use f4mp.Client.Link.Hellos.{
  IsWaiting, IsHello, AreHellos, greeting, sequence_after, HasSent, AreHellos-append,
  sequence_after-append, IsHello-framed,
}

-- Polls one after another: whether each returned true, and what they leave.
unfoldable pub polls : {Net : Type 0} → Floats → Udp Net → ℕ → ℕ → Link Net → Bool × Link Net
polls F udp t zero l = (true, l)
polls F udp t (suc n) l =
    let (applied, l') = ptc_poll_once udp F t l in
    let (ok, l'') = polls F udp t n l' in (is_some applied && ok, l'')

-- `k` times as many polls as an interval has.
unfoldable pub intervals :
    {Net : Type 0} → Floats → Udp Net → ℕ → ℕ → ℕ → Link Net → Bool × Link Net
intervals F udp t zero i l = (true, l)
intervals F udp t (suc k) i l =
    let (ok, l') = polls F udp t i l in
    let (oks, l'') = intervals F udp t k i l' in (ok && oks, l'')

-- Nothing arrives, and what is sent goes out: `sent` is the datagrams that did, the first one first.
module _ (F : Floats) {Net : Type 0} (udp : Udp Net) (sent : Net → List (List ℕ))
    (quiet : (timeout_ms : ℕ) (net : Net) → (udp.wait timeout_ms net).0 ≡ nothing)
    (waits : (timeout_ms : ℕ) (net : Net) → sent (udp.wait timeout_ms net).1 ≡ sent net)
    (sends : (bytes : List ℕ) (net : Net) → (udp.send bytes net).0 ≡ true)
    (goes_out : (bytes : List ℕ) (net : Net)
      → sent (udp.send bytes net).1 ≡ sent net ++ (bytes ∷ [])) where
  -- What a poll leaves before the interval is over.
  abbrev polled : ℕ → Link Net → Link Net
  polled t l = record l {
    client = record (l.client) { poll_count = l.client.poll_count + 1 };
    net = (udp.wait t l.net).1;
  }

  quiet_poll :
      (t d : ℕ) (l : Link Net)
      → IsWaiting d l.client
      → d + 1 < l.client.hello_retry_interval_polls
      → l.client.poll_count + 1 < 2 ^ 32
      → ptc_poll_once udp F t l ≡ (some false, polled t l)
  unfolding ptc_poll_once retry_then ptc_maybe_retry_hello
  quiet_poll t d l w soon room =
      ground (arith, quiet t l.net, w.connected, w.pending, w.sent, w.since)

  polled-IsWaiting :
      (t d : ℕ) (l : Link Net) → IsWaiting d l.client → IsWaiting (d + 1) (polled t l).client
  polled-IsWaiting t d l w = record {
    connected = w.connected;
    pending = w.pending;
    sent = w.sent;
    since = omega (arith, w.since);
    session_id = w.session_id;
    build_hash = w.build_hash;
    guid = w.guid;
    name = w.name;
    guid_short = w.guid_short;
    name_short = w.name_short;
    fits = w.fits;
  }

  -- What it leaves to send a datagram.
  abbrev after_hello : Bool → List ℕ → Link Net → Link Net
  after_hello is_retry bytes l = record l {
    client = counted is_retry (record (l.client) { sequence = next32 l.client.sequence });
    net = (udp.send bytes l.net).1;
  }

  IsHello-sent :
      (is_retry : Bool) (d : ℕ) (l : Link Net)
      → IsWaiting d l.client
      → (bytes : List ℕ) × (ptc_send_cached_hello udp is_retry l
          ≡ (true, after_hello is_retry bytes l))
        × IsHello (greeting l.client) (next32 l.client.sequence) bytes
  unfolding ptc_send_cached_hello ptc_send_one
  IsHello-sent is_retry d l w =
      let (bytes, e, read) =
        IsHello-framed (record (l.client) { sequence = next32 l.client.sequence }) d
          (record {
            connected = w.connected;
            pending = w.pending;
            sent = w.sent;
            since = w.since;
            session_id = w.session_id;
            build_hash = w.build_hash;
            guid = w.guid;
            name = w.name;
            guid_short = w.guid_short;
            name_short = w.name_short;
            fits = w.fits;
          })
          (omega arith) in
      (bytes, ground (arith, e, sends bytes l.net, w.pending, w.fits), read)

  -- The poll that ends the interval.
  last_poll :
      (t d : ℕ) (l : Link Net)
      → IsWaiting d l.client
      → d + 1 ≡ l.client.hello_retry_interval_polls
      → l.client.poll_count + 1 < 2 ^ 32
      → (bytes : List ℕ) × (ptc_poll_once udp F t l
          ≡ (some false, after_hello true bytes (polled t l)))
        × IsHello (greeting l.client) (next32 l.client.sequence) bytes
  unfolding ptc_poll_once retry_then ptc_maybe_retry_hello
  last_poll t d l w over room =
      let (bytes, sent_now, read) =
        IsHello-sent true (d + 1) (polled t l) (polled-IsWaiting t d l w) in
      (
        bytes,
        ground (arith, quiet t l.net, w.connected, w.pending, w.sent, w.since, sent_now),
        read,
      )

  end_of_interval :
      (t d : ℕ) (bytes : List ℕ) (l : Link Net)
      → IsWaiting d l.client
      → l.client.hello_send_count + 1 < 2 ^ 32
      → IsHello (greeting l.client) (next32 l.client.sequence) bytes
      → HasSent sent 1 1 l (after_hello true bytes (polled t l))
  end_of_interval t d bytes l w more read = record {
    waiting = record {
      connected = w.connected;
      pending = w.pending;
      sent = omega arith;
      since = omega arith;
      session_id = w.session_id;
      build_hash = w.build_hash;
      guid = w.guid;
      name = w.name;
      guid_short = w.guid_short;
      name_short = w.name_short;
      fits = w.fits;
    };
    interval = refl;
    polls = refl;
    hellos = omega arith;
    greets = refl;
    datagrams = bytes ∷ [];
    number = refl;
    gone_out = goes_out bytes (udp.wait t l.net).1 ∙ ap (λ xs. xs ++ (bytes ∷ [])) (waits t l.net);
    read = (read, tt);
    sequence = refl;
  }

  polls_suc :
      (t n : ℕ) (l l' : Link Net)
      → ptc_poll_once udp F t l ≡ (some false, l')
      → polls F udp t (suc n) l ≡ polls F udp t n l'
  unfolding polls
  polls_suc t n l l' e =
      ap (λ r. (is_some r.0 && (polls F udp t n r.1).0, (polls F udp t n r.1).1)) e

  -- A poll without a HELLO before some that send.
  polled-HasSent :
      (t n k : ℕ) (l l' : Link Net) → HasSent sent n k (polled t l) l' → HasSent sent (suc n) k l l'
  polled-HasSent t n k l l' h = record {
    waiting = h.waiting;
    interval = h.interval;
    polls = omega (arith, h.polls);
    hellos = h.hellos;
    greets = h.greets;
    datagrams = h.datagrams;
    number = h.number;
    gone_out = h.gone_out ∙ ap (λ xs. xs ++ h.datagrams) (waits t l.net);
    read = h.read;
    sequence = h.sequence;
  }

  -- From within an interval to its end.
  rest_of_interval :
      (t r d : ℕ) (l : Link Net)
      → IsWaiting d l.client
      → d + suc r ≡ l.client.hello_retry_interval_polls
      → l.client.poll_count + suc r < 2 ^ 32
      → l.client.hello_send_count + 1 < 2 ^ 32
      → ((polls F udp t (suc r) l).0 ≡ true) × HasSent sent (suc r) 1 l (polls F udp t (suc r) l).1
  unfolding polls
  rest_of_interval t zero d l w e room more =
      let (bytes, p, read) = last_poll t d l w (omega arith) (omega arith) in
      let last = polls_suc t 0 l _ p in
      (
        ap (λ x. x.0) last,
        subst (λ x. HasSent sent 1 1 l x.1) (sym last) (end_of_interval t d bytes l w more read),
      )
  rest_of_interval t (suc r) d l w e room more =
      let step = polls_suc t (suc r) l _ (quiet_poll t d l w (omega arith) (omega arith)) in
      let (ok, h) =
        rest_of_interval t r (d + 1) (polled t l) (polled-IsWaiting t d l w) (omega arith)
          (omega arith) (omega arith) in
      (
        ap (λ x. x.0) step ∙ ok,
        subst (λ x. HasSent sent (suc (suc r)) 1 l x.1) (sym step)
            (polled-HasSent t (suc r) 1 l _ h),
      )

  -- One run after another.
  HasSent-then :
      (n m k j : ℕ) (l l₁ l₂ : Link Net)
      → HasSent sent n k l l₁
      → HasSent sent m j l₁ l₂
      → HasSent sent (n + m) (k + j) l l₂
  HasSent-then n m k j l l₁ l₂ h g = record {
    waiting = g.waiting;
    interval = g.interval ∙ h.interval;
    polls = omega (arith, h.polls, g.polls);
    hellos = omega (arith, h.hellos, g.hellos);
    greets = g.greets ∙ h.greets;
    datagrams = h.datagrams ++ g.datagrams;
    number = omega (arith, length-append h.datagrams g.datagrams, h.number, g.number);
    gone_out =
        g.gone_out
        ∙ ap (λ xs. xs ++ g.datagrams) h.gone_out
        ∙ append_assoc (sent l.net) h.datagrams g.datagrams;
    read = AreHellos-append (greeting l.client) l.client.sequence h.datagrams g.datagrams h.read (
        subst (λ q. AreHellos (greeting l.client) q g.datagrams) h.sequence
          (subst (λ w. AreHellos w l₁.client.sequence g.datagrams) h.greets g.read));
    sequence =
        g.sequence
        ∙ ap (λ q. sequence_after q g.datagrams) h.sequence
        ∙ sym (sequence_after-append l.client.sequence h.datagrams g.datagrams);
  }

  -- While nothing arrives and what is sent goes out, a client that has just sent its HELLO, which fits
  -- its buffer, and waits for the welcome sends it again once in every interval of polls, for as many
  -- intervals as its counters have room for: that many datagrams go out and no others, each of which the
  -- service reads as a HELLO with the client's session, build, GUID and name, with one sequence number
  -- after the other; every poll returns true, and the client still waits.
  pub ptc_poll_once-hellos :
      (t k i : ℕ) (l : Link Net)
      → IsWaiting 0 l.client
      → l.client.hello_retry_interval_polls ≡ suc i
      → l.client.poll_count + k * suc i < 2 ^ 32
      → l.client.hello_send_count + k < 2 ^ 32
      → ((intervals F udp t k (suc i) l).0 ≡ true)
        × HasSent sent (k * suc i) k l (intervals F udp t k (suc i) l).1
  unfolding intervals
  ptc_poll_once-hellos t zero i l w e room more = (
    refl,
    record {
      waiting = w;
      interval = refl;
      polls = omega arith;
      hellos = omega arith;
      greets = refl;
      datagrams = [];
      number = refl;
      gone_out = sym (append-nil (sent l.net));
      read = tt;
      sequence = refl;
    },
  )
  ptc_poll_once-hellos t (suc k) i l w e room more =
      let l₁ = (polls F udp t (suc i) l).1 in
      let (ok, h) = rest_of_interval t i 0 l w (omega (arith, e)) (omega arith) (omega arith) in
      let (oks, hs) =
        ptc_poll_once-hellos t k i l₁ h.waiting (h.interval ∙ e) (omega (arith, h.polls))
          (omega (arith, h.hellos)) in
      (
        ground (arith, ok, oks),
        subst (λ n. HasSent sent n (suc k) l (intervals F udp t k (suc i) l₁).1) (omega arith)
            (subst (λ j. HasSent sent (suc i + k * suc i) j l (intervals F udp t k (suc i) l₁).1)
              (omega arith) (HasSent-then (suc i) (k * suc i) 1 k l l₁ _ h hs)),
      )
