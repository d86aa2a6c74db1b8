-- ===== src/Old/Windows/Rounds.antt =====
-- The socket's part of a round of `SendCycle` does what the gate does, and so does the loop.
use s_vpn.Common.{
  ℕ, ◌+◌, ◌/◌, ◌≤◌, ◌≡◌, refl, sym, ◌∙◌, ap, arith, List, [], ◌∷◌, length, byte_at, ◌==◌,
  Bool-cases, inl, inr, false, Option, none, some,
}
use s_vpn.Common.Int.{pos, ltb_ℤ}
use s_vpn.Common.Control.{go_on, ◌>>=◌}
use s_vpn.Crypt.{CodeTable}
use s_vpn.Crypt.Codes.{length-map}
use s_vpn.Md5.Blocks.{length-copy}
use s_vpn.Old.Windows.Channel.{package_buffer_size, Channel, arrive}
use s_vpn.Old.Windows.Comm.{
  CommClient, Datagram, Begun, begun_state, store, begin_recv_decrypt, end_recv_decrypt,
  end_overlapped,
}
use s_vpn.Old.Windows.Cycle.{
  Cycle, Wake, comm_wakes, tun_wakes, other_wake, Effect, written, received, write_received,
  restart_comm, comm_part, cycle_round, cycle,
}
use s_vpn.Old.Windows.Gate.{Gate, incoming, gate_in, peer_after, gate_round, gate}
use s_vpn.Old.Windows.Holds.{Holds-filled, Holds-decoded, take-Holds}
use s_vpn.Old.Windows.Matches.{FitsDatagram, Fits, AllFit, Matches}
use s_vpn.Old.Windows.TunRound.{
  append_nil, within, Delivers, then_round-Delivers, tun_part-Delivers,
}

-- The object after `WSARecvFrom` has stored what it has.
record HasStored (comm stored : CommClient) (peer : List ℕ) : Type 0 where
  addr : stored.server_addr ≡ peer
  book : stored.code_book ≡ comm.code_book
  quiet : stored.channel.read_state ≡ 0
  inner : length stored.channel.inner_buf ≡ package_buffer_size

module _ (ct : CodeTable) where
  -- A receive that ends, and one that fails.
  received-Matches :
      (c : Cycle) (g : Gate) (completed : Option Datagram)
      → Matches ct c g
      → FitsDatagram completed
      → Matches ct (received c completed) (incoming ct g completed)
  unfolding received end_recv_decrypt end_overlapped store arrive
  received-Matches c g none m fits = rw (ap (λ n. n == 1) m.quiet) m
  received-Matches c g (some d) m fits =
      let inner = Holds-filled c.comm.channel.inner_buf d.bytes m.inner (omega arith) in
      rw (ap (λ n. n == 1) m.quiet) (record {
        peer = refl;
        book = m.book;
        quiet = refl;
        inner = inner.size;
        reading = m.reading;
        out = m.out;
        out_some = m.out_some;
        received =
            rw (← m.book) (
              Holds-decoded _ d.bytes c.buf (length d.bytes) inner m.received.size
                c.comm.code_book);
        received_small = omega (arith, length-map (λ b. byte_at ct.decode b) d.bytes);
      })

  -- A receive that begins.
  begun_same :
      (b : Begun) (ch : Channel)
      → ch.read_state ≡ 0
      → ltb_ℤ (pos 0) b.ret ≡ false
      → (begun_state b ch).1 ≡ ch
  begun_same b ch quiet ret = rw (ret) (elim (Bool-cases b.pending) [
    | inl p ↦ rw (p) (ap (λ n. record ch { read_state = n }) (sym quiet))
    | inr p ↦ rw (p)
  ])

  stored_lem :
      (comm : CommClient) (peer : List ℕ) (at : Option Datagram)
      → comm.server_addr ≡ peer
      → comm.channel.read_state ≡ 0
      → length comm.channel.inner_buf ≡ package_buffer_size
      → FitsDatagram at
      → HasStored comm (store comm at) (peer_after peer at)
  unfolding store arrive
  stored_lem comm peer none addr quiet inner fits = record {
    addr = addr;
    book = refl;
    quiet = quiet;
    inner = inner;
  }
  stored_lem comm peer (some d) addr quiet inner fits = record {
    addr = refl;
    book = refl;
    quiet = quiet;
    inner = length-copy (length d.bytes) comm.channel.inner_buf 0 d.bytes 0 ∙ inner;
  }

  pub restart_comm-Delivers :
      (c : Cycle) (g : Gate) (es : List Effect) (next : Begun)
      → Matches ct c g
      → FitsDatagram next.at_once
      → ltb_ℤ (pos 0) next.ret ≡ false
      → Delivers ct (go_on c es >>= restart_comm next) (gate_in ct g next.at_once, es)
  unfolding begin_recv_decrypt
  restart_comm-Delivers c g es next m fits ret =
      let started : CommClient = record c.comm {
        channel = record c.comm.channel { inner_length = package_buffer_size };
      } in
      let stored = stored_lem started g.peer next.at_once m.peer m.quiet m.inner fits in
      let same = begun_same next (store started next.at_once).channel stored.quiet ret in
      (
        record {
          peer = stored.addr;
          book = stored.book ∙ m.book;
          quiet = ap (λ ch. ch.read_state) same ∙ stored.quiet;
          inner = ap (λ ch. length ch.inner_buf) same ∙ stored.inner;
          reading = m.reading;
          out = m.out;
          out_some = m.out_some;
          received = m.received;
          received_small = m.received_small;
        },
        append_nil es,
      )

  module _ (compressed_length : List ℕ → ℕ)
      (lzo_bound : (p : List ℕ) → compressed_length p ≤ length p + length p / 16 + 67) where
    write_received-written :
        (c : Cycle) (g : Gate)
        → Matches ct c g
        → write_received compressed_length c ≡ go_on c (written g.last_in ∷ [])
    unfolding write_received
    write_received-written c g m = rw (
      within package_buffer_size c.netlen (omega (arith, m.received.count, m.received.fits)),
      take-Holds c.buf g.last_in c.netlen m.received,
      within package_buffer_size (compressed_length g.last_in)
          (omega (arith, lzo_bound g.last_in, m.received_small)),
    )

    pub comm_part-Delivers :
        (c : Cycle) (g : Gate) (completed : Option Datagram) (next : Begun)
        → Matches ct c g
        → Fits (comm_wakes completed next)
        → Delivers ct
            (comm_part compressed_length c completed next)
            (gate_round ct g (comm_wakes completed next))
    unfolding comm_part
    comm_part-Delivers c g completed next m (fits, fits_next, ret) =
        let m' = received-Matches c g completed m fits in
        rw (write_received-written (received c completed) _ m')
          (restart_comm-Delivers (received c completed) _ _ next m' fits_next ret)

    pub cycle_round-Delivers :
        (c : Cycle) (g : Gate) (w : Wake)
        → Matches ct c g
        → Fits w
        → Delivers ct (cycle_round compressed_length c w) (gate_round ct g w)
    unfolding cycle_round
    cycle_round-Delivers c g (comm_wakes completed next) m fits =
        comm_part-Delivers c g completed next m fits
    cycle_round-Delivers c g (tun_wakes completed enbuf next) m fits =
        tun_part-Delivers ct c g completed enbuf next m fits
    cycle_round-Delivers c g other_wake m fits = (m, refl)

    pub cycle-Delivers :
        (c : Cycle) (g : Gate) (ws : List Wake)
        → Matches ct c g
        → AllFit ws
        → Delivers ct (cycle compressed_length c ws) (gate ct g ws)
    unfolding cycle gate
    cycle-Delivers c g [] m fits = (m, refl)
    cycle-Delivers c g (w ∷ ws) m (fits, rest) =
        then_round-Delivers ct (cycle_round compressed_length c w) _ _
          (λ c'. cycle compressed_length c' ws) (gate ct (gate_round ct g w).0 ws)
          (cycle_round-Delivers c g w m fits)
          (λ c' m'. cycle-Delivers c' (gate_round ct g w).0 ws m' rest)
