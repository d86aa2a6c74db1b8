-- ===== src/Old/Windows/TunRound.antt =====
-- The tunnel's part of a round of `SendCycle` does what the gate does.
use s_vpn.Common.{
  ℕ, ◌/◌, ◌≤◌, ◌≡◌, refl, ◌∙◌, ap, ap₂, arith, List, [], ◌∷◌, ◌++◌, length, byte_at, take, ◌==◌,
  if◌then◌else◌, ltb, Bool, true, false, Option, none, some,
}
use s_vpn.Common.Control.{go_on, skip, stop, fault, emit, ◌>>=◌, then_round}
use s_vpn.Crypt.Codes.{encode_all}
use s_vpn.Crypt.{CodeTable, encrypt}
use s_vpn.Old.Windows.Channel.{package_buffer_size}
use s_vpn.Old.Windows.Comm.{send_encrypt}
use s_vpn.Old.Windows.Tun.{Started}
use s_vpn.Old.Windows.Cycle.{
  Cycle, tun_wakes, Effect, Outcome, fetched, forward, tun_part, restart_tun,
}
use s_vpn.Old.Windows.Gate.{Gate, next_packet, read_ahead, outgoing, gate_round}
use s_vpn.Old.Windows.Holds.{take-sent}
use s_vpn.Old.Windows.Matches.{
  FitsPacket, FitsStarted, Fits, IsReading, Matches, begin_read-IsReading, end_read-HasFetched,
}

pub append_nil : (es : List Effect) → es ++ [] ≡ es
append_nil [] = refl
append_nil (e ∷ es) = ap (λ fs. e ∷ fs) (append_nil es)

pub within : (bound n : ℕ) → n ≤ bound → ltb bound n ≡ false
within bound n h = ground arith

go_on_if :
    (b : Bool) (c : Cycle) (e : Effect)
    → (if b then go_on c (e ∷ []) else go_on c []) ≡ go_on c (if b then e ∷ [] else [])
go_on_if true c e = refl
go_on_if false c e = refl

-- The part ends normally, with these effects, in a state that stands for the gate.
abbrev pub Delivers : CodeTable → Outcome → Gate × List Effect → Type 0
Delivers ct (go_on c es) (g, fs) = Matches ct c g × (es ≡ fs)
Delivers ct (skip c es) turn = ⊥
Delivers ct stop turn = ⊥
Delivers ct fault turn = ⊥

module _ (ct : CodeTable) where
  pub Delivers-emit :
      (es es' : List Effect) (o : Outcome) (g : Gate) (fs : List Effect)
      → es ≡ es'
      → Delivers ct o (g, fs)
      → Delivers ct (emit es o) (g, es' ++ fs)
  Delivers-emit es es' (go_on c fs') g fs e (m, e') = (m, ap₂ (λ xs ys. xs ++ ys) e e')
  Delivers-emit es es' (skip c fs') g fs e h = h
  Delivers-emit es es' stop g fs e h = h
  Delivers-emit es es' fault g fs e h = h

  pub then_round-Delivers :
      (o : Outcome) (g : Gate) (es : List Effect) (k : Cycle → Outcome) (next : Gate × List Effect)
      → Delivers ct o (g, es)
      → ((c : Cycle) → Matches ct c g → Delivers ct (k c) next)
      → Delivers ct (then_round o k) (next.0, es ++ next.1)
  then_round-Delivers (go_on c fs) g es k next (m, e) h =
      Delivers-emit fs es (k c) next.0 next.1 e (h c m)
  then_round-Delivers (skip c fs) g es k next m h = absurd m
  then_round-Delivers stop g es k next m h = m
  then_round-Delivers fault g es k next m h = m

  fetched-Matches :
      (c : Cycle) (g : Gate) (completed : Option (List ℕ))
      → Matches ct c g
      → FitsPacket completed
      → Matches ct
          (fetched c completed)
          (record g { ahead = none; last_out = next_packet g.ahead completed g.last_out })
  unfolding fetched
  fetched-Matches c g completed m fits =
      let f =
        end_read-HasFetched c.tun c.tunbuf c.tunlen g.last_out m.out m.out_some g.ahead completed
          m.reading fits in
      record {
        peer = m.peer;
        book = m.book;
        quiet = m.quiet;
        inner = m.inner;
        reading = f.idle;
        out = f.held;
        out_some = f.some_byte;
        received = m.received;
        received_small = m.received_small;
      }

  encrypted :
      (c : Cycle) (g : Gate) (enbuf : List ℕ)
      → Matches ct c g
      → length enbuf ≡ package_buffer_size
      → send_encrypt c.comm enbuf c.tunbuf c.tunlen
        ≡ some (record { bytes = encode_all ct g.last_out; from = g.peer })
  unfolding send_encrypt
  encrypted c g enbuf m size =
      let bytes =
        ap (λ book. take c.tunlen (encrypt book c.tunbuf enbuf c.tunlen)) m.book
        ∙ take-sent ct c.tunbuf enbuf g.last_out c.tunlen m.out size in
      rw (within package_buffer_size c.tunlen (omega (arith, m.out.count, m.out.fits)))
        (λ i. some (record { bytes = bytes i; from = m.peer i }))

  forward-sends :
      (c : Cycle) (g : Gate) (enbuf : List ℕ)
      → Matches ct c g
      → length enbuf ≡ package_buffer_size
      → forward c enbuf ≡ go_on c (outgoing ct g.last_out g.peer)
  unfolding forward
  forward-sends c g enbuf m size =
      rw (m.out.same 0 m.out_some, encrypted c g enbuf m size)
        (go_on_if (byte_at g.last_out 0 / 16 == 4) c _)

  pub restart_tun-Delivers :
      (c : Cycle) (g : Gate) (es : List Effect) (next : Started)
      → Matches ct c g
      → IsReading c.tun.channel none
      → FitsStarted next
      → Delivers ct (go_on c es >>= restart_tun next) (record g { ahead = read_ahead next }, es)
  restart_tun-Delivers c g es next m idle fits = (
    record {
      peer = m.peer;
      book = m.book;
      quiet = m.quiet;
      inner = m.inner;
      reading = begin_read-IsReading c.tun next idle fits;
      out = m.out;
      out_some = m.out_some;
      received = m.received;
      received_small = m.received_small;
    },
    append_nil es,
  )

  pub tun_part-Delivers :
      (c : Cycle) (g : Gate) (completed : Option (List ℕ)) (enbuf : List ℕ) (next : Started)
      → Matches ct c g
      → Fits (tun_wakes completed enbuf next)
      → Delivers ct
          (tun_part c completed enbuf next)
          (gate_round ct g (tun_wakes completed enbuf next))
  unfolding tun_part
  tun_part-Delivers c g completed enbuf next m (fits, size, fits_next) =
      let m' = fetched-Matches c g completed m fits in
      rw (forward-sends (fetched c completed) _ enbuf m' size)
        (restart_tun-Delivers (fetched c completed) _ _ next m' m'.reading fits_next)
