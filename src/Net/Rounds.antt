-- ===== src/Net/Rounds.antt =====
-- The rounds that carry a packet from one tunnel to the other.
use s_vpn.Common.{
  ℕ, ◌≡◌, refl, ◌∙◌, ap, ap₂, arith, List, [], ◌∷◌, ◌++◌, map, length, if◌then◌else◌, Option-cases,
  inl, inr, ◌||◌, Bool, true, false, none, some,
}
use s_vpn.Common.Int.{ℤ, pos, negsuc, ◌+ℤ◌, ◌-ℤ◌, is_zero, to_int32}
use mathlib.Core.List.{append-nil}
use s_vpn.Common.Control.{Control, go_on, emit, ◌>>=◌}
use s_vpn.Server.Status.{Globals, Output, output_info, elapsed}
use s_vpn.Server.Report.{output_info-eq-none_iff}
use s_vpn.Server.Loop as Server
use s_vpn.Server.Refines as ServerView
use s_vpn.Server.Accept.{accepted_effects}
use s_vpn.Client.Loop as Client
use s_vpn.Traffic.Packet.{to_tun}

-- One more microsecond than at the last report.
pub one_more : (z : ℤ) → is_zero (to_int32 ((z +ℤ pos 1) -ℤ z)) ≡ false
one_more (pos n) = ground arith
one_more (negsuc n) = ground arith

-- `output_info` has a result if the clock goes on.
pub can_report :
    (g : Globals)
    → is_zero (elapsed g.stat) ≡ false
    → (g' : Globals) × (os : List Output) × (output_info true g ≡ some (g', os))
can_report g moved = elim (Option-cases (output_info true g)) [
  | inl e ↦ absurd (stuck ((output_info-eq-none_iff true g opens).0 e).1)
  | inr (found, e) ↦ (found.0, found.1, e)
]
  where
    opens : (g.frec || true) ≡ true
    opens = ground arith

    stuck : is_zero (elapsed g.stat) ≡ true → ⊥
    stuck e = ground (arith, e, moved)

-- A part that goes on ends the round.
ends_round :
    {S E : Type 0} (o : Control S E) (s : S) (es : List E)
    → o ≡ go_on s es
    → (o >>= λ s. go_on s []) ≡ go_on s es
ends_round o s es e = ap (λ o. o >>= λ s. go_on s []) e ∙ ap (go_on s) (append-nil es)

-- An accepted packet is the only one of its round.
pub packets_of-accepted :
    (s : Server.Loop) (uid : ℕ) (node : Server.ClientNode) (os : List Output) (p : List ℕ)
    → ServerView.packets_of (accepted_effects s uid node os p) ≡ to_tun p ∷ []
packets_of-accepted s uid node os p =
    ServerView.packets_of-append (Server.moved_message s uid node) _
    ∙ ap₂ (λ ps qs. ps ++ qs) (says_nothing (Server.bytes_eq s.addr node.addr))
        (ServerView.packets_of-append (map Server.show os) _
          ∙ ap (λ ps. ps ++ (to_tun p ∷ [])) (ServerView.packets_of-show os))
  where
    says_nothing :
        (b : Bool)
        → ServerView.packets_of (if b then [] else Server.say (Server.client_moved uid s.addr) ∷ [])
          ≡ []
    says_nothing true = refl
    says_nothing false = refl

-- The rounds.
abbrev pub sending : List ℕ → Client.Round
sending p = record {
  selected = Client.ready true false;
  tun_read = some p;
  sent = pos (length p);
  received = none;
}

abbrev pub receiving : ℤ → List ℕ → List ℕ → Server.Round
receiving now d from = record {
  selected = Server.ready true false;
  now = now;
  received = some (d, from);
  tun_read = none;
  sent = pos 0;
  opens = true;
}

abbrev pub forwarding : ℤ → List ℕ → Server.Round
forwarding now q = record {
  selected = Server.ready false true;
  now = now;
  received = none;
  tun_read = some q;
  sent = pos (length q);
  opens = true;
}

abbrev pub taking : List ℕ → Client.Round
taking d = record {
  selected = Client.ready false true;
  tun_read = none;
  sent = pos 0;
  received = some d;
}

pub sending-Ends :
    (p : List ℕ) (c t : Client.Loop) (es : List Client.Effect)
    → Client.tun_part (sending p) c (some p) ≡ go_on t es
    → Client.round (sending p) c ≡ go_on t es
unfolding Client.round Client.dispatch
sending-Ends p c t es e = ends_round _ t es e

pub receiving-Ends :
    (now : ℤ) (d from : List ℕ) (s t : Server.Loop) (es : List Server.Effect)
    → Server.sock_part (receiving now d from) (Server.update_time now s) (some (d, from))
      ≡ go_on t es
    → Server.round (receiving now d from) s ≡ go_on t es
unfolding Server.round Server.dispatch
receiving-Ends now d from s t es e = ends_round _ t es e

pub forwarding-Ends :
    (now : ℤ) (q : List ℕ) (s t : Server.Loop) (es : List Server.Effect)
    → Server.tun_part (forwarding now q) (Server.update_time now s) (some q) ≡ go_on t es
    → Server.round (forwarding now q) s ≡ go_on t es
unfolding Server.round Server.dispatch
forwarding-Ends now q s t es e = ap (λ o. emit [] o) e

pub taking-Ends :
    (d : List ℕ) (c t : Client.Loop) (es : List Client.Effect)
    → Client.sock_part c (some d) ≡ go_on t es
    → Client.round (taking d) c ≡ go_on t es
unfolding Client.round Client.dispatch
taking-Ends d c t es e = ap (λ o. emit [] o) e
