-- ===== src/Traffic/Refining.antt =====
-- How a loop of parts and rounds does what its abstract account does, for a property of the states that
-- the parts keep and the packets among the effects.
use s_vpn.Common.{
  ◌≡◌, ◌∙◌, ap₂, List, [], ◌++◌, if◌then◌else◌, Bool, true, false, Option, none, some,
}
use mathlib.Core.List.{append-nil}
use s_vpn.Common.Control.{Control, go_on, skip, stop, fault, emit, ◌>>=◌, then_round}
use s_vpn.Traffic.Packet.{Packet}
use s_vpn.Traffic.Turn.{Turn, both, packets_before, then_relay}

module _ {S E : Type 0} (Inv : S → Type 0) (packets_of : List E → List Packet) where
  -- The end of a part of a round.
  abbrev pub Follows : Control S E → Turn → Type 0
  Follows (go_on t es) turn = (turn.drops ≡ false) × Inv t × (packets_of es ≡ turn.packets)
  Follows (skip t es) turn = (turn.drops ≡ true) × Inv t × (packets_of es ≡ turn.packets)
  Follows stop turn = ⊥
  Follows fault turn = ⊥

  -- The end of a round.
  abbrev pub Yields : Control S E → Option Turn → Type 0
  Yields (go_on t es) (some turn) = Inv t × (packets_of es ≡ turn.packets)
  Yields (skip t es) (some turn) = Inv t × (packets_of es ≡ turn.packets)
  Yields stop none = Unit
  Yields (go_on t es) none = ⊥
  Yields (skip t es) none = ⊥
  Yields stop (some turn) = ⊥
  Yields fault turn = ⊥

  -- The rounds' end: the packets of the account, or a `return` where it has one.
  abbrev pub Refines : Control S E → Option (List Packet) → Type 0
  Refines (go_on t es) (some packets) = Inv t × (packets_of es ≡ packets)
  Refines (skip t es) (some packets) = Inv t × (packets_of es ≡ packets)
  Refines stop none = Unit
  Refines (go_on t es) none = ⊥
  Refines (skip t es) none = ⊥
  Refines stop (some packets) = ⊥
  Refines fault packets = ⊥

  module _ (append : (es fs : List E) → packets_of (es ++ fs) ≡ packets_of es ++ packets_of fs)
      (nothing : packets_of [] ≡ []) where
    emit-Yields :
        (es : List E) (o : Control S E) (first second : Turn)
        → packets_of es ≡ first.packets
        → Follows o second
        → Yields (emit es o) (some (record second { packets = first.packets ++ second.packets }))
    emit-Yields es (go_on t fs) first second e (goes, c, e') =
        (c, append es fs ∙ ap₂ (λ ps qs. ps ++ qs) e e')
    emit-Yields es (skip t fs) first second e (drops, c, e') =
        (c, append es fs ∙ ap₂ (λ ps qs. ps ++ qs) e e')
    emit-Yields es stop first second e h = h
    emit-Yields es fault first second e h = h

    -- Two parts, the second one if it is asked for.
    pub both-Yields :
        (asked : Bool) (o : Control S E) (k : S → Control S E) (first second : Turn)
        → Follows o first
        → ((t : S) → Inv t → Follows (k t) second)
        → Yields (o >>= λ t. if asked then k t else go_on t []) (some (both asked first second))
    both-Yields true (go_on t es) k first second (goes, c, e) next =
        rw goes (emit-Yields es (k t) first second e (next t c))
    both-Yields false (go_on t es) k first second (goes, c, e) next =
        rw goes (c, append es [] ∙ ap₂ (λ ps qs. ps ++ qs) e nothing ∙ append-nil first.packets)
    both-Yields asked (skip t es) k first second (drops, c, e) next = rw drops (c, e)
    both-Yields asked stop k first second h next = elim h [ ]
    both-Yields asked fault k first second h next = elim h [ ]

    Refines-emit :
        (es : List E) (o : Control S E) (before : List Packet) (rest : Option (List Packet))
        → packets_of es ≡ before
        → Refines o rest
        → Refines (emit es o) (packets_before before rest)
    Refines-emit es (go_on t fs) before (some ps) e (c, e') =
        (c, append es fs ∙ ap₂ (λ ps qs. ps ++ qs) e e')
    Refines-emit es (skip t fs) before (some ps) e (c, e') =
        (c, append es fs ∙ ap₂ (λ ps qs. ps ++ qs) e e')
    Refines-emit es stop before none e h = h
    Refines-emit es (go_on t fs) before none e h = h
    Refines-emit es (skip t fs) before none e h = h
    Refines-emit es stop before (some ps) e h = h
    Refines-emit es fault before rest e h = h

    -- A round and the rounds after it.
    pub then_round-Refines :
        (o : Control S E) (turn : Option Turn) (k : S → Control S E) (rest : Option (List Packet))
        → Yields o turn
        → ((t : S) → Inv t → Refines (k t) rest)
        → Refines (then_round o k) (then_relay turn rest)
    then_round-Refines (go_on t es) (some turn) k rest (c, e) next =
        Refines-emit es (k t) turn.packets rest e (next t c)
    then_round-Refines (skip t es) (some turn) k rest (c, e) next =
        Refines-emit es (k t) turn.packets rest e (next t c)
    then_round-Refines stop none k rest h next = h
    then_round-Refines (go_on t es) none k rest h next = elim h [ ]
    then_round-Refines (skip t es) none k rest h next = elim h [ ]
    then_round-Refines stop (some turn) k rest h next = elim h [ ]
    then_round-Refines fault turn k rest h next = elim h [ ]
