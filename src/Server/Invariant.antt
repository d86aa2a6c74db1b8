-- ===== src/Server/Invariant.antt =====
-- Every round of the select loop keeps the net, the users, their tables and the buffers.
use s_vpn.Common.{
  ℕ, ◌≡◌, refl, List, [], ◌∷◌, map, length, ◌==◌, if◌then◌else◌, Bool-cases, inl, inr, ltb, ◌||◌,
  Bool, true, false, Option, none, some,
}
use s_vpn.Common.Int.{ℤ, pos, ltb_ℤ}
use s_vpn.Server.Loop.{
  buffer_len, ClientNode, Loop, Selected, interrupted, failed, ready, Round, Effect, show,
  client_at, is_source, deliver, count_recv, accept, from_client, sock_part, after_send, to_client,
  tun_part, update_time, dispatch, round, serve,
}
use s_vpn.Common.Control.{go_on, fault, Ensures, Ensures-emit, Ensures-bind, Ensures-then_round}
use s_vpn.Crypt.{decrypt}
use s_vpn.Crypt.Cipher.{length-encrypt, length-decrypt}
use s_vpn.Md5.{copy}
use s_vpn.Md5.Blocks.{length-copy}
use s_vpn.Server.Status.{Globals, Output, output_info}
use s_vpn.Server.Keeps.{Keeps, Keeps-refl, Keeps-trans, relocate-Keeps, refill}

deliver-Keeps :
    (s t : Loop) (len : ℕ) (o : Option (Globals × List Output))
    → Keeps s t
    → Ensures (Keeps s) (deliver t len o)
unfolding deliver
deliver-Keeps s t len none k = tt
deliver-Keeps s t len (some (g, os)) k = record {
  same_net = k.same_net;
  same_count = k.same_count;
  same_tables = k.same_tables;
  same_buffer = k.same_buffer;
  same_tmp = k.same_tmp;
}

from_client-Keeps :
    (r : Round) (s t : Loop) (len uid : ℕ) (c : Option ClientNode)
    → Keeps s t
    → client_at t.server uid ≡ c
    → Ensures (Keeps s) (from_client r t len uid c)
unfolding from_client accept
from_client-Keeps r s t len uid none k e = k
from_client-Keeps r s t len uid (some node) k e =
    elim (Bool-cases (is_source t'.buffer t.server.local_addr uid)) [
      | inl ok ↦ rw ok (
          Ensures-emit (Keeps s) _ _
            (deliver-Keeps s _ len _ (Keeps-trans kept (relocate-Keeps t' uid node e))))
      | inr bad ↦ rw bad kept
    ]
  where
    t' : Loop
    t' = record t { buffer = decrypt node.table t.tmp_buffer t.buffer len }

    kept : Keeps s t'
    kept = refill _ t.tmp_buffer t.addr k (length-decrypt node.table t.tmp_buffer t.buffer len) refl

pub sock_part-Keeps :
    (r : Round) (s t : Loop) (o : Option (List ℕ × List ℕ))
    → Keeps s t
    → Ensures (Keeps s) (sock_part r t o)
unfolding sock_part
sock_part-Keeps r s t none k = k
sock_part-Keeps r s t (some (bytes, from)) k =
    elim (Bool-cases (length bytes == 0 || ltb buffer_len (length bytes))) [
      | inl bad ↦ rw bad kept
      | inr good ↦ rw good (from_client-Keeps r s _ (length bytes) _ _ kept refl)
    ]
  where
    kept :
        Keeps s (record t { tmp_buffer = copy (length bytes) t.tmp_buffer 0 bytes 0; addr = from })
    kept = refill t.buffer _ from k refl (length-copy (length bytes) t.tmp_buffer 0 bytes 0)

after_send-Keeps :
    (r : Round) (s t : Loop) (uid : ℕ) (e : Effect)
    → Keeps s t
    → Ensures (Keeps s) (after_send r t uid e)
unfolding after_send
after_send-Keeps r s t uid e k = elim (Bool-cases (ltb_ℤ (pos 0) r.sent)) [
  | inl sent ↦ rw sent (reported (output_info r.opens (count_recv r.sent t.globals)))
  | inr lost ↦ rw lost k
]
  where
    reported :
        (o : Option (Globals × List Output))
        → Ensures (Keeps s) (elim o [
          | none ↦ fault
          | some (g', os) ↦ go_on (record t { globals = g' }) (e ∷ map show os)
        ])
    reported none = tt
    reported (some (g', os)) = record {
      same_net = k.same_net;
      same_count = k.same_count;
      same_tables = k.same_tables;
      same_buffer = k.same_buffer;
      same_tmp = k.same_tmp;
    }

to_client-Keeps :
    (r : Round) (s t : Loop) (len uid : ℕ) (c : Option ClientNode)
    → Keeps s t
    → Ensures (Keeps s) (to_client r t len uid c)
unfolding to_client
to_client-Keeps r s t len uid none k = k
to_client-Keeps r s t len uid (some node) k =
    after_send-Keeps r s _ uid _
      (refill _ t.tmp_buffer t.addr k (length-encrypt node.table t.tmp_buffer t.buffer len) refl)

tun_part-Keeps :
    (r : Round) (s t : Loop) (o : Option (List ℕ)) → Keeps s t → Ensures (Keeps s) (tun_part r t o)
unfolding tun_part
tun_part-Keeps r s t none k = k
tun_part-Keeps r s t (some bytes) k =
    elim (Bool-cases (length bytes == 0 || ltb buffer_len (length bytes))) [
      | inl bad ↦ rw bad kept
      | inr good ↦ rw good (to_client-Keeps r s _ (length bytes) _ _ kept)
    ]
  where
    kept : Keeps s (record t { tmp_buffer = copy (length bytes) t.tmp_buffer 0 bytes 0 })
    kept = refill t.buffer _ t.addr k refl (length-copy (length bytes) t.tmp_buffer 0 bytes 0)

pub timed : (s : Loop) (now : ℤ) → Keeps s (update_time now s)
timed s now = record {
  same_net = refl;
  same_count = refl;
  same_tables = λ uid. refl;
  same_buffer = refl;
  same_tmp = refl;
}

pub dispatch-Keeps : (r : Round) (s : Loop) (sel : Selected) → Ensures (Keeps s) (dispatch r s sel)
unfolding dispatch
dispatch-Keeps r s interrupted = tt
dispatch-Keeps r s failed = Keeps-refl s
dispatch-Keeps r s (ready sock tun) = Ensures-bind (Keeps s) _ _ (first sock) λ t k. second tun t k
  where
    first :
        (b : Bool)
        → Ensures (Keeps s) (
            if b
            then sock_part r (update_time r.now s) r.received
            else go_on (update_time r.now s) [])
    first true = sock_part-Keeps r s _ r.received (timed s r.now)
    first false = timed s r.now

    second :
        (b : Bool) (t : Loop)
        → Keeps s t
        → Ensures (Keeps s) (if b then tun_part r t r.tun_read else go_on t [])
    second true t k = tun_part-Keeps r s t r.tun_read k
    second false t k = k

serve_from-Keeps : (rs : List Round) (s t : Loop) → Keeps s t → Ensures (Keeps s) (serve rs t)
unfolding serve round
serve_from-Keeps [] s t k = k
serve_from-Keeps (r ∷ rs) s t k =
    Ensures-then_round (Keeps t) (Keeps s) (round r t) _ (dispatch-Keeps r t r.selected)
      λ u h. serve_from-Keeps rs s u (Keeps-trans k h)

-- Whatever the rounds bring, if the loop goes on after them, the server has the same local
-- address, the same users with the same tables, and buffers of the same size as before.
pub serve-Keeps : (rs : List Round) (s : Loop) → Ensures (Keeps s) (serve rs s)
serve-Keeps rs s = serve_from-Keeps rs s s (Keeps-refl s)
