-- ===== src/Sock/Tests.antt =====
-- Concrete sockets.
use oshm.Prelude.{
  ◌+◌, ◌*◌, ◌/◌, ◌≤◌, ◌&&◌, ◌≡◌, refl, true, false, if◌then◌else◌, some, [], ◌∷◌, length, arith,
}
use oshm.Sock.Life
use oshm.Sock.Life.{
  sk_alloc, sk_free, sock_wfree, tcp_wfree, skb_set_owner_w, Life, Run, here, next, send, complete,
  close,
}
use oshm.Sock.Life.Once.{sk_alloc-freed_once, sock_wfree-eq-tcp_wfree, told, opened}
use oshm.Sock.Memory
use oshm.Sock.Memory.{Limits, send, mem_schedule, mem_reclaim}
use oshm.Sock.Memory.Books.{Charged, mem_reclaim-schedule}
use oshm.Sock.Backlog
use oshm.Sock.Backlog.{free, init, lock, receive, queue, take, retake, process, drained}
use oshm.Sock.Backlog.Order.{backlog-received}

-- A user's socket with three others, which sends two packets and is closed between their ends.
abbrev fresh : Life.Sock
fresh = record {
  sk_net_refcnt = true;
  use_write_queue = false;
  rcu_free = true;
  reuseport_cb = false;
  has_destroy_listeners = false;
  sk_wmem_alloc = 1;
  inuse = 4;
  write_spaces = 0;
  fates = [];
  warned = false;
}

fresh_alloc : sk_alloc true false 3 false true false false ≡ some fresh
unfolding sk_alloc
fresh_alloc = refl

abbrev sent : Life.Sock
sent = skb_set_owner_w 200 (skb_set_owner_w 100 fresh)

abbrev last : Life
last = record { is_open = false; packets = []; sk = sock_wfree 200 (sk_free (sock_wfree 100 sent)) }

last_run : Run (opened fresh) last
unfolding skb_set_owner_w
last_run =
    next
      (next
        (next
          (next (next here (Life.send 100 (omega arith) (omega arith)))
            (Life.send 200 (omega arith) (omega arith)))
          (complete (200 ∷ []) 100 []))
        close)
      (complete [] 200 [])

sk_alloc-freed_once_example :
    (last.sk.sk_wmem_alloc ≡ 0)
    × (length last.sk.fates ≡ 1)
    × (last.sk.inuse ≡ (if last.sk.sk_net_refcnt && false then 4 else 3))
    × (last.sk.warned ≡ false)
sk_alloc-freed_once_example =
    sk_alloc-freed_once 3 true false false true false false fresh fresh_alloc last_run

sock_wfree-eq-tcp_wfree_example :
    sock_wfree 100 sent ≡ tcp_wfree 100 (told sent.use_write_queue sent)
unfolding skb_set_owner_w
sock_wfree-eq-tcp_wfree_example = sock_wfree-eq-tcp_wfree sent 100 (omega arith) (omega arith)

-- A protocol under pressure, and a small socket of it.
abbrev limits : Limits
limits = record {
  sk_mem_pages = λ n. (n + 4095) / 4096;
  low = 10;
  pressure = 20;
  hard = 30;
  rmem0 = 4096;
  wmem0 = 4096;
  memcg = true;
  memcg_has_room = true;
  enter_memory_pressure = λ b. true;
  leave_memory_pressure = λ b. false;
  sk_has_memory_pressure = true;
  sk_under_memory_pressure = λ b. b;
  sk_under_global_memory_pressure = λ b. b;
  sockets_allocated = 5;
  moderate_sndbuf = λ sk. sk.sk_sndbuf;
}

abbrev world : Memory.World
world = record {
  sk = record {
    is_stream = true;
    sk_forward_alloc = 100;
    sk_wmem_queued = 50;
    sk_rmem_alloc = 0;
    sk_wmem_alloc = 1;
    sk_sndbuf = 8192;
  };
  memory_allocated = 20;
  memory_pressure = false;
  memcg_pages = 7;
}

scheduled : (mem_schedule limits 5000 Memory.send world).0 ≡ true
unfolding mem_schedule Memory.raise_allocated Memory.check_limits
scheduled = refl

mem_reclaim-schedule_example : Charged limits 0 0 world (
    mem_reclaim limits
      (limits.sk_mem_pages 5000 * 4096)
      (mem_schedule limits 5000 Memory.send world).1)
mem_reclaim-schedule_example = mem_reclaim-schedule limits 5000 Memory.send world scheduled

-- Packet 1 comes while the socket is owned, packet 2 while the first is gone through, packet 3 after that.
abbrev quiet : Backlog.Sock
quiet = record {
  stage = free;
  backlog = [];
  len = 0;
  sk_drops = 0;
  received = 1 ∷ 2 ∷ 3 ∷ [];
  accepted = 1 ∷ 2 ∷ 3 ∷ [];
  queued = 2;
}

quiet_run : Backlog.Run 1000 init quiet
unfolding init
quiet_run =
    Backlog.next
      (Backlog.next
        (Backlog.next
          (Backlog.next
            (Backlog.next
              (Backlog.next
                (Backlog.next
                  (Backlog.next (Backlog.next Backlog.here (lock refl))
                    (queue 1 600 (λ e. cc) (omega arith) (omega arith)))
                  (take refl (λ e. cc)))
                (queue 2 600 (λ e. cc) (omega arith) (omega arith)))
              (process 1 [] refl))
            (retake refl (λ e. cc)))
          (process 2 [] refl))
        (drained refl refl))
      (receive 3 refl)

backlog-received_example : (quiet.received ≡ quiet.accepted) × (quiet.queued ≤ 1001)
backlog-received_example = backlog-received 1000 quiet_run refl
