-- ===== src/Sock/Life.antt =====
-- How long a socket lives (net/core/sock.c): `sk_wmem_alloc` counts the sizes of the packets that are
-- still under way, and one for the socket itself until it is closed.
pub mod Once
use oshm.Prelude.{
  ℕ, ◌+◌, ◌-◌, ◌^◌, ◌<◌, ◌≡◌, Bool, true, false, not, ◌&&◌, ◌||◌, Option, none, some, List, [], ◌∷◌,
  ◌++◌, ◌==◌, ltb, if◌then◌else◌,
}

-- Where `__sk_free` sends a socket: to the listeners of sock_diag, which destruct it, to `__sk_destruct`
-- after a grace period, or there at once.
pub data Fate : Type 0 where
  broadcast : Fate
  call_rcu : Fate
  destruct : Fate

-- `inuse` is the number of sockets of the namespace, `write_spaces` counts the calls of `sk_write_space`,
-- `warned` says that the WARN_ON of `sock_wfree` fired.
pub record Sock : Type 0 where
  pub sk_net_refcnt : Bool
  pub use_write_queue : Bool
  pub rcu_free : Bool
  pub reuseport_cb : Bool
  pub has_destroy_listeners : Bool
  pub sk_wmem_alloc : ℕ
  pub inuse : ℕ
  pub write_spaces : ℕ
  pub fates : List Fate
  pub warned : Bool

-- `sk_prot_alloc` answers whether there is memory; the flags of the last three arguments are set later.
unfoldable pub sk_alloc :
    (sk_prot_alloc kern : Bool) (inuse : ℕ)
    (use_write_queue rcu_free reuseport_cb has_destroy_listeners : Bool)
    → Option Sock
sk_alloc sk_prot_alloc kern inuse use_write_queue rcu_free reuseport_cb has_destroy_listeners =
    if not sk_prot_alloc
    then none
    else some (record {
      sk_net_refcnt = not kern;
      use_write_queue = use_write_queue;
      rcu_free = rcu_free;
      reuseport_cb = reuseport_cb;
      has_destroy_listeners = has_destroy_listeners;
      sk_wmem_alloc = 1;
      inuse = if kern then inuse else inuse + 1;
      write_spaces = 0;
      fates = [];
      warned = false;
    })

unfoldable pub sk_destruct : Sock → Sock
sk_destruct sk = record sk {
  reuseport_cb = false;
  fates = (if sk.rcu_free || sk.reuseport_cb then call_rcu else destruct) ∷ sk.fates;
}

-- `__sk_free`
unfoldable pub free_now : Sock → Sock
free_now sk =
    let sk' = record sk { inuse = if sk.sk_net_refcnt then sk.inuse - 1 else sk.inuse } in
    if sk'.sk_net_refcnt && sk'.has_destroy_listeners
    then record sk' { fates = broadcast ∷ sk'.fates }
    else sk_destruct sk'

-- `refcount_sub_and_test`: the count sticks at 0xC0000000 when more is taken off than is there.
abbrev pub sub_wmem : ℕ → Sock → Sock
sub_wmem n sk = record sk {
  sk_wmem_alloc = if ltb sk.sk_wmem_alloc n then 0xC0000000 else sk.sk_wmem_alloc - n;
}

-- With `__sk_free` where the test succeeds.
abbrev pub sub_and_free : ℕ → Sock → Sock
sub_and_free n sk = let v = sub_wmem n sk in if sk.sk_wmem_alloc == n then free_now v else v

unfoldable pub sk_free : Sock → Sock
sk_free sk = sub_and_free 1 sk

-- `__sock_wfree`, TCP's
unfoldable pub tcp_wfree : (truesize : ℕ) → Sock → Sock
tcp_wfree truesize sk = sub_and_free truesize sk

-- A packet has a size that is not 0.
unfoldable pub sock_wfree : (truesize : ℕ) → Sock → Sock
sock_wfree truesize sk =
    if sk.use_write_queue
    then sub_and_free truesize sk
    else sub_and_free 1 (record (sub_wmem (truesize - 1) sk) {
      warned = sk.warned || sk.sk_wmem_alloc == truesize - 1;
      write_spaces = sk.write_spaces + 1;
    })

-- `skb_set_owner_w` of a full socket.
unfoldable pub skb_set_owner_w : (truesize : ℕ) → Sock → Sock
skb_set_owner_w truesize sk = record sk { sk_wmem_alloc = sk.sk_wmem_alloc + truesize }

-- A socket with its owner: whether it is open, and the sizes of the packets that are under way.
pub record Life : Type 0 where
  pub is_open : Bool
  pub packets : List ℕ
  pub sk : Sock

-- An open socket sends a packet whose size the count (an `int`) can hold, any packet that is under way is done, and the owner closes once.
pub data Step : Life → Life → Type 0 where
  send :
      {q : List ℕ} {sk : Sock} (size : ℕ)
      → 0 < size
      → sk.sk_wmem_alloc + size < 2 ^ 31
      → Step
          (record { is_open = true; packets = q; sk = sk })
          (record { is_open = true; packets = size ∷ q; sk = skb_set_owner_w size sk })
  complete :
      {b : Bool} (before : List ℕ) (size : ℕ) (later : List ℕ) {sk : Sock}
      → Step
          (record { is_open = b; packets = before ++ size ∷ later; sk = sk })
          (record { is_open = b; packets = before ++ later; sk = sock_wfree size sk })
  close :
      {q : List ℕ} {sk : Sock}
      → Step
          (record { is_open = true; packets = q; sk = sk })
          (record { is_open = false; packets = q; sk = sk_free sk })

pub data Run (a : Life) : Life → Type 0 where
  here : Run a a
  next : {b c : Life} → Run a b → Step b c → Run a c
