-- ===== src/Sock/Options/Clone.antt =====
-- `sk_clone_lock` (net/core/sock.c), for the options of the new socket and the time stamps of the network.
use oshm.Prelude.{
  ℕ, ◌+◌, ◌-◌, ◌/◌, ◌%◌, ◌≡◌, Bool, false, not, ◌&&◌, ◌||◌, ◌==◌, Option, none, some, if◌then◌else◌,
  arith,
}
use oshm.Sock.Options.{Sock, sock_valbool_flag}
use oshm.Sock.Options.Timestamps.{stamped, sock_needs_netstamp}
use oshm.Sock.Options.Set.Stamps.{IsBalanced}

-- What the memory and the other files answer.
pub record Answers : Type 0 where
  pub sk_prot_alloc : Bool
  pub filter_charged : Bool
  pub xfrm_sk_clone_policy : Bool
  pub bpf_sk_storage_clone : Bool

-- The copy, with SOCK_DONE (bit 0) off and without the lock of a bound port (8).
abbrev copied : Sock → Sock
copied sk = record (sock_valbool_flag sk 0 false) {
  sk_userlocks = if sk.sk_userlocks / 8 % 2 == 1 then sk.sk_userlocks - 8 else sk.sk_userlocks;
  netstamps = 0;
  dst_resets = 0;
  write_spaces = 0;
}

-- `sk_free_unlock_clone`, at the end of which `__sk_destruct` takes the flags of time stamps off: the
-- count of the network goes down by one, if they were set.
unfoldable pub sk_free_unlock_clone : Sock → (net_stamps : ℕ) → ℕ
sk_free_unlock_clone sk net_stamps =
    if stamped sk && sock_needs_netstamp sk then net_stamps - 1 else net_stamps

-- The new socket, and how many sockets have asked the network for time stamps.
unfoldable pub sk_clone_lock : Answers → Sock → (net_stamps : ℕ) → Option Sock × ℕ
sk_clone_lock a sk net_stamps =
    let newsk = copied sk in
    if not a.sk_prot_alloc
    then (none, net_stamps)
    else if not a.filter_charged || a.xfrm_sk_clone_policy
    then (none, sk_free_unlock_clone newsk net_stamps)
    else if a.bpf_sk_storage_clone
    then (none, sk_free_unlock_clone newsk net_stamps)
    else let asks = sock_needs_netstamp sk && stamped newsk in
      (
        some (record newsk { sk_priority = 0; netstamps = if asks then 1 else 0 }),
        if asks then net_stamps + 1 else net_stamps,
      )

-- A flag of time stamps (SOCK_TIMESTAMP 7, SOCK_TIMESTAMPING_RX_SOFTWARE 15) on a socket that is neither
-- of an unspecified family nor of the local one.
abbrev pub stamps_of : Sock → Bool
stamps_of sk = (sk.flags 7 || sk.flags 15) && not (sk.sk_family == 0) && not (sk.sk_family == 1)

-- What a clone leaves: a new socket is balanced, is counted by the network, has the buffers and the mark of
-- its parent, and no priority. One that fails after its memory was had takes one from the count of the
-- network, if the parent has time stamps.
abbrev pub Cloned : Answers → Sock → (before : ℕ) → Option Sock × ℕ → Type 0
Cloned a sk before (some v, after) =
    IsBalanced v
    × (after ≡ before + v.netstamps)
    × (v.sk_priority ≡ 0)
    × (v.sk_sndbuf ≡ sk.sk_sndbuf)
    × (v.sk_rcvbuf ≡ sk.sk_rcvbuf)
    × (v.sk_mark ≡ sk.sk_mark)
Cloned a sk before (none, after) =
    after ≡ (if a.sk_prot_alloc && stamps_of sk then before - 1 else before)

-- A clone that succeeds is counted by the network if it has a flag of time stamps, has no priority, whatever
-- its parent has, and keeps the buffers and the mark. One that fails after its memory was had takes one from
-- the count of the network, which it has not added, if its parent has a flag of time stamps and a family of
-- the network; any other that fails leaves the count as it is.
pub sk_clone_lock-Cloned :
    (a : Answers) (sk : Sock) (net_stamps : ℕ)
    → Cloned a sk net_stamps (sk_clone_lock a sk net_stamps)
unfolding sk_clone_lock sk_free_unlock_clone
sk_clone_lock-Cloned a sk net_stamps = ground arith
