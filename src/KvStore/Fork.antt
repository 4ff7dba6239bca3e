-- ===== src/KvStore/Fork.antt =====
-- The part of `copy_process` (kernel/fork.c) that shares the store between the threads of a process
-- and gives a new process a store of its own, and the system calls of a task on its store.
use oshm.Prelude.{
  ℕ, ◌+◌, ◌<◌, ◌≡◌, refl, ◌≢◌, Bool, true, false, ◌||◌, not, Option, none, some, [], arith, ==_iff,
  is_some, Bool-cases, update, update_ne, ◌∙◌, if◌then◌else◌, ℤ, pos, neg, eqb_ℤ_refl,
}
use oshm.KvStore.{Store, M, read_kv, write_kv}
use oshm.KvStore.Calls.{IsIdle, lookup, reply_of_write, write_kv_lem, read_kv_lem, read_kv-returns}

-- The arrays that are allocated, by their addresses, and the next address that `kmalloc` gives.
pub record Kernel : Type 0 where
  pub stores : ℕ → Store
  pub next : ℕ

-- `kv_store` and `kv_store_lock` of a `task_struct`, which always point to one pair of arrays.
pub record Task : Type 0 where
  pub kv_store : ℕ

abbrev pub task_at : ℕ → Task
task_at a = record { kv_store = a }

-- After `spin_lock_init` and `INIT_HLIST_HEAD` at each of the 1024 places.
abbrev pub fresh : Store
fresh = record { bucket = λ h. []; locked = λ h. false }

-- `none` is `ERR_PTR(-ENOMEM)`. The last two arguments say whether each `kmalloc` succeeds.
unfoldable pub copy_kv_store :
    Task → (clone_thread got_store got_lock : Bool) → Kernel → Option Task × Kernel
copy_kv_store current clone_thread got_store got_lock k =
    if clone_thread
    then (some (task_at current.kv_store), k)
    else if not got_store || not got_lock
    then (none, k)
    else (
      some (task_at k.next),
      record { stores = update k.stores k.next fresh; next = k.next + 1 },
    )

-- A system call of a task works on the store that the task points to.
abbrev put_back : {A : Type 0} → ℕ → Kernel → Option (A × Store) → Option (A × Kernel)
put_back a k none = none
put_back a k (some (r, s)) = some (r, record k { stores = update k.stores a s })

unfoldable pub on_store : {A : Type 0} → Task → M A → Kernel → Option (A × Kernel)
on_store t m k = put_back t.kv_store k (m (k.stores t.kv_store))

abbrev pub sys_write_kv : Task → Bool → ℤ → ℤ → Kernel → Option (ℤ × Kernel)
sys_write_kv t alloc k v = on_store t (write_kv alloc k v)

abbrev pub sys_read_kv : Task → ℤ → Kernel → Option (ℤ × Kernel)
sys_read_kv t k = on_store t (read_kv k)

-- The reply of a call, if it returns.
abbrev pub reply : {A : Type 0} → Option (A × Kernel) → Option A
reply none = none
reply (some (r, k)) = some r

-- A write and a later read of the same key through one task.
read-write_same :
    (t : Task) (k : Kernel) (key v : ℤ)
    → IsIdle (k.stores t.kv_store)
    → (k'' : Kernel) × (sys_write_kv t true key v k ≡ some (pos 0, k''))
      × (reply (sys_read_kv t key k'') ≡ some v)
unfolding on_store
read-write_same t k key v idle =
    let a = t.kv_store in
    let (s', e, looks, idle') = write_kv_lem (k.stores a) idle true key v in
    let (r, s'', e', same, idle'', found, missing) = read_kv_lem key s' idle' in
    let zero : reply_of_write true key (k.stores a) ≡ pos 0 =
      ground (arith, Bool-cases (is_some (lookup (k.stores a) key))) in
    let here : lookup s' key ≡ some v =
      ground (arith, looks key, eqb_ℤ_refl key, Bool-cases (is_some (lookup (k.stores a) key))) in
    (
      record k { stores = update k.stores a s' },
      rw (e, zero) refl,
      rw ((==_iff a a).1 refl, e', found v here) refl,
    )

-- A new thread shares the store: what it writes, memory given, is what the creating thread reads.
pub thread_shares_store :
    (t : Task) (k : Kernel) (g h : Bool) {t' : Task} {k' : Kernel} (key v : ℤ)
    → IsIdle (k.stores t.kv_store)
    → copy_kv_store t true g h k ≡ (some t', k')
    → (k'' : Kernel) × (sys_write_kv t' true key v k' ≡ some (pos 0, k''))
      × (reply (sys_read_kv t key k'') ≡ some v)
unfolding copy_kv_store
thread_shares_store t k g h {t'} {k'} key v idle e =
    let et : t' ≡ t = cc e in let ek : k' ≡ k = cc e in rw (et, ek) (read-write_same t k key v idle)

reply-put_back :
    (a : ℕ) (k k' : Kernel) (o : Option (ℤ × Store))
    → reply (put_back a k o) ≡ reply (put_back a k' o)
reply-put_back a k k' none = refl
reply-put_back a k k' (some (r, s)) = refl

-- A call leaves the stores at other addresses alone.
put_back-frame :
    (a b : ℕ) (k : Kernel) (o : Option (ℤ × Store)) {r : ℤ} {k'' : Kernel}
    → put_back a k o ≡ some (r, k'')
    → b ≢ a
    → k''.stores b ≡ k.stores b
put_back-frame a b k none e ne = cc e
put_back-frame a b k (some (r, s)) {k''} e ne =
    let ek : record k { stores = update k.stores a s } ≡ k'' = cc e in
    rw (← ek) (ground (arith, ==_iff b a))

-- What a task reads depends on its own store alone.
reply-read_congr :
    (t : Task) (j : ℤ) (k k' : Kernel)
    → k'.stores t.kv_store ≡ k.stores t.kv_store
    → reply (sys_read_kv t j k') ≡ reply (sys_read_kv t j k)
unfolding on_store
reply-read_congr t j k k' e = rw e (reply-put_back t.kv_store k' k _)

-- A new process gets an empty store: it reads -3 at every key, and no write of its own, whatever it
-- replies, changes what its parent reads.
pub process_has_own_store :
    (t : Task) (k : Kernel) {t' : Task} {k' : Kernel}
    → t.kv_store < k.next
    → copy_kv_store t false true true k ≡ (some t', k')
    → ((key : ℤ) → reply (sys_read_kv t' key k') ≡ some (neg 3))
      × ((alloc : Bool) (key v : ℤ) (r : ℤ) (k'' : Kernel)
          → sys_write_kv t' alloc key v k' ≡ some (r, k'')
          → (j : ℤ) → reply (sys_read_kv t j k'') ≡ reply (sys_read_kv t j k))
unfolding copy_kv_store on_store
process_has_own_store t k {t'} {k'} lt e =
    let et : t' ≡ task_at k.next = cc e in
    let ek : k' ≡ record { stores = update k.stores k.next fresh; next = k.next + 1 } = cc e in
    rw (et, ek)
      (
        (λ key. rw ((==_iff k.next k.next).1 refl, read_kv-returns fresh (λ h. refl) key) refl),
        (λ alloc key v r k'' w j. reply-read_congr t j k k'' (
            put_back-frame k.next t.kv_store _ (write_kv alloc key v _) w (omega arith)
            ∙ update_ne k.stores k.next fresh t.kv_store (omega arith))),
      )
