-- ===== src/KvStore/Tests.antt =====
-- Runs of the two system calls, and the theorems at small stores.
use oshm.Prelude.{
  ℕ, update, ◌≡◌, refl, Bool, true, false, Option, none, some, List, [], ◌∷◌, arith, if◌then◌else◌,
  ◌==◌, ℤ, pos, negsuc, neg, enomem,
}
use oshm.KvStore.{
  data_of, Store, hash, spin_lock, spin_unlock, find, overwrite, set_bucket, get_bucket, write_kv,
  read_kv,
}
use oshm.KvStore.Calls.{IsIdle}
use oshm.KvStore.Trace.{Call, write, read, call, run, AllAllowed, run_refines}
use oshm.KvStore.Threads.{
  lock_of, finish, outside, inside, System, lock_taken, enter, Reach, here, later,
}
use oshm.KvStore.Threads.Safety.{IsQuiet, mutual_exclusion}
use oshm.KvStore.Threads.Linear.{unlocked, linearizable}
use oshm.KvStore.Fork.{
  Kernel, task_at, fresh, copy_kv_store, sys_write_kv, sys_read_kv, reply, process_has_own_store,
}

-- 7, 1031 and -1017 share a bucket.
hash_values :
    (hash (pos 7) ≡ 7) × (hash (pos 1031) ≡ 7) × (hash (negsuc 1016) ≡ 7) × (hash (negsuc 0) ≡ 1023)
unfolding hash
hash_values = (refl, refl, refl, refl)

abbrev script : List Call
script =
    read (pos 7)
    ∷ write true (pos 7) (pos 5)
    ∷ read (pos 1031)
    ∷ write false (pos 1031) (pos 6)
    ∷ write false (pos 7) (negsuc 8)
    ∷ read (pos 7)
    ∷ []

abbrev replies : List ℤ
replies = neg 3 ∷ pos 0 ∷ neg 2 ∷ neg enomem ∷ pos 0 ∷ negsuc 8 ∷ []

firsts : Option (List ℤ × Store) → Option (List ℤ)
firsts none = none
firsts (some (rs, s)) = some rs

run-script : firsts (run script fresh) ≡ some replies
unfolding firsts run write_kv read_kv spin_lock spin_unlock find overwrite set_bucket get_bucket
    hash
run-script = refl

-- A task that holds a lock never returns from a second call on the same bucket.
spin_forever : read_kv (pos 7) (record { bucket = λ h. []; locked = λ h. true }) ≡ none
unfolding read_kv spin_lock
spin_forever = refl

abbrev one : Store
one = record { bucket = λ h. data_of (pos 7) (pos 5) ∷ []; locked = λ h. false }

run_refines_example :
    (rs : List ℤ) × (s' : Store) × (run script fresh ≡ some (rs, s'))
    × AllAllowed (λ j. none) script rs
    × IsIdle s'
unfolding find
run_refines_example = run_refines script fresh (λ j. none) (λ h. refl) (λ j. refl)

abbrev booted : Kernel
booted = record { stores = λ a. fresh; next = 4 }

process_has_own_store_example :
    let k' : Kernel = record { stores = λ a. if a == 4 then fresh else fresh; next = 5 } in
    ((key : ℤ) → reply (sys_read_kv (task_at 4) key k') ≡ some (neg 3))
    × ((alloc : Bool) (key v : ℤ) (r : ℤ) (k'' : Kernel)
        → sys_write_kv (task_at 4) alloc key v k' ≡ some (r, k'')
        → (j : ℤ)
        → reply (sys_read_kv (task_at 3) j k'') ≡ reply (sys_read_kv (task_at 3) j booted))
unfolding copy_kv_store
process_has_own_store_example = process_has_own_store (task_at 3) booted (omega arith) refl

-- Thread 4 is inside a write of 7, and thread 6 inside a read of 8.
abbrev quiet : System
quiet = record { store = one; place = λ i. outside }

abbrev write_seven : Call
write_seven = write true (pos 7) (pos 9)

abbrev busy : System
busy = record {
  store = lock_taken (read (pos 8)) (lock_taken write_seven one);
  place =
      update (update (λ i. outside) 4 (inside write_seven (one.bucket 7))) 6
        (inside (read (pos 8)) (one.bucket 8));
}

quiet-IsQuiet : IsQuiet quiet
quiet-IsQuiet = record { idle = λ h. refl; out = λ i. refl }

busy-Reach : Reach quiet busy
unfolding hash
busy-Reach =
    later (later here (enter 4 write_seven refl refl refl refl))
      (enter 6 (read (pos 8)) refl refl refl refl)

mutual_exclusion_example :
    (◌≡◌ {A = ℕ} 4 4)
    × (busy.store.bucket (lock_of write_seven) ≡ one.bucket 7)
    × (busy.store.bucket (lock_of write_seven) ≡ one.bucket 7)
mutual_exclusion_example =
    mutual_exclusion 4 4 write_seven write_seven (one.bucket 7) (one.bucket 7) quiet-IsQuiet
      busy-Reach refl refl refl

linearizable_example :
    (r : ℤ) × (s' : Store) × (finish write_seven (one.bucket 7) busy.store ≡ some (r, s'))
    × (call write_seven (unlocked (lock_of write_seven) busy.store) ≡ some (r, s'))
linearizable_example = linearizable 4 write_seven (one.bucket 7) quiet-IsQuiet busy-Reach refl
