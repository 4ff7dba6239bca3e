-- ===== src/Ramfs/Bind.antt =====
-- `ramfs_bind` and `ramfs_proc_bind_write` (fs/ramfs/inode.c): a mounted ramfs gets a directory that
-- its files are saved to.
use oshm.Prelude.{
  ℕ, ◌+◌, ◌-◌, ◌≡◌, ◌≢◌, refl, Bool, true, false, not, Option, none, some, arith, ◌==◌, ==_iff,
  if◌then◌else◌, update, update_self, Bool-cases, inl, inr, ◌⊎◌, length, ℤ, pos, neg, eqb_ℤ,
  eqb_ℤ_iff, enomem, efault, einval, enotdir,
}
use oshm.Ramfs.Bytes.{Bytes}
use oshm.Ramfs.Parse.{parse_bind}

-- `struct ramfs_fs_info` of each super block that has one, by its number, and how many references to
-- paths are held.
pub record Mounts : Type 0 where
  pub has_info : ℕ → Bool
  pub sync_dir : ℕ → Option Bytes
  pub path_refs : ℕ

-- What a path leads to.
pub record Found : Type 0 where
  pub super_block : ℕ
  pub is_ramfs : Bool
  pub is_dir : Bool

-- The answers from outside: the three calls of `kern_path`, an error or what it finds, and whether
-- memory is given for the copy of the name.
pub record BindAnswers : Type 0 where
  pub first_sync : ℤ
  pub ramfs_error : ℤ
  pub ramfs : Found
  pub sync_error : ℤ
  pub sync : Found
  pub alloc : Bool

abbrev path_get : Mounts → Mounts
path_get w = record w { path_refs = w.path_refs + 1 }

abbrev path_put : Mounts → Mounts
path_put w = record w { path_refs = w.path_refs - 1 }

abbrev set_sync_dir : ℕ → Option Bytes → Mounts → Mounts
set_sync_dir sb d w = record w { sync_dir = update w.sync_dir sb d }

-- `kstrdup` after the old name is freed.
unfoldable pub bind_directory : BindAnswers → Bytes → Mounts → ℤ × Mounts
bind_directory a dir w =
    let freed = set_sync_dir a.ramfs.super_block none w in
    if a.alloc
    then (a.sync_error, set_sync_dir a.ramfs.super_block (some dir) freed)
    else (neg enomem, path_put (path_put freed))

-- From the second look at the directory on; both paths are held.
unfoldable pub bind_checked : BindAnswers → Bytes → Mounts → ℤ × Mounts
unfolding bind_directory
bind_checked a dir w =
    if not a.sync.is_dir
    then (neg enotdir, path_put (path_put w))
    else if not (w.has_info a.ramfs.super_block)
    then (neg einval, path_put (path_put w))
    else bind_directory a dir w

-- `none` stands for the `path_put` of a `struct path` that was never filled in. (Both names come from
-- `ramfs_proc_bind_write` and are not null.)
unfoldable pub ramfs_bind : BindAnswers → Bytes → Mounts → Option (ℤ × Mounts)
unfolding bind_checked
ramfs_bind a dir w =
    if not (eqb_ℤ a.first_sync (pos 0))
    then none
    else let w₁ = path_get w in
      if not (eqb_ℤ a.ramfs_error (pos 0))
      then some (a.ramfs_error, w₁)
      else let w₂ = path_get w₁ in
        if not a.ramfs.is_ramfs
        then some (neg einval, path_put w₂)
        else if not (eqb_ℤ a.sync_error (pos 0))
        then some (a.sync_error, path_put w₂)
        else some (bind_checked a dir (path_get w₂))

-- The write of `count` bytes to /proc/fs/ramfs/bind: `got_memory` and `copied` are the buffer's
-- `kmalloc` and `copy_from_user`, `bind` gives the answers for the two names.
abbrev bind_result : ℕ → Option (ℤ × Mounts) → Option (ℤ × Mounts)
bind_result count none = none
bind_result count (some (r, w)) = some (if eqb_ℤ r (pos 0) then pos count else r, w)

abbrev on_parsed :
    (Bytes → Bytes → BindAnswers) → ℕ → Mounts → Option (Bytes × Bytes) → Option (ℤ × Mounts)
on_parsed bind count w none = some (neg einval, w)
on_parsed bind count w (some (path, dir)) = bind_result count (ramfs_bind (bind path dir) dir w)

unfoldable pub ramfs_proc_bind_write :
    (got_memory copied : Bool)
    → (Bytes → Bytes → BindAnswers)
    → Bytes
    → Mounts
    → Option (ℤ × Mounts)
unfolding ramfs_bind
ramfs_proc_bind_write got_memory copied bind buffer w =
    if not got_memory
    then some (neg enomem, w)
    else if not copied
    then some (neg efault, w)
    else on_parsed bind (length buffer) w (parse_bind buffer)

-- All that `ramfs_bind` needs.
pub record CanBind (a : BindAnswers) (w : Mounts) : Type 0 where
  pub seen : a.first_sync ≡ pos 0
  pub mounted : a.ramfs_error ≡ pos 0
  pub ramfs : a.ramfs.is_ramfs ≡ true
  pub found : a.sync_error ≡ pos 0
  pub directory : a.sync.is_dir ≡ true
  pub info : w.has_info a.ramfs.super_block ≡ true
  pub memory : a.alloc ≡ true

-- If both paths are found, the first is on a ramfs with its information and the second is a
-- directory, and there is memory, `ramfs_bind` returns 0, the ramfs is bound to the directory, every
-- other one is bound as before, and three path references are kept.
pub ramfs_bind-binds :
    (a : BindAnswers) (dir : Bytes) (w : Mounts)
    → CanBind a w
    → (w' : Mounts) × (ramfs_bind a dir w ≡ some (pos 0, w'))
      × (w'.sync_dir a.ramfs.super_block ≡ some dir)
      × ((sb : ℕ) → sb ≢ a.ramfs.super_block → w'.sync_dir sb ≡ w.sync_dir sb)
      × (w'.path_refs ≡ w.path_refs + 3)
unfolding ramfs_bind
ramfs_bind-binds a dir w c =
    let b = a.ramfs.super_block in
    (
      set_sync_dir b (some dir) (set_sync_dir b none (path_get (path_get (path_get w)))),
      ground arith,
      update_self (update w.sync_dir b none) b (some dir),
      (λ sb ne. ground arith),
      omega arith,
    )

abbrev pub FailsWith : BindAnswers → Mounts → Option (ℤ × Mounts) → Type 0
FailsWith a w none = a.first_sync ≢ pos 0
FailsWith a w (some (r, w')) =
    (r ≢ pos 0
      → (w'.path_refs ≡ w.path_refs + 1)
        × ((sb : ℕ)
            → (w'.sync_dir sb ≡ w.sync_dir sb)
              ⊎ ((sb ≡ a.ramfs.super_block) × (a.alloc ≡ false) × (w'.sync_dir sb ≡ none))))
    × (r ≡ pos 0 → w'.path_refs ≡ w.path_refs + 3)

-- No call of `ramfs_bind` gives all its path references back. If the directory is not found at the
-- first look, it puts a path that it never got. If it fails later, one reference stays held, and the
-- bindings are as before, but where memory runs out the ramfs loses its binding. If it returns 0,
-- three stay held.
pub ramfs_bind-leaks :
    (a : BindAnswers) (dir : Bytes) (w : Mounts) → FailsWith a w (ramfs_bind a dir w)
unfolding ramfs_bind
ramfs_bind-leaks a dir w = elim (Bool-cases (eqb_ℤ a.first_sync (pos 0))) [
  | inr unseen ↦ rw unseen (λ e. ground (arith, eqb_ℤ_iff a.first_sync (pos 0)))
  | inl seen ↦ rw seen (elim (Bool-cases (eqb_ℤ a.ramfs_error (pos 0))) [
    | inr lost ↦
        rw lost
          ((λ ne. (refl, λ sb. inl refl)), λ z. ground (arith, eqb_ℤ_iff a.ramfs_error (pos 0)))
    | inl mounted ↦ rw mounted (elim (Bool-cases a.ramfs.is_ramfs) [
      | inr other_fs ↦ rw other_fs ((λ ne. (omega arith, λ sb. inl refl)), λ z. cc)
      | inl ramfs ↦ rw ramfs (elim (Bool-cases (eqb_ℤ a.sync_error (pos 0))) [
        | inr gone ↦ rw gone (
          (λ ne. (omega arith, λ sb. inl refl)),
          λ z. ground (arith, eqb_ℤ_iff a.sync_error (pos 0)),
        )
        | inl found ↦ rw found (bound found)
      ])
    ])
  ])
]
  where
    unbound :
        (sb : ℕ)
        → (update w.sync_dir a.ramfs.super_block none sb ≡ w.sync_dir sb)
          ⊎ ((sb ≡ a.ramfs.super_block)
              × (◌≡◌ {A = Bool} false false)
              × (update w.sync_dir a.ramfs.super_block none sb ≡ none))
    unbound sb = elim (Bool-cases (sb == a.ramfs.super_block)) [
      | inl same ↦ inr ((==_iff sb a.ramfs.super_block).0 same, refl, rw same)
      | inr different ↦ inl (rw different)
    ]

    bound :
        eqb_ℤ a.sync_error (pos 0) ≡ true
        → FailsWith a w (some (bind_checked a dir (path_get (path_get (path_get w)))))
    bound found = elim (Bool-cases a.sync.is_dir) [
      | inr file ↦ rw file ((λ ne. (omega arith, λ sb. inl refl)), λ z. cc)
      | inl directory ↦ rw directory (elim (Bool-cases (w.has_info a.ramfs.super_block)) [
        | inr bare ↦ rw bare ((λ ne. (omega arith, λ sb. inl refl)), λ z. cc)
        | inl info ↦ rw info (elim (Bool-cases a.alloc) [
          | inl memory ↦
              rw memory
                ((λ ne. absurd (ne ((eqb_ℤ_iff a.sync_error (pos 0)).0 found))), λ z. omega arith)
          | inr full ↦ rw full ((λ ne. (omega arith, unbound)), λ z. cc)
        ])
      ])
    ]
