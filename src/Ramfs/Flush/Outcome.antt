-- ===== src/Ramfs/Flush/Outcome.antt =====
-- What `ramfs_file_flush` leaves on the disk, whatever the calls that it makes answer.
use oshm.Prelude.{
  ℕ, ◌≤◌, ◌<◌, ◌≡◌, ◌≢◌, refl, sym, ◌∙◌, true, false, Option, none, some, [], Bool-cases, inl, inr,
  ◌⊎◌, length, ltb_ℤ, ℤ, pos, neg, eqb_ℤ, eqb_ℤ_iff, ne_zero_of_lt, ne_zero_of_eqb, enomem,
}
use mathlib.Core.Path.{subst}
use oshm.Ramfs.Bytes.{Bytes, base_name, dir_name}
use oshm.Ramfs.Vfs.{FilePath, Vfs, Laws, opened}
use oshm.Ramfs.Copy.{Loop, copy_file_content, Copied, copy_file_content-copies}
use oshm.Ramfs.Flush.{
  FlushAnswers, snprintf, tmp_text, final_text, rename_over, touch_and_rename, put_in_place,
  after_copy, copy_and_install, ramfs_file_flush,
}
use oshm.Ramfs.Flush.Names.{tmp_path-ne_final_path}

-- The target is as before, or is made empty where it was not there, or is complete.
abbrev pub Target : Option Bytes → Option Bytes → Bytes → Type 0
Target before after c = (after ≡ before) ⊎ ((before ≡ none) × (after ≡ some [])) ⊎ (after ≡ some c)

abbrev pub Flushed : (v : Vfs) → FilePath → FilePath → Bytes → v.State → Loop v → Type 0
Flushed v tmp final c s none = ⊥
Flushed v tmp final c s (some (ret, s')) =
    Target (v.content s final) (v.content s' final) c
    × ((q : FilePath) → q ≢ tmp → q ≢ final → v.content s' q ≡ v.content s q)
    × (ret ≡ pos 0 → (v.content s' final ≡ some c) × (v.content s' tmp ≡ none))

opened_keeps : (old : Option Bytes) (c : Bytes) → Target old (opened false old) c
opened_keeps none c = inr (inl (refl, refl))
opened_keeps (some b) c = inl refl

module _ (v : Vfs) (l : Laws v) (a : FlushAnswers) (tmp final : FilePath) (apart : tmp ≢ final)
    (c : Bytes) where
  -- A state that differs at most in the temporary file may be put before.
  Flushed-after :
      (s s' : v.State) (o : Loop v)
      → ((q : FilePath) → q ≢ tmp → v.content s' q ≡ v.content s q)
      → Flushed v tmp final c s' o
      → Flushed v tmp final c s o
  Flushed-after s s' none frame h = h
  Flushed-after s s' (some (r, t)) frame (target, kept, done) = (
    subst (λ (b : Option Bytes). Target b (v.content t final) c) (frame final (λ e. apart (sym e)))
        target,
    (λ q n m. kept q n m ∙ frame q n),
    done,
  )

  -- Nothing done so far but to the temporary file, and the result is an error.
  Flushed-early :
      (s s' : v.State) (r : ℤ)
      → ((q : FilePath) → q ≢ tmp → v.content s' q ≡ v.content s q)
      → r ≢ pos 0
      → Flushed v tmp final c s (some (r, s'))
  Flushed-early s s' r frame bad =
      (inl (frame final (λ e. apart (sym e))), (λ q n m. frame q n), λ z. absurd (bad z))

  -- The target has been opened; the temporary file moves over it, or nothing moves.
  rename_over-Flushed :
      (s t : v.State)
      → v.content t tmp ≡ some c
      → Target (v.content s final) (v.content t final) c
      → ((q : FilePath) → q ≢ tmp → q ≢ final → v.content t q ≡ v.content s q)
      → Flushed v tmp final c s (some (rename_over v a tmp final t))
  rename_over-Flushed s t copied target kept = elim (Bool-cases a.got_filenames) [
    | inr full ↦ rw full (target, kept, λ z. cc)
    | inl memory ↦ rw memory (elim (Bool-cases (eqb_ℤ (v.rename tmp final t).0 (pos 0))) [
      | inr failed ↦
          let bad = ne_zero_of_eqb (v.rename tmp final t).0 failed in
          let same = λ (q : FilePath). l.rename_failed tmp final t q bad in
          (
            subst (λ (b : Option Bytes). Target (v.content s final) b c) (sym (same final)) target,
            (λ q n m. same q ∙ kept q n m),
            λ z. absurd (bad z),
          )
      | inl moved ↦
          let good = (eqb_ℤ_iff (v.rename tmp final t).0 (pos 0)).0 moved in
          let whole = l.rename_moves tmp final t good ∙ copied in
          (
            inr (inr whole),
            (λ q n m. l.rename_frame tmp final t q n m ∙ kept q n m),
            λ z. (whole, l.rename_gone tmp final t apart good),
          )
    ])
  ]

  touch_and_rename-Flushed :
      (s : v.State)
      → v.content s tmp ≡ some c
      → Flushed v tmp final c s (some (touch_and_rename v a tmp final s))
  unfolding touch_and_rename
  touch_and_rename-Flushed s copied =
      let t = (v.open_create final false s).1 in
      let new_dentry = v.lookup_one (dir_name final) (base_name final) t in
      let frame = λ (q : FilePath) (m : q ≢ final). l.open_frame final false s q m in
      let target : Target (v.content s final) (v.content t final) c =
        elim (Bool-cases (ltb_ℤ (v.open_create final false s).0 (pos 0))) [
          | inl refused ↦ inl (l.open_failed final false s final refused)
          | inr made ↦
              subst (λ (b : Option Bytes). Target (v.content s final) b c)
                (sym (l.open_made final false s made)) (opened_keeps (v.content s final) c)
        ] in
      let kept = λ (q : FilePath) (n : q ≢ tmp) (m : q ≢ final). frame q m in
      elim (Bool-cases (ltb_ℤ new_dentry (pos 0))) [
        | inl lost ↦ rw lost (target, kept, λ z. absurd (ne_zero_of_lt new_dentry lost z))
        | inr found ↦ rw found (rename_over-Flushed s t (frame tmp apart ∙ copied) target kept)
      ]

  put_in_place-Flushed :
      (s : v.State)
      → v.content s tmp ≡ some c
      → Flushed v tmp final c s (some (put_in_place v a tmp final s))
  unfolding put_in_place
  put_in_place-Flushed s copied =
      let here : ((q : FilePath) → q ≢ tmp → v.content s q ≡ v.content s q) = λ q n. refl in
      elim (Bool-cases (eqb_ℤ (v.kern_path tmp s) (pos 0))) [
        | inr lost ↦
            rw lost
              (Flushed-early s s (v.kern_path tmp s) here (ne_zero_of_eqb (v.kern_path tmp s) lost))
        | inl found ↦ rw found (elim (Bool-cases a.got_dir_name) [
          | inr full ↦ rw full (Flushed-early s s (neg enomem) here (λ e. cc))
          | inl memory ↦
              rw memory (elim (Bool-cases (eqb_ℤ (v.kern_path (dir_name final) s) (pos 0))) [
                | inr gone ↦ rw gone (
                    Flushed-early s s (v.kern_path (dir_name final) s) here
                      (ne_zero_of_eqb (v.kern_path (dir_name final) s) gone))
                | inl there ↦ rw there (touch_and_rename-Flushed s copied)
              ])
        ])
      ]

  after_copy-Flushed :
      (file : FilePath) (s : v.State) (o : Loop v)
      → Copied v file tmp c s o
      → Flushed v tmp final c s (after_copy v a tmp final o)
  after_copy-Flushed file s none h = h
  after_copy-Flushed file s (some (ret, t)) (kept, done) = elim (Bool-cases (eqb_ℤ ret (pos 0))) [
    | inr failed ↦ rw failed (Flushed-early s t ret kept (ne_zero_of_eqb ret failed))
    | inl copied ↦ rw copied (
        Flushed-after s t (some (put_in_place v a tmp final t)) kept
          (put_in_place-Flushed t (done ((eqb_ℤ_iff ret (pos 0)).0 copied))))
  ]

  copy_and_install-Flushed :
      (fuel : ℕ) (file : FilePath) (s : v.State)
      → file ≢ tmp
      → v.content s file ≡ some c
      → length c < fuel
      → Flushed v tmp final c s (copy_and_install v a fuel file tmp final s)
  unfolding copy_and_install
  copy_and_install-Flushed fuel file s other at lt =
      let t = (v.open_create tmp true s).1 in
      let frame = l.open_frame tmp true s in
      elim (Bool-cases (ltb_ℤ (v.open_create tmp true s).0 (pos 0))) [
        | inl refused ↦ rw refused (
            Flushed-early s t (v.open_create tmp true s).0 frame
              (ne_zero_of_lt (v.open_create tmp true s).0 refused))
        | inr made ↦ rw made (
            Flushed-after s t
              (after_copy v a tmp final
                (copy_file_content v file tmp fuel a.got_copy_paths a.got_copy_buf t))
              frame
              (after_copy-Flushed file t
                (copy_file_content v file tmp fuel a.got_copy_paths a.got_copy_buf t)
                (copy_file_content-copies v l file tmp c other fuel a.got_copy_paths a.got_copy_buf
                  t (frame file other ∙ at) (l.open_made tmp true s made) lt)))
      ]

-- The flush of a file with the content `c`, in a ramfs that is bound to `dir`, where the file is called
-- `path`, is none of the two names that are written, the temporary name is not cut off, and the
-- fuel is above the length of `c`. It returns. The target in `dir` is as it was, or is empty and was
-- not there before, or holds all of `c`; no file but the target and the temporary one changes; and
-- where it returns 0, the target holds all of `c` and the temporary file is gone.
pub ramfs_file_flush-all_or_nothing :
    (v : Vfs) (l : Laws v) (a : FlushAnswers) (fuel : ℕ) (file dir path c : Bytes) (s : v.State)
    → a.d_path ≡ inr path
    → length (tmp_text a dir (base_name path)) ≤ 4095
    → file ≢ snprintf (tmp_text a dir (base_name path))
    → v.content s file ≡ some c
    → length c < fuel
    → Flushed v
        (snprintf (tmp_text a dir (base_name path)))
        (snprintf (final_text dir (base_name path)))
        c
        s
        (ramfs_file_flush v a fuel (some file) (some dir) s)
unfolding ramfs_file_flush
ramfs_file_flush-all_or_nothing v l a fuel file dir path c s is_path fits other at lt =
    let name = base_name path in
    let tmp = snprintf (tmp_text a dir name) in
    let final = snprintf (final_text dir name) in
    let apart = tmp_path-ne_final_path a dir name fits in
    let here : ((q : FilePath) → q ≢ tmp → v.content s q ≡ v.content s q) = λ q n. refl in
    let full = Flushed-early v l a tmp final apart c s s (neg enomem) here (λ e. cc) in
    elim (Bool-cases a.got_path) [
      | inr no_path ↦ rw no_path full
      | inl got_path ↦
          rw (got_path, is_path)
            (elim (Bool-cases a.got_names) [
              | inr no_names ↦ rw no_names full
              | inl got_names ↦
                  rw got_names
                    (copy_and_install-Flushed v l a tmp final apart c fuel file s other at lt)
            ])
    ]
