-- ===== src/Ramfs/Flush/Names.antt =====
-- The two names that `ramfs_file_flush` writes to.
use oshm.Prelude.{◌≡◌, ◌≢◌, ap, sym, ◌∙◌, ◌+◌, ◌≤◌, ◌∷◌, ◌++◌, arith, length, length-append}
use oshm.Ramfs.Bytes.{Bytes, slash}
use oshm.Ramfs.Copy.{take-all}
use oshm.Ramfs.Flush.{FlushAnswers, snprintf, stamp, tmp_text, final_text}

length-tmp_text :
    (a : FlushAnswers) (dir name : Bytes)
    → length (tmp_text a dir name) ≡ length dir + (length name + length (stamp a)) + 2
length-tmp_text a dir name =
    omega
      (arith, length-append dir (slash ∷ b'.' ∷ (name ++ stamp a)), length-append name (stamp a))

length-final_text : (dir name : Bytes) → length (final_text dir name) ≡ length dir + length name + 1
length-final_text dir name = omega (arith, length-append dir (slash ∷ name))

-- Where the temporary name is not cut off, the two names differ.
pub tmp_path-ne_final_path :
    (a : FlushAnswers) (dir name : Bytes)
    → length (tmp_text a dir name) ≤ 4095
    → snprintf (tmp_text a dir name) ≢ snprintf (final_text dir name)
tmp_path-ne_final_path a dir name fits same =
    let l = length-tmp_text a dir name in
    let m = length-final_text dir name in
    let tmp = take-all 4095 (tmp_text a dir name) fits in
    let final = take-all 4095 (final_text dir name) (omega arith) in
    let lengths = ap length (sym tmp ∙ same ∙ final) in absurd (omega arith)
