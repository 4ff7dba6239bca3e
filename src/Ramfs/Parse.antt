-- ===== src/Ramfs/Parse.antt =====
-- `ramfs_proc_bind_write` (fs/ramfs/inode.c): the text "ramfs_path sync_dir" is taken apart.
use oshm.Prelude.{
  ℕ, ◌≡◌, refl, Bool, false, ◌&&◌, not, Option, none, some, [], ◌∷◌, ◌++◌, arith, ◌==◌,
}
use oshm.Ramfs.Bytes.{
  Bytes, space, is_newline, c_string, split_at, skip_spaces, strip_end, All, EndsPlain,
}

abbrev and_dir : Option (Bytes × Bytes) → Option (Bytes × Bytes)
and_dir none = none
and_dir (some (path, rest)) = some (path, strip_end is_newline (skip_spaces rest))

-- `kbuf` to `ramfs_path` and `sync_dir`; `none` where there is no space.
unfoldable pub parse_bind : Bytes → Option (Bytes × Bytes)
unfolding c_string split_at skip_spaces strip_end
parse_bind kbuf = and_dir (split_at space (c_string kbuf))

-- A byte of a path: neither the end of the string nor a space.
abbrev pub is_path_byte : ℕ → Bool
is_path_byte c = not (c == 0) && not (c == space)

abbrev pub is_text : ℕ → Bool
is_text c = not (c == 0)

-- A directory's name as it is written: it has no zero, begins with no space and ends with no line
-- end.
abbrev StartsPlain : Bytes → Type 0
StartsPlain [] = Unit {0}
StartsPlain (c ∷ cs) = (c == space) ≡ false

abbrev pub is_space : ℕ → Bool
is_space c = c == space

split_at-path :
    (path rest : Bytes)
    → All is_path_byte path
    → split_at space (c_string (path ++ space ∷ rest)) ≡ some (path, c_string rest)
unfolding split_at c_string
split_at-path [] rest h = refl
split_at-path (c ∷ cs) rest h =
    let z : (c == 0) ≡ false = ground arith in
    let s : (c == space) ≡ false = ground arith in rw (z, s, split_at-path cs rest h.1)

pub c_string-text : (t : Bytes) → All is_text t → c_string t ≡ t
unfolding c_string
c_string-text [] h = refl
c_string-text (c ∷ cs) h = let z : (c == 0) ≡ false = ground arith in rw (z, c_string-text cs h.1)

skip-spaces :
    (gap rest : Bytes) → All is_space gap → StartsPlain rest → skip_spaces (gap ++ rest) ≡ rest
unfolding skip_spaces
skip-spaces [] [] g h = refl
skip-spaces [] (c ∷ cs) g h = rw h
skip-spaces (c ∷ cs) rest g h = rw g.0 (skip-spaces cs rest g.1 h)

pub strip-newlines : (end : Bytes) → All is_newline end → strip_end is_newline end ≡ []
unfolding strip_end
strip-newlines [] h = refl
strip-newlines (c ∷ cs) h = rw (strip-newlines cs h.1, h.0)

pub strip-plain :
    (dir end : Bytes) → All is_newline end → EndsPlain dir → strip_end is_newline (dir ++ end) ≡ dir
unfolding strip_end
strip-plain [] end e h = strip-newlines end e
strip-plain (c ∷ []) end e h = rw (strip-newlines end e, h)
strip-plain (c ∷ d ∷ ds) end e h = rw (strip-plain (d ∷ ds) end e h, strip_end)

All-append : (p : ℕ → Bool) (xs ys : Bytes) → All p xs → All p ys → All p (xs ++ ys)
All-append p [] ys hx hy = hy
All-append p (x ∷ xs) ys hx hy = (hx.0, All-append p xs ys hx.1 hy)

space-is_text : (gap : Bytes) → All is_space gap → All is_text gap
space-is_text [] h = tt
space-is_text (c ∷ cs) h = let (s, hs) = h in (ground arith, space-is_text cs hs)

newline-is_text : (end : Bytes) → All is_newline end → All is_text end
newline-is_text [] h = tt
newline-is_text (c ∷ cs) h = let (s, hs) = h in (ground arith, newline-is_text cs hs)

StartsPlain-append :
    (dir end : Bytes) → StartsPlain dir → All is_newline end → StartsPlain (dir ++ end)
StartsPlain-append [] [] h e = tt
StartsPlain-append [] (c ∷ cs) h e = let (s, hs) = e in ground arith
StartsPlain-append (d ∷ ds) end h e = h

-- What is written as a path, spaces, a directory and line ends is read as that path and that
-- directory, however many spaces and line ends there are; the path has no space, and the directory
-- begins with none and does not end with a line end.
pub parse_bind-print :
    (path gap dir end : Bytes)
    → All is_path_byte path
    → All is_space gap
    → All is_text dir
    → StartsPlain dir
    → EndsPlain dir
    → All is_newline end
    → parse_bind (path ++ space ∷ (gap ++ (dir ++ end))) ≡ some (path, dir)
unfolding parse_bind
parse_bind-print path gap dir end p g t s e n =
    let text =
      All-append is_text gap (dir ++ end) (space-is_text gap g)
        (All-append is_text dir end t (newline-is_text end n)) in
    rw (
      split_at-path path (gap ++ (dir ++ end)) p,
      c_string-text (gap ++ (dir ++ end)) text,
      skip-spaces gap (dir ++ end) g (StartsPlain-append dir end s n),
      strip-plain dir end n e,
    )
