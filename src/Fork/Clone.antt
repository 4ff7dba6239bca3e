-- ===== src/Fork/Clone.antt =====
-- The bits of the flags of clone, by their numbers (include/uapi/linux/sched.h).
use oshm.Prelude.{ℕ}

abbrev pub vm : ℕ
vm = 8

abbrev pub fs : ℕ
fs = 9

abbrev pub files : ℕ
files = 10

abbrev pub sighand : ℕ
sighand = 11

abbrev pub pidfd : ℕ
pidfd = 12

abbrev pub vfork : ℕ
vfork = 14

abbrev pub parent : ℕ
parent = 15

abbrev pub thread : ℕ
thread = 16

abbrev pub newns : ℕ
newns = 17

abbrev pub sysvsem : ℕ
sysvsem = 18

abbrev pub parent_settid : ℕ
parent_settid = 20

abbrev pub detached : ℕ
detached = 22

abbrev pub untraced : ℕ
untraced = 23

abbrev pub newipc : ℕ
newipc = 27

abbrev pub newuser : ℕ
newuser = 28

abbrev pub newpid : ℕ
newpid = 29

abbrev pub io : ℕ
io = 31

abbrev pub clear_sighand : ℕ
clear_sighand = 32

abbrev pub into_cgroup : ℕ
into_cgroup = 33

abbrev pub newuts : ℕ
newuts = 26

abbrev pub newnet : ℕ
newnet = 30

abbrev pub newcgroup : ℕ
newcgroup = 25

abbrev pub newtime : ℕ
newtime = 7
