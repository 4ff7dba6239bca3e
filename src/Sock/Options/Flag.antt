-- ===== src/Sock/Options/Flag.antt =====
-- The numbers of the bits of `sk_flags` (SOCK_URGINLINE and the others).
use oshm.Prelude.{ℕ}

abbrev pub urginline : ℕ
urginline = 2

abbrev pub keepopen : ℕ
keepopen = 3

abbrev pub linger : ℕ
linger = 4

abbrev pub broadcast : ℕ
broadcast = 6

abbrev pub timestamp : ℕ
timestamp = 7

abbrev pub dbg : ℕ
dbg = 10

abbrev pub rcvtstamp : ℕ
rcvtstamp = 11

abbrev pub rcvtstampns : ℕ
rcvtstampns = 12

abbrev pub localroute : ℕ
localroute = 13

abbrev pub timestamping_rx_software : ℕ
timestamping_rx_software = 15

abbrev pub rxq_ovfl : ℕ
rxq_ovfl = 17

abbrev pub zerocopy : ℕ
zerocopy = 18

abbrev pub wifi_status : ℕ
wifi_status = 19

abbrev pub nofcs : ℕ
nofcs = 20

abbrev pub filter_locked : ℕ
filter_locked = 21

abbrev pub select_err_queue : ℕ
select_err_queue = 22

abbrev pub txtime : ℕ
txtime = 24

abbrev pub tstamp_new : ℕ
tstamp_new = 26
