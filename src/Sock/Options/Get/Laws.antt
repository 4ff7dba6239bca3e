-- ===== src/Sock/Options/Get/Laws.antt =====
-- What is set by `sock_setsockopt` is what `sk_getsockopt` (net/core/sock.c) shows.
use oshm.Prelude.{ℕ, true, some, pos}
use oshm.Sock.Options.{Sock}
use oshm.Sock.Options.Flag
use oshm.Sock.Options.Get.{User}

-- A user with room for so many bytes, whose memory can be read and written.
abbrev pub reader : ℕ → User
reader len = record { optlen = some (pos len); takes_value = true; takes_length = true }
