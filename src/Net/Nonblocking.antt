-- ===== src/Net/Nonblocking.antt =====
-- What `set_socket_nonblocking` of src/common/utils.c does to the flags of a socket.
use ai_chatbot.Base.{ℕ, ◌≡◌, ◌/◌, ◌%◌, Bool, true, false, some, arith, if◌then◌else◌}
use ai_chatbot.Status.{Status}
use ai_chatbot.Net.{with_nonblock, set_socket_nonblocking}

-- The flag O_NONBLOCK, the twelfth bit, is set or cleared as asked, and the other flags are as they were.
with_nonblock_lem :
    (enable : Bool) (flags : ℕ)
    → let new = with_nonblock enable flags in
      ((new / 2048) % 2 ≡ (if enable then 1 else 0))
      × (new % 2048 ≡ flags % 2048)
      × (new / 4096 ≡ flags / 4096)
unfolding with_nonblock
with_nonblock_lem true flags = ground arith
with_nonblock_lem false flags = ground arith

-- When the call ends with CHAT_OK, the flag of the socket is set or cleared as asked, and no other flag is
-- changed.
pub set_socket_nonblocking_lem :
    (flags : ℕ) (setfl : ℕ → Bool) (enable : Bool) {new : ℕ}
    → set_socket_nonblocking (some flags) setfl enable ≡ (Status.ok, some new)
    → ((new / 2048) % 2 ≡ (if enable then 1 else 0))
      × (new % 2048 ≡ flags % 2048)
      × (new / 4096 ≡ flags / 4096)
unfolding set_socket_nonblocking
set_socket_nonblocking_lem flags setfl enable e = ground (arith, with_nonblock_lem enable flags)
