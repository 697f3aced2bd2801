-- ===== src/Serial.antt =====
-- src/SerialManager.cpp: a serial port. The settings that `tcgetattr` finds are given to `init`.
mod Tests
use mzntapp_cpp.Base.{
  ℕ, ◌+◌, ◌%◌, ◌^◌, ◌≡◌, Bool, true, false, not, ◌==◌, ◌||◌, ◌&&◌, leb, arith, if◌then◌else◌, List,
  [], ◌∷◌, Option, none, some, Text,
}
use mzntapp_cpp.Io.{Io, Env, Log, Returns, failed, pure, fault, ask, tell, ◌>>=◌, ◌>>◌}

-- `termios`, as far as the code changes it: flags of `c_cflag`, the bits of a character, and the speeds.
pub record Termios : Type 0 where
  pub parenb : Bool
  pub cstopb : Bool
  pub clocal : Bool
  pub cread : Bool
  pub csize : ℕ
  pub ispeed : ℕ
  pub ospeed : ℕ

pub data Call : Type 0 where
  opens : Text → Call
  -- `fcntl(fd, F_SETFL, 0)`
  clears_flags : ℕ → Call
  gets_settings : ℕ → Call
  sets_settings : ℕ → Termios → Call
  writes : ℕ → ℕ → Call
  closes : ℕ → Call

pub record Manager : Type 0 where
  pub serial_filename : Text
  pub baud_rate : ℕ
  pub message_bytes : ℕ
  -- none before `init` has opened the port
  pub fd : Option ℕ

unfoldable pub new_manager : Text → ℕ → ℕ → Manager
new_manager name baud bytes = record {
  serial_filename = name;
  baud_rate = baud;
  message_bytes = bytes;
  fd = none;
}

abbrev pub is_supported : ℕ → Bool
is_supported baud =
    baud == 4800
    || (baud == 9600 || (baud == 19200 || (baud == 38400 || (baud == 57600 || baud == 115200))))

-- setBaudRate: its result, and its own copy of the settings, which the caller does not get.
unfoldable pub set_baud_rate : ℕ → Termios → Bool × Termios
set_baud_rate baud options =
    if is_supported baud
    then (true, record options { ispeed = baud; ospeed = baud })
    else (false, options)

-- The flags that Init sets: 8 bits, no parity, one stop bit, receiver on, no modem lines.
abbrev pub with_flags : Termios → Termios
with_flags options = record options {
  parenb = false;
  cstopb = false;
  csize = 8;
  clocal = true;
  cread = true;
}

unfoldable pub init : Termios → Manager → Io Call (Bool × Manager)
unfolding set_baud_rate
init current m = ask (opens m.serial_filename) >>= λ fd.
    let m' = record m { fd = some fd } in
    if fd == failed then pure (false, m') else (do
      tell (clears_flags fd)
      tell (gets_settings fd)
      if not (set_baud_rate m.baud_rate current).0
          then pure (false, m')
          else (do tell (sets_settings fd (with_flags current)); pure (true, m')))

-- Read hands `read` a descriptor that was never set.
pub read : Manager → Io Call Text
read m = fault

-- A negative result is one from 2 ^ 31 on.
abbrev pub succeeds : ℕ → Bool
succeeds n = not (leb (2 ^ 31) n)

-- An unset descriptor is undefined behaviour too.
abbrev pub with_fd : Option ℕ → (ℕ → Io Call Bool) → Io Call Bool
with_fd none k = fault
with_fd (some fd) k = k fd

-- The digit of `num` is sent as a character.
unfoldable pub write : ℕ → Manager → Io Call Bool
write num m = with_fd m.fd λ fd. ask (writes fd ((b'0' + num) % 2 ^ 8)) >>= λ n. pure (succeeds n)

unfoldable pub close : Manager → Io Call Bool
close m = with_fd m.fd λ fd. ask (closes fd) >>= λ n. pure (succeeds n)

-- The calls of a log, the newest first.
abbrev pub calls_of : Log Call → List Call
calls_of [] = []
calls_of ((c, _) ∷ l) = c ∷ calls_of l

-- Init returns false where the port does not open or the rate is none of the six, and leaves the port's
-- settings alone. Else it returns true and gives the port the frame that it wants, with the speeds that
-- the port had before, whatever the rate is.
pub init_lem :
    (current : Termios) (m : Manager) (env : Env Call)
    → let fd = env [] (opens m.serial_filename) in
      Returns (init current m env []) λ r l.
        (r ≡ ((not (fd == failed) && is_supported m.baud_rate), record m { fd = some fd }))
        × (calls_of l ≡ (
            if fd == failed
            then opens m.serial_filename ∷ []
            else if is_supported m.baud_rate
            then sets_settings fd (record {
              parenb = false;
              cstopb = false;
              clocal = true;
              cread = true;
              csize = 8;
              ispeed = current.ispeed;
              ospeed = current.ospeed;
            })
              ∷ gets_settings fd
              ∷ clears_flags fd
              ∷ opens m.serial_filename
              ∷ []
            else gets_settings fd ∷ clears_flags fd ∷ opens m.serial_filename ∷ []))
unfolding init set_baud_rate
init_lem current m env = ground arith
