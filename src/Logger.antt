-- ===== src/Logger.antt =====
-- LoggerController.cpp and LoggerController.h: the controller that answers the commands of the leader.
-- What it calls outside itself, the members that the callback reads, and the reading of a payload.
mod Tests
pub mod Tokens
pub mod Plan
pub mod Callback
pub mod Keeps
pub mod Bounds
pub mod Update
pub mod Start
pub mod Answers
pub mod Requests
pub mod Paced
pub mod Paused
pub mod Events
pub mod Recorded
pub mod Sound
pub mod Malformed
use mzntapp_cpp.Base.{
  ℕ, zero, suc, ◌+◌, ◌-◌, ◌*◌, ◌/◌, ◌%◌, ◌^◌, Bool, true, false, ◌==◌, ltb, leb, ◌&&◌,
  if◌then◌else◌, List, [], ◌∷◌, ◌++◌, Option, none, some, Text, codes, to_string, get_elem?,
}
use mzntapp_cpp.Io.{Io, pure, fault}
use mzntapp_cpp.Hardware.Calls.{buffer_bytesize}
use mzntapp_cpp.Hardware.Conf.{skip_spaces}

pub data Call : Type 0 where
  -- `m_hwMgr.GetCurrFileOffset()`
  file_offset : Call
  -- how many file breaks the writer has made: it gives the current name and the history of names
  file_breaks : Call
  -- `m_httpClient.upload` of remote path, local file, port, offset, size and `cancelCurr`, which the
  -- code sets for the recorded files and not for the AGC file; nonzero for an accepted upload
  uploads : Text → Text → ℕ → ℕ → ℕ → Bool → Call
  -- `m_mqttCtlr.Publish` of topic, message and quality of service
  publishes : Text → Text → ℕ → Call
  -- `m_hwMgr.SetWrite`
  sets_write : Bool → Call
  -- `m_stopCond = true`
  sets_stop : Call
  -- `m_profilePoint = now` and the reading of it
  sets_profile_point : Call
  reads_profile : Call
  -- `m_bytesWrittenAGC`, which Update changes on the main thread
  agc_bytes : Call

-- The members of the controller that its messages and its start need.
pub record Logger : Type 0 where
  pub node_name : Text
  pub if_filename : Text
  pub agc_filename : Text
  pub http_host : Text
  pub http_port : ℕ
  pub mqtt_host : Text
  pub num_pre_bytes : ℕ
  pub num_update_bytes : ℕ
  pub num_post_bytes : ℕ
  pub eph_size : ℕ

-- `(n / BUFFER_BYTESIZE) * BUFFER_BYTESIZE`.
abbrev pub whole_buffers : ℕ → ℕ
whole_buffers n = n / buffer_bytesize * buffer_bytesize

-- The constructor, as to these members.
unfoldable pub new_logger : Text → Text → Text → ℕ → ℕ → ℕ → Text → ℕ → Text → ℕ → Logger
new_logger node if_file agc_file update pre post http_host http_port mqtt_host mqtt_port = record {
  node_name = node;
  if_filename = if_file;
  agc_filename = agc_file;
  http_host = http_host;
  http_port = http_port;
  mqtt_host = codes "tcp://" ++ mqtt_host ++ codes ":" ++ to_string mqtt_port;
  num_pre_bytes = whole_buffers pre;
  num_update_bytes = whole_buffers update;
  num_post_bytes = whole_buffers post;
  eph_size = 120000000;
}

-- The tokens that `getline(stream, token, '-')` gives.
abbrev cons_first : ℕ → List Text → List Text
cons_first c [] = (c ∷ []) ∷ []
cons_first c (t ∷ ts) = (c ∷ t) ∷ ts

unfoldable pub tokens : Text → List Text
tokens [] = []
tokens (c ∷ s) = let rest = tokens s in if c == b'-' then [] ∷ rest else cons_first c rest

-- Undefined behaviour, or an exception that nothing catches.
abbrev pub or_fault : {A : Type 0} → Option A → Io Call A
or_fault none = fault
or_fault (some a) = pure a

-- `payloadTokens[i]`: an index out of range is undefined behaviour.
unfoldable pub token : List Text → ℕ → Io Call Text
token ts i = or_fault (get_elem? ts i)

is_digit : ℕ → Bool
is_digit c = leb b'0' c && leb c b'9'

-- The value of the digits that a text starts with.
digits_value : ℕ → Text → ℕ
unfolding is_digit
digits_value acc [] = acc
digits_value acc (c ∷ s) =
    let more = digits_value (acc * 10 + (c - b'0')) s in if is_digit c then more else acc

-- At least one digit, and a value up to the limit.
unsigned_in : ℕ → Text → Option ℕ
unfolding digits_value is_digit
unsigned_in limit [] = none
unsigned_in limit (c ∷ s) =
    if is_digit c && leb (digits_value 0 (c ∷ s)) limit then some (digits_value 0 (c ∷ s)) else none

abbrev negated : Option ℕ → Option ℕ
negated none = none
negated (some n) = some ((2 ^ 32 - n) % 2 ^ 32)

unfoldable pub signed_value : Text → Option ℕ
unfolding unsigned_in
signed_value [] = none
signed_value (c ∷ s) =
    if c == b'-'
    then negated (unsigned_in (2 ^ 31) s)
    else if c == b'+'
    then unsigned_in (2 ^ 31 - 1) s
    else unsigned_in (2 ^ 31 - 1) (c ∷ s)

-- `std::stoi`, modulo 2 ^ 32. It throws without digits and out of the range of `int`; nothing on
-- the thread of the callback catches the exception.
unfoldable pub stoi : Text → Io Call ℕ
unfolding signed_value skip_spaces
stoi s = or_fault (signed_value (skip_spaces s))
