-- ===== src/Logger/Callback.antt =====
-- LoggerController.cpp, MQTT_Callback: what a message makes the controller do. Each busy wait takes
-- the callback's fuel. Its output to the console is left out.
use Prim.Native.String.{String}
use mzntapp_cpp.Base.{
  ℕ, zero, suc, ◌≡◌, refl, Bool, true, false, not, ltb, leb, ◌==◌, if◌then◌else◌, List, [], ◌∷◌,
  ◌++◌, Text, codes, text_eq,
}
use mzntapp_cpp.Io.{Io, Env, Log, done, faulted, hang, pure, ask, tell, ◌>>=◌, ◌>>◌}
use mzntapp_cpp.Hardware.Writer.{max_single_file_size, last_if_filename}
use mzntapp_cpp.Hardware.Writer.Names.{name_after, names_before}
use mzntapp_cpp.Logger.{
  Call, file_offset, file_breaks, uploads, publishes, sets_write, sets_stop, sets_profile_point,
  reads_profile, agc_bytes, Logger, tokens, token, or_fault, stoi,
}
use mzntapp_cpp.Logger.Plan.{Plan, event_plan, add_32, sub_32}

-- `while (GetCurrFileOffset() < target) { if (GetCurrFileOffset() < start) break; }`, and whether
-- it broke.
unfoldable pub wait_for : ℕ → ℕ → ℕ → Io Call Bool
wait_for zero start target = hang
wait_for (suc fuel) start target =
    let again = wait_for fuel start target in
    ask file_offset >>= λ a.
    if ltb a target
    then (ask file_offset >>= λ b. if ltb b start then pure true else again)
    else pure false

-- `GetIFFilename() + ".CH_" + channel`
abbrev pub if_channel_file : Text → Text → Text
if_channel_file name channel = name ++ codes ".CH_" ++ channel

-- `m_http_host + "/" + m_nodeName + "/"`
abbrev pub remote_directory : Logger → Text
remote_directory g = g.http_host ++ codes "/" ++ g.node_name ++ codes "/"

-- The upload of the second part.
abbrev pub upload_second : Logger → Plan → Text → Text → Text → Io Call (Unit {0})
upload_second g p remote channel name =
    if p.two
    then tell (
        uploads (remote ++ codes ".IF.CH_" ++ channel ++ codes ".0") (if_channel_file name channel)
          g.http_port p.offset2 p.size2 true)
    else pure tt

-- The uploads of an event, which number is in `event`.
unfoldable pub upload_event : Logger → Plan → Text → Text → Text → Text → Io Call (Unit {0})
upload_event g p channel event name1 name2 =
    let remote = remote_directory g ++ codes "event" ++ event in
    do
      tell (
          uploads (remote ++ codes ".IF.CH_" ++ channel) (if_channel_file name1 channel) g.http_port
            p.offset1 p.size1 true)
      upload_second g p remote channel name2
      n ← ask agc_bytes
      tell (uploads (remote ++ codes ".AGC") g.agc_filename g.http_port 0 n false)

-- The second file is looked up where the plan has two parts.
abbrev pub second_name : Logger → Bool → Io Call Text
second_name g two =
    if two
    then (ask file_breaks >>= λ n.
        or_fault (last_if_filename (name_after g.if_filename n) (names_before g.if_filename n)))
    else pure []

-- The number of finished files is looked at only without enough bytes before the position.
abbrev pub history_size : Logger → ℕ → Io Call ℕ
history_size g curr = if leb g.num_pre_bytes curr then pure 0 else ask file_breaks

-- What follows the wait.
unfoldable pub finish_event : Logger → Text → Text → ℕ → ℕ → Io Call (Unit {0})
unfolding upload_event
finish_event g channel event n curr = do
  history ← history_size g curr
  let p = event_plan g.num_pre_bytes g.num_post_bytes max_single_file_size curr history
  name2 ← second_name g p.two
  upload_event g p channel event (name_after g.if_filename n) name2

unfoldable pub start_event : ℕ → Logger → Text → Text → Io Call (Unit {0})
unfolding finish_event wait_for
start_event fuel g channel event = do
  n ← ask file_breaks
  curr ← ask file_offset
  _ ← wait_for fuel curr (add_32 curr g.num_post_bytes)
  finish_event g channel event n curr

-- `event-start-<channel>-<number>`
unfoldable pub event_part : ℕ → Logger → List Text → Io Call (Unit {0})
unfolding start_event
event_part fuel g ts = token ts 0 >>= λ kind.
    if text_eq kind (codes "event")
    then (token ts 1 >>= λ what.
        if text_eq what (codes "start")
        then (do
          channel ← token ts 2
          _ ← stoi channel
          event ← token ts 3
          _ ← stoi event
          start_event fuel g channel event)
        else pure tt)
    else pure tt

abbrev pub status : Logger → String → Io Call (Unit {0})
status g what =
    tell (publishes (codes "leader") (codes "status_update-" ++ g.node_name ++ codes what) 0)

-- A refused upload is reported.
abbrev pub upload_or_tell : Logger → Call → String → Io Call (Unit {0})
upload_or_tell g c what = ask c >>= λ ok. if ok == 0 then status g what else pure tt

-- After a file break the upload ends with the file.
abbrev pub update_size : ℕ → ℕ → Bool → ℕ
update_size curr size broke = if broke then sub_32 max_single_file_size curr else size

-- The two uploads of an update.
abbrev pub if_upload : Logger → Text → Text → ℕ → ℕ → ℕ → Call
if_upload g channel remote n curr size =
    uploads (remote ++ codes ".IFCH_" ++ channel)
      (if_channel_file (name_after g.if_filename n) channel) g.http_port curr size true

abbrev pub agc_upload : Logger → Text → ℕ → Io Call (Unit {0})
agc_upload g remote bytes =
    upload_or_tell g (uploads (remote ++ codes ".AGC") g.agc_filename g.http_port 0 bytes false)
      "-uploadfail_agc"

abbrev pub finish_update : Logger → Text → Text → ℕ → ℕ → ℕ → Io Call (Unit {0})
finish_update g channel remote n curr size = do
  status g "-startupload"
  upload_or_tell g (if_upload g channel remote n curr size) "-uploadfail_if"
  bytes ← ask agc_bytes
  agc_upload g remote bytes

-- From the lookup of the local file on, `curr` being the position before it.
unfoldable pub send_update : ℕ → Logger → Text → ℕ → Text → ℕ → Io Call (Unit {0})
unfolding wait_for
send_update fuel g channel size remote curr = do
  n ← ask file_breaks
  status g "-recvupdate"
  broke ← wait_for fuel curr (add_32 curr size)
  finish_update g channel remote n curr (update_size curr size broke)

abbrev pub channel_update : ℕ → Logger → List Text → ℕ → Io Call Bool
channel_update fuel g ts curr = do
  number ← token ts 2
  channel ← token ts 1
  let remote = remote_directory g ++ codes "update" ++ number
  send_update fuel g channel g.num_update_bytes remote curr
  pure true

abbrev pub channel_eph : ℕ → Logger → List Text → ℕ → Io Call Bool
channel_eph fuel g ts curr = do
  channel ← token ts 1
  send_update fuel g channel g.eph_size (remote_directory g ++ codes "eph") curr
  pure true

-- `update-<channel>-<number>` and `eph-<channel>-<node>`; false where the callback returns.
unfoldable pub update_part : ℕ → Logger → List Text → Io Call Bool
update_part fuel g ts = token ts 0 >>= λ kind.
    if text_eq kind (codes "update")
    then ask file_offset >>= channel_update fuel g ts
    else if text_eq kind (codes "eph")
    then (token ts 2 >>= λ node.
        if not (text_eq node g.node_name)
        then pure false
        else ask file_offset >>= channel_eph fuel g ts)
    else pure true

-- The commands without arguments.
abbrev pub command : Text → String → Io Call (Unit {0}) → Io Call (Unit {0})
command payload word action = if text_eq payload (codes word) then action else pure tt

unfoldable pub commands : Text → Io Call (Unit {0})
commands payload = do
  command payload "pause" (tell (sets_write false))
  command payload "resume" (tell (sets_write true))
  command payload "halt" (tell sets_stop)
  command payload "profile_start"
      (tell sets_profile_point >> tell (publishes (codes "alert") (codes "profile_response") 0))
  command payload "profile_end" (tell reads_profile)

unfoldable pub mqtt_callback : ℕ → Logger → Text → Io Call (Unit {0})
unfolding event_part update_part commands
mqtt_callback fuel g payload = do
  event_part fuel g (tokens payload)
  on ← update_part fuel g (tokens payload)
  if on then commands payload else pure tt

-- An empty message is undefined behaviour.
mqtt_callback-empty :
    (fuel : ℕ) (g : Logger) (env : Env Call) (log : Log Call)
    → mqtt_callback fuel g [] env log ≡ faulted log
unfolding mqtt_callback tokens token
mqtt_callback-empty fuel g env log = refl

-- An ephemeris request for another node does nothing.
mqtt_callback-eph_other :
    (fuel : ℕ) (g : Logger) (payload channel node : Text) (rest : List Text) (env : Env Call)
    (log : Log Call)
    → tokens payload ≡ codes "eph" ∷ channel ∷ node ∷ rest
    → text_eq node g.node_name ≡ false
    → mqtt_callback fuel g payload env log ≡ done tt log
unfolding mqtt_callback token text_eq
mqtt_callback-eph_other fuel g payload channel node rest env log h other =
    rw h (returned (text_eq node g.node_name) _ other)
  where
    returned :
        (b : Bool) (k : Io Call Bool)
        → b ≡ false
        → ((if not b then pure false else k) >>= λ on. if on then commands payload else pure tt) env
            log
          ≡ done tt log
    returned b k e = rw e refl
