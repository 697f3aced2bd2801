-- ===== src/Logger/Bounds.antt =====
-- The parts of the recorded files that a message has uploaded.
use Prim.Native.String.{String}
use mzntapp_cpp.Base.{
  ℕ, ◌+◌, ◌^◌, ◌≤◌, ◌<◌, Bool, true, false, not, arith, leb, List, [], ◌∷◌, ◌++◌, Text, codes,
  text_eq,
}
use mzntapp_cpp.Io.{
  Io, Env, Ensures, Ensures-bind, Outcome, done, exited, hung, faulted, pure, ask, tell, ◌>>=◌,
  ◌>>◌,
}
use mzntapp_cpp.Hardware.Writer.{max_single_file_size, last_if_filename}
use mzntapp_cpp.Hardware.Writer.Names.{name_after, names_before}
use mzntapp_cpp.Logger.{
  Call, file_offset, file_breaks, publishes, sets_write, sets_stop, sets_profile_point,
  reads_profile, Logger, tokens, token, stoi,
}
use mzntapp_cpp.Logger.Plan.{event_plan, event_plan-inside, add_32}
use mzntapp_cpp.Logger.Callback.{
  wait_for, upload_event, second_name, history_size, finish_event, start_event, event_part,
  send_update, update_part, command, commands, channel_update, channel_eph, mqtt_callback,
  remote_directory,
}
use mzntapp_cpp.Logger.Keeps.{
  Keeps, bind-Keeps, if-Keeps, pure-Keeps, or_fault-Keeps, token-Keeps, stoi-Keeps,
  wait_for-Ensures, send_update-Keeps, upload_event-Keeps, ask-Keeps, tell-Keeps, IsUploadInside,
  Inside, IsWithinFile,
}

-- The sizes that a controller is given: those of an upload around an event and of an update.
abbrev pub IsSized : Logger → Type 0
IsSized g =
    (g.num_pre_bytes ≤ max_single_file_size)
    × (g.num_pre_bytes + g.num_post_bytes < 2 ^ 29)
    × (g.num_update_bytes < 2 ^ 29)
    × (g.eph_size < 2 ^ 29)

module _ (fuel : ℕ) (g : Logger) (sized : IsSized g) where
  finish_event-Keeps :
      (channel event : Text) (n curr : ℕ)
      → curr ≤ max_single_file_size
      → Keeps (finish_event g channel event n curr)
  unfolding finish_event
  finish_event-Keeps channel event n curr fits =
      bind-Keeps (history_size g curr) _
        (if-Keeps (leb g.num_pre_bytes curr) (pure 0) (ask file_breaks) (pure-Keeps 0)
          (ask-Keeps file_breaks tt))
        (λ history.
          let p = event_plan g.num_pre_bytes g.num_post_bytes max_single_file_size curr history in
          bind-Keeps (second_name g p.two)
            (λ name2. upload_event g p channel event (name_after g.if_filename n) name2)
            (if-Keeps p.two _ (pure [])
              (bind-Keeps (ask file_breaks) _ (ask-Keeps file_breaks tt) (λ n.
                or_fault-Keeps
                  (last_if_filename (name_after g.if_filename n) (names_before g.if_filename n))))
              (pure-Keeps []))
            (λ name2. upload_event-Keeps g p channel event (name_after g.if_filename n) name2 (
              event_plan-inside g.num_pre_bytes g.num_post_bytes max_single_file_size curr history
                sized.0 fits (omega arith) (omega (arith, sized.1)))))

  start_event-Keeps : (channel event : Text) → Keeps (start_event fuel g channel event)
  unfolding Keeps start_event
  start_event-Keeps channel event env w log h =
      let n = env log file_breaks in
      let l = (file_breaks, n) ∷ log in
      let curr = env l file_offset in
      Ensures-bind Inside (λ _. Inside) (λ _. Inside)
        (wait_for fuel curr (add_32 curr g.num_post_bytes))
        (λ _. finish_event g channel event n curr) env _
        (weaken _ _
          (wait_for-Ensures fuel curr (add_32 curr g.num_post_bytes) env _ w (tt, (tt, h))))
        (λ _ l' k. finish_event-Keeps channel event n curr (w l) env w l' k)
    where
      weaken :
          (P : Bool → Type 0) (o : Outcome Call Bool)
          → Ensures Inside (λ b l. Inside l × P b) o
          → Ensures Inside (λ _. Inside) o
      weaken P (done a l) h = h.0
      weaken P (exited l) h = h
      weaken P (hung l) h = h
      weaken P (faulted l) h = h

  event_part-Keeps : (ts : List Text) → Keeps (event_part fuel g ts)
  unfolding event_part
  event_part-Keeps ts = bind-Keeps (token ts 0) _ (token-Keeps ts 0) (λ kind.
      if-Keeps (text_eq kind (codes "event")) _ (pure tt)
        (bind-Keeps (token ts 1) _ (token-Keeps ts 1) (λ what.
          if-Keeps (text_eq what (codes "start")) _ (pure tt)
            (bind-Keeps (token ts 2) _ (token-Keeps ts 2) (λ channel.
              bind-Keeps (stoi channel) _ (stoi-Keeps channel) (λ _.
                bind-Keeps (token ts 3) _ (token-Keeps ts 3) (λ event.
                  bind-Keeps (stoi event) _ (stoi-Keeps event)
                    (λ _. start_event-Keeps channel event)))))
            (pure-Keeps tt)))
        (pure-Keeps tt))

  -- An answer that is the position keeps the rest within the file.
  from_position-Keeps :
      {B : Type 0} (f : ℕ → Io Call B)
      → ((curr : ℕ) → curr ≤ max_single_file_size → Keeps (f curr))
      → Keeps (ask file_offset >>= f)
  unfolding Keeps
  from_position-Keeps f hf env w log h =
      hf (env log file_offset) (w log) env w ((file_offset, env log file_offset) ∷ log) (tt, h)

  channel_update-Keeps :
      (ts : List Text) (curr : ℕ)
      → curr ≤ max_single_file_size
      → Keeps (channel_update fuel g ts curr)
  channel_update-Keeps ts curr fits = bind-Keeps (token ts 2) _ (token-Keeps ts 2) (λ number.
      bind-Keeps (token ts 1) _ (token-Keeps ts 1) (λ channel.
        let remote = remote_directory g ++ codes "update" ++ number in
        bind-Keeps (send_update fuel g channel g.num_update_bytes remote curr) _
          (send_update-Keeps fuel g channel g.num_update_bytes remote curr (omega (arith, sized.2))
            fits)
          (λ _. pure-Keeps true)))

  channel_eph-Keeps :
      (ts : List Text) (curr : ℕ) → curr ≤ max_single_file_size → Keeps (channel_eph fuel g ts curr)
  channel_eph-Keeps ts curr fits = bind-Keeps (token ts 1) _ (token-Keeps ts 1) (λ channel.
      let remote = remote_directory g ++ codes "eph" in
      bind-Keeps (send_update fuel g channel g.eph_size remote curr) _
        (send_update-Keeps fuel g channel g.eph_size remote curr (omega (arith, sized.3)) fits)
        (λ _. pure-Keeps true))

  update_part-Keeps : (ts : List Text) → Keeps (update_part fuel g ts)
  unfolding update_part
  update_part-Keeps ts = bind-Keeps (token ts 0) _ (token-Keeps ts 0) (λ kind.
      if-Keeps (text_eq kind (codes "update")) (ask file_offset >>= channel_update fuel g ts) _
        (from_position-Keeps (channel_update fuel g ts) (channel_update-Keeps ts))
        (if-Keeps (text_eq kind (codes "eph")) _ (pure true)
          (bind-Keeps (token ts 2) _ (token-Keeps ts 2) (λ node.
            if-Keeps (not (text_eq node g.node_name)) (pure false)
              (ask file_offset >>= channel_eph fuel g ts) (pure-Keeps false)
              (from_position-Keeps (channel_eph fuel g ts) (channel_eph-Keeps ts))))
          (pure-Keeps true)))

  command-Keeps :
      (payload : Text) (word : String) (m : Io Call (Unit {0}))
      → Keeps m
      → Keeps (command payload word m)
  command-Keeps payload word m h =
      if-Keeps (text_eq payload (codes word)) m (pure tt) h (pure-Keeps tt)

  commands-Keeps : (payload : Text) → Keeps (commands payload)
  unfolding commands
  commands-Keeps payload =
      let quiet = λ (word : String) (c : Call) (i : IsUploadInside c).
        command-Keeps payload word (tell c) (tell-Keeps c i) in
      bind-Keeps (command payload "pause" (tell (sets_write false))) _
        (quiet "pause" (sets_write false) tt)
        (λ _.
          bind-Keeps (command payload "resume" (tell (sets_write true))) _
            (quiet "resume" (sets_write true) tt)
            (λ _.
              bind-Keeps (command payload "halt" (tell sets_stop)) _ (quiet "halt" sets_stop tt)
                (λ _.
                  bind-Keeps (command payload "profile_start" profile) _
                    (command-Keeps payload "profile_start" profile (
                      bind-Keeps (tell sets_profile_point) _ (tell-Keeps sets_profile_point tt)
                        (λ _. tell-Keeps response tt)))
                    (λ _. quiet "profile_end" reads_profile tt))))
    where
      response : Call
      response = publishes (codes "alert") (codes "profile_response") 0

      profile : Io Call (Unit {0})
      profile = tell sets_profile_point >> tell response

  -- Whatever message arrives, and wherever its handling is cut short: when the writer's position is
  -- always within a file, and the sizes are those of `IsSized` (an update, the data of an ephemeris, and
  -- the parts before and after an event together are below 2 ^ 29, and the part before an event is at
  -- most a file), every part of a recorded file that is uploaded lies below the size at which the writer
  -- starts a new file.
  pub mqtt_callback-Inside :
      (payload : Text) (env : Env Call)
      → IsWithinFile env
      → Ensures Inside (λ _. Inside) (mqtt_callback fuel g payload env [])
  unfolding Keeps mqtt_callback
  mqtt_callback-Inside payload env w =
      bind-Keeps (event_part fuel g (tokens payload)) _ (event_part-Keeps (tokens payload))
        (λ _.
          bind-Keeps (update_part fuel g (tokens payload)) _ (update_part-Keeps (tokens payload))
            (λ on.
              if-Keeps on (commands payload) (pure tt) (commands-Keeps payload) (pure-Keeps tt)))
        env w [] tt
