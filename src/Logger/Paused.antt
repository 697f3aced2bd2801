-- ===== src/Logger/Paused.antt =====
-- MQTT_Callback while writing is paused: the position stays where it is, and so does the callback.
use mzntapp_cpp.Base.{
  ℕ, zero, suc, ◌<◌, ◌≡◌, ◌∙◌, ap, sym, Bool, true, false, not, ltb, lt→ltb, arith, if◌then◌else◌,
  List, [], ◌∷◌, ◌++◌, Text, codes, text_eq,
}
use mzntapp_cpp.Io.{Io, Env, Log, Outcome, done, exited, hung, faulted, ask, pure, ◌>>=◌}
use mzntapp_cpp.Hardware.Writer.{Config, max_file_size, run, start, curr_file_offset}
use mzntapp_cpp.Hardware.Writer.Sizes.{live, start-Inv}
use mzntapp_cpp.Hardware.Writer.Pauses.{offs, run-paused}
use mzntapp_cpp.Logger.{Call, Logger, file_offset, file_breaks, token}
use mzntapp_cpp.Logger.Plan.{add_32}
use mzntapp_cpp.Logger.Callback.{
  wait_for, send_update, finish_update, update_size, event_part, update_part, remote_directory,
  commands, mqtt_callback,
}
use mzntapp_cpp.Logger.Paced.{Request, update, eph}
use mzntapp_cpp.Logger.Recorded.{IsRecorded}

-- It waits for ever.
abbrev pub Hangs : {A : Type 0} → Outcome Call A → Type 0
Hangs (done a l) = ⊥
Hangs (exited l) = ⊥
Hangs (hung l) = Unit
Hangs (faulted l) = ⊥

Hangs-bind :
    {A B : Type 0} (m : Io Call A) (f : A → Io Call B) (env : Env Call) (log : Log Call)
    → Hangs (m env log)
    → Hangs ((m >>= f) env log)
Hangs-bind {A} {B} m f env log h = go (m env log) h
  where
    go :
        (o : Outcome Call A)
        → Hangs o
        → Hangs (◌>>=◌ {C = Call} {A = A} {B = B} (λ _ _. o) f env log)
    go (hung l) h = tt
    go (done a l) h = absurd h
    go (exited l) h = absurd h
    go (faulted l) h = absurd h

module _ (env : Env Call) (v : ℕ) (still : (log : Log Call) → env log file_offset ≡ v) where
  wait_for-Hangs :
      (fuel target : ℕ) (log : Log Call) → v < target → Hangs (wait_for fuel v target env log)
  unfolding wait_for
  wait_for-Hangs zero target log far = tt
  wait_for-Hangs (suc fuel) target log far =
      let l1 : Log Call = (file_offset, env log file_offset) ∷ log in
      let a : ltb (env log file_offset) target ≡ true =
        lt→ltb _ target (omega (arith, still log, far)) in
      let b : ltb (env l1 file_offset) v ≡ false = ground (arith, still l1) in
      rw a (rw b (wait_for-Hangs fuel target ((file_offset, env l1 file_offset) ∷ l1) far))

  send_update-Hangs :
      (fuel : ℕ) (g : Logger) (channel : Text) (size : ℕ) (remote : Text) (log : Log Call)
      → v < add_32 v size
      → Hangs (send_update fuel g channel size remote v env log)
  unfolding send_update
  send_update-Hangs fuel g channel size remote log far =
      Hangs-bind (wait_for fuel v (add_32 v size))
        (λ broke. finish_update g channel remote (env log file_breaks) v (update_size v size broke))
        env _ (wait_for-Hangs fuel (add_32 v size) _ far)

module _ (fuel : ℕ) (g : Logger) (payload : Text) (env : Env Call)
    (still : (log : Log Call) → env log file_offset ≡ env [] file_offset) where
  -- What follows the request is not reached.
  sent-Hangs :
      (channel remote : Text) (size : ℕ) (log : Log Call)
      → env [] file_offset < add_32 (env [] file_offset) size
      → Hangs (
          ((send_update fuel g channel size remote (env [] file_offset) >>= λ _. pure true)
              >>= λ on. if on then commands payload else pure tt)
            env log)
  sent-Hangs channel remote size log far =
      Hangs-bind (send_update fuel g channel size remote (env [] file_offset) >>= λ _. pure true)
        (λ on. if on then commands payload else pure tt) env log
        (Hangs-bind (send_update fuel g channel size remote (env [] file_offset)) (λ _. pure true)
          env log
          (send_update-Hangs env (env [] file_offset) still fuel g channel size remote log far))

  ours-Hangs :
      (b : Bool) (k : Io Call Bool)
      → b ≡ true
      → Hangs ((k >>= λ on. if on then commands payload else pure tt) env [])
      → Hangs (
          ((if not b then pure false else k) >>= λ on. if on then commands payload else pure tt) env
            [])
  ours-Hangs b k e r = rw e r

  Request-Hangs :
      {channel remote : Text} {size : ℕ}
      → Request g payload channel remote size
      → env [] file_offset < add_32 (env [] file_offset) size
      → Hangs (mqtt_callback fuel g payload env [])
  unfolding mqtt_callback token text_eq event_part update_part
  Request-Hangs (update {channel} {number} {rest} h) far =
      rw h (
        sent-Hangs channel (remote_directory g ++ codes "update" ++ number) g.num_update_bytes _
          far)
  Request-Hangs (eph {channel} {node} {rest} h mine) far = rw h (
      ours-Hangs (text_eq node g.node_name)
        (ask file_offset >>= λ curr.
          send_update fuel g channel g.eph_size (remote_directory g ++ codes "eph") curr >>= λ _.
          pure true)
        mine (sent-Hangs channel (remote_directory g ++ codes "eph") g.eph_size _ far))

-- After the rounds `rs` writing is off, and the current files are not full.
pub record IsPaused (c : Config) (rs : List (Bool × ℕ)) (dropped : Log Call → List ℕ)
    (env : Env Call) : Type 0 where
  pub recorded : IsRecorded c (λ log. rs ++ offs (dropped log)) env
  pub unfilled : (run c (live rs) (start c)).bytes_written < max_file_size

-- While writing is paused, with the current files not full, the callback that is given a request for an
-- update or for the ephemeris data of this node, of at least one byte and less than the wrap-around
-- leaves, never returns: however many rounds its wait takes, it goes on.
pub mqtt_callback-Paused :
    (fuel : ℕ) (g : Logger) (c : Config) (rs : List (Bool × ℕ)) (dropped : Log Call → List ℕ)
    (payload channel remote : Text) (size : ℕ) (env : Env Call)
    → Request g payload channel remote size
    → IsPaused c rs dropped env
    → env [] file_offset < add_32 (env [] file_offset) size
    → Hangs (mqtt_callback fuel g payload env [])
mqtt_callback-Paused fuel g c rs dropped payload channel remote size env request paused far =
    Request-Hangs fuel g payload env (λ log. at log ∙ sym (at [])) request far
  where
    at :
        (log : Log Call)
        → env log file_offset ≡ curr_file_offset (run c (live rs) (start c)).bytes_written
    at log =
        paused.recorded log
        ∙ ap curr_file_offset
            (run-paused c rs (dropped log) (start c) (start-Inv c) paused.unfilled)
