-- ===== src/Logger/Requests.antt =====
-- MQTT_Callback on a request for an update or for the ephemeris data of this node, from the message to
-- the answer.
use Prim.Native.String.{String}
use mzntapp_cpp.Base.{
  ℕ, suc, ◌≤◌, ◌≡◌, refl, Bool, true, false, not, if◌then◌else◌, arith, List, [], ◌∷◌, ◌++◌, Text,
  codes, text_eq, Bool-cases, inl, inr,
}
use mzntapp_cpp.Io.{Io, Env, Log, Returns, Returns-bind, Returns-mono, pure, ask, tell, ◌>>=◌, ◌>>◌}
use mzntapp_cpp.Logger.{
  Call, file_offset, publishes, sets_write, sets_stop, sets_profile_point, reads_profile, Logger,
  tokens, token,
}
use mzntapp_cpp.Logger.Plan.{add_32}
use mzntapp_cpp.Logger.Callback.{
  remote_directory, send_update, event_part, update_part, command, commands, mqtt_callback,
}
use mzntapp_cpp.Logger.Answers.{
  uploads_of, Reaches, wait_for-Returns, Answered, told, WaitReturns, send_update-Returns,
}

module _ (payload : Text) (env : Env Call) where
  -- It returns and asks for no upload.
  unfoldable pub Quiet : Io Call (Unit {0}) → Type 0
  Quiet m =
      (us : List Call) (log : Log Call)
      → uploads_of log ≡ us
      → Returns (m env log) (λ _ l. uploads_of l ≡ us)

  then-Quiet : (m k : Io Call (Unit {0})) → Quiet m → Quiet k → Quiet (m >> k)
  unfolding Quiet
  then-Quiet m k hm hk us log h =
      Returns-bind (λ _ l. uploads_of l ≡ us) (λ _ l. uploads_of l ≡ us) m (λ _. k) env log
        (hm us log h) (λ _ l same. hk us l same)

  command-Quiet :
      (word : String) (action : Io Call (Unit {0}))
      → Quiet action
      → Quiet (command payload word action)
  unfolding Quiet
  command-Quiet word action quiet us log h = elim (Bool-cases (text_eq payload (codes word))) [
    | inl e ↦ rw e (quiet us log h)
    | inr e ↦ rw e h
  ]

  pub commands-Quiet : Quiet (commands payload)
  unfolding Quiet commands
  commands-Quiet =
      then-Quiet pause (resume >> (halt >> (start >> end)))
        (command-Quiet "pause" (tell (sets_write false)) (λ us log h. h))
        (then-Quiet resume (halt >> (start >> end))
          (command-Quiet "resume" (tell (sets_write true)) (λ us log h. h))
          (then-Quiet halt (start >> end) (command-Quiet "halt" (tell sets_stop) (λ us log h. h)) (
            then-Quiet start end (command-Quiet "profile_start" profile (λ us log h. h))
              (command-Quiet "profile_end" (tell reads_profile) (λ us log h. h)))))
    where
      pause : Io Call (Unit {0})
      pause = command payload "pause" (tell (sets_write false))

      resume : Io Call (Unit {0})
      resume = command payload "resume" (tell (sets_write true))

      halt : Io Call (Unit {0})
      halt = command payload "halt" (tell sets_stop)

      profile : Io Call (Unit {0})
      profile =
          tell sets_profile_point >> tell (publishes (codes "alert") (codes "profile_response") 0)

      start : Io Call (Unit {0})
      start = command payload "profile_start" profile

      end : Io Call (Unit {0})
      end = command payload "profile_end" (tell reads_profile)

-- After a request is sent, the commands follow and ask for nothing.
and_commands :
    (fuel : ℕ) (g : Logger) (payload channel remote : Text) (size curr : ℕ) (env : Env Call)
    (log : Log Call)
    → uploads_of log ≡ []
    → WaitReturns fuel curr (add_32 curr size) env (told g env log)
    → Returns
        (((send_update fuel g channel size remote curr >>= λ _. pure true) >>= λ on.
            if on then commands payload else pure tt)
          env log)
        (λ _. Answered g channel remote size curr)
unfolding Quiet
and_commands fuel g payload channel remote size curr env log none_yet waited =
    Returns-bind (λ on l. (on ≡ true) × Answered g channel remote size curr l)
      (λ _. Answered g channel remote size curr)
      (send_update fuel g channel size remote curr >>= λ _. pure true)
      (λ on. if on then commands payload else pure tt) env log
      (Returns-bind (λ _. Answered g channel remote size curr)
        (λ on l. (on ≡ true) × Answered g channel remote size curr l)
        (send_update fuel g channel size remote curr) (λ _. pure true) env log
        (send_update-Returns fuel g channel remote size curr env log none_yet waited)
        (λ _ l answer. (refl, answer)))
      (λ on l (e, (n, bytes, broke, us)). rw e (
        Returns-mono (λ _ l'. uploads_of l' ≡ _) _ (commands payload env l)
          (λ _ l' same. (n, bytes, broke, same)) (commands-Quiet payload env _ l us)))

module _ (fuel : ℕ) (g : Logger) (payload : Text) (env : Env Call) where
  -- The position at the request, and the log after it was read.
  abbrev curr : ℕ
  curr = env [] file_offset

  abbrev at_request : Log Call
  at_request = (file_offset, curr) ∷ []

  pub update-Answered :
      (channel number : Text) (rest : List Text)
      → tokens payload ≡ codes "update" ∷ channel ∷ number ∷ rest
      → WaitReturns fuel
          (env [] file_offset)
          (add_32 (env [] file_offset) g.num_update_bytes)
          env
          (told g env ((file_offset, env [] file_offset) ∷ []))
      → Returns (mqtt_callback fuel g payload env []) (λ _.
        Answered g channel
          (remote_directory g ++ codes "update" ++ number)
          g.num_update_bytes
          (env [] file_offset))
  unfolding mqtt_callback token text_eq event_part update_part
  update-Answered channel number rest h waited = rw h (
      and_commands fuel g payload channel (remote_directory g ++ codes "update" ++ number)
        g.num_update_bytes curr env at_request refl waited)

  ours :
      (Q : Unit {0} → Log Call → Type 0) (b : Bool) (k : Io Call Bool)
      → b ≡ true
      → Returns ((k >>= λ on. if on then commands payload else pure tt) env []) Q
      → Returns
          (((if not b then pure false else k) >>= λ on. if on then commands payload else pure tt)
            env [])
          Q
  ours Q b k e r = rw e r

  pub eph-Answered :
      (channel node : Text) (rest : List Text)
      → tokens payload ≡ codes "eph" ∷ channel ∷ node ∷ rest
      → text_eq node g.node_name ≡ true
      → WaitReturns fuel
          (env [] file_offset)
          (add_32 (env [] file_offset) g.eph_size)
          env
          (told g env ((file_offset, env [] file_offset) ∷ []))
      → Returns (mqtt_callback fuel g payload env []) (λ _.
        Answered g channel (remote_directory g ++ codes "eph") g.eph_size (env [] file_offset))
  unfolding mqtt_callback token text_eq event_part update_part
  eph-Answered channel node rest h mine waited = rw h (
      ours (λ _. Answered g channel (remote_directory g ++ codes "eph") g.eph_size curr)
        (text_eq node g.node_name)
        (ask file_offset >>= λ curr.
          send_update fuel g channel g.eph_size (remote_directory g ++ codes "eph") curr >>= λ _.
          pure true)
        mine
        (and_commands fuel g payload channel (remote_directory g ++ codes "eph") g.eph_size curr env
          at_request refl waited))

-- Once the position has reached the target of an update within some calls, the callback that is given
-- the request returns with more rounds of fuel than these, and has asked for two uploads: the recorded
-- file of the channel from the position at the request on, with the size of an update, or as far as the
-- file goes after a file break, and the AGC file.
pub mqtt_callback-Answered :
    (fuel m : ℕ) (g : Logger) (payload channel number : Text) (rest : List Text) (env : Env Call)
    → tokens payload ≡ codes "update" ∷ channel ∷ number ∷ rest
    → Reaches m (add_32 (env [] file_offset) g.num_update_bytes) env
    → m ≤ fuel
    → Returns (mqtt_callback (suc fuel) g payload env []) (λ _.
      Answered g channel
        (remote_directory g ++ codes "update" ++ number)
        g.num_update_bytes
        (env [] file_offset))
mqtt_callback-Answered fuel m g payload channel number rest env h far enough =
    let curr = env [] file_offset in
    update-Answered (suc fuel) g payload env channel number rest h (
      wait_for-Returns fuel curr (add_32 curr g.num_update_bytes) m env _ far
        (omega (arith, enough)))
