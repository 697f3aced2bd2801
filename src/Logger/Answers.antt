-- ===== src/Logger/Answers.antt =====
-- MQTT_Callback on a request for recorded data: the wait comes to an end, and two uploads follow.
use Prim.Native.String.{String}
use mzntapp_cpp.Base.{
  ℕ, zero, suc, ◌+◌, ◌≤◌, ◌≡◌, refl, Bool, true, false, ltb, le→ltb, ◌==◌, if◌then◌else◌, arith,
  List, [], ◌∷◌, ◌++◌, Text, codes, length, Bool-cases, inl, inr, ◌∙◌, ap,
}
use mzntapp_cpp.Io.{Io, Env, Log, Returns, Returns-bind, ask, ◌>>=◌}
use mzntapp_cpp.Logger.{Call, file_offset, file_breaks, uploads, publishes, agc_bytes, Logger}
use mzntapp_cpp.Hardware.Writer.{max_single_file_size}
use mzntapp_cpp.Hardware.Writer.Names.{name_after}
use mzntapp_cpp.Logger.Plan.{add_32, sub_32}
use mzntapp_cpp.Logger.Callback.{
  wait_for, if_channel_file, if_upload, upload_or_tell, agc_upload, finish_update, update_size,
  send_update,
}

-- The uploads that were asked for, the newest first.
abbrev pub uploads_of : Log Call → List Call
uploads_of [] = []
uploads_of ((uploads r f p o s h, _) ∷ l) = uploads r f p o s h ∷ uploads_of l
uploads_of ((_, _) ∷ l) = uploads_of l

-- After `m` further calls the position has reached the target.
abbrev pub Reaches : ℕ → ℕ → Env Call → Type 0
Reaches m target env = (log : Log Call) → m ≤ length log → target ≤ env log file_offset

pub wait_for-Returns :
    (fuel start target m : ℕ) (env : Env Call) (log : Log Call)
    → Reaches m target env
    → m ≤ length log + fuel
    → Returns (wait_for (suc fuel) start target env log) (λ _ l. uploads_of l ≡ uploads_of log)
unfolding wait_for
wait_for-Returns zero start target m env log far h =
    let there : ltb (env log file_offset) target ≡ false =
      le→ltb (env log file_offset) target (far log (omega arith)) in
    rw there refl
wait_for-Returns (suc fuel) start target m env log far h =
    let l : Log Call = (file_offset, env log file_offset) ∷ log in
    elim (Bool-cases (ltb (env log file_offset) target)) [
      | inl e ↦ rw e (elim (Bool-cases (ltb (env l file_offset) start)) [
        | inl e' ↦ rw e' refl
        | inr e' ↦ rw e' (
            wait_for-Returns fuel start target m env ((file_offset, env l file_offset) ∷ l) far
              (omega arith))
      ])
      | inr e ↦ rw e refl
    ]

-- The two uploads of a request for `size` bytes: the part of the recorded file from `curr` on, to the end of the file
-- after a file break, and the AGC file.
abbrev pub Answered : Logger → Text → Text → ℕ → ℕ → Log Call → Type 0
Answered g channel remote size curr l =
    (n bytes : ℕ) × (broke : Bool) × (uploads_of l
      ≡ uploads (remote ++ codes ".AGC") g.agc_filename g.http_port 0 bytes false
        ∷ uploads (remote ++ codes ".IFCH_" ++ channel)
            (name_after g.if_filename n ++ codes ".CH_" ++ channel) g.http_port curr
            (if broke then sub_32 max_single_file_size curr else size) true
        ∷ [])

-- A refused upload is reported, and no other upload is asked for.
upload_or_tell-Returns :
    (g : Logger) (remote file : Text) (port offset size : ℕ) (cancels : Bool) (what : String)
    (env : Env Call) (log : Log Call) (Q : Unit {0} → Log Call → Type 0)
    → ((l : Log Call)
        → uploads_of l ≡ uploads remote file port offset size cancels ∷ uploads_of log
        → Q tt l)
    → Returns (upload_or_tell g (uploads remote file port offset size cancels) what env log) Q
upload_or_tell-Returns g remote file port offset size cancels what env log Q h =
    elim (Bool-cases (env log (uploads remote file port offset size cancels) == 0)) [
      | inl e ↦ rw e (h _ refl)
      | inr e ↦ rw e (h _ refl)
    ]

pub finish_update-Returns :
    (g : Logger) (channel remote : Text) (n curr size : ℕ) (broke : Bool) (env : Env Call)
    (log : Log Call)
    → uploads_of log ≡ []
    → Returns
        (finish_update g channel remote n curr (update_size curr size broke) env log)
        (λ _. Answered g channel remote size curr)
finish_update-Returns g channel remote n curr size broke env log none_yet =
    Returns-bind (λ _ l. uploads_of l ≡ sent ∷ uploads_of log)
      (λ _. Answered g channel remote size curr) (upload_or_tell g sent "-uploadfail_if")
      (λ _. rest) env _
      (upload_or_tell-Returns g (remote ++ codes ".IFCH_" ++ channel)
        (if_channel_file (name_after g.if_filename n) channel) g.http_port curr
        (update_size curr size broke) true "-uploadfail_if" env _ _ (λ l e. e))
      (λ _ l e. after l (e ∙ ap (λ us. sent ∷ us) none_yet))
  where
    sent : Call
    sent = if_upload g channel remote n curr (update_size curr size broke)

    rest : Io Call (Unit {0})
    rest = ask agc_bytes >>= λ bytes. agc_upload g remote bytes

    after :
        (l : Log Call)
        → uploads_of l ≡ sent ∷ []
        → Returns (rest env l) (λ _. Answered g channel remote size curr)
    after l e =
        upload_or_tell-Returns g (remote ++ codes ".AGC") g.agc_filename g.http_port 0
          (env l agc_bytes) false "-uploadfail_agc" env ((agc_bytes, env l agc_bytes) ∷ l) _
          (λ l' e'. (
            n,
            env l agc_bytes,
            broke,
            e'
                ∙ ap
                    (λ us.
                      uploads (remote ++ codes ".AGC") g.agc_filename g.http_port 0
                        (env l agc_bytes) false
                      ∷ us)
                    e,
          ))

-- The log when the wait begins: the local file was looked up, and the leader told.
abbrev pub told : Logger → Env Call → Log Call → Log Call
told g env log =
    let l : Log Call = (file_breaks, env log file_breaks) ∷ log in
    let c : Call =
      publishes (codes "leader") (codes "status_update-" ++ g.node_name ++ codes "-recvupdate") 0 in
    (c, env l c) ∷ l

-- The wait for a position comes to an end, and asks for no upload.
abbrev pub WaitReturns : ℕ → ℕ → ℕ → Env Call → Log Call → Type 0
WaitReturns fuel curr target env log =
    Returns (wait_for fuel curr target env log) (λ _ l. uploads_of l ≡ uploads_of log)

pub send_update-Returns :
    (fuel : ℕ) (g : Logger) (channel remote : Text) (size curr : ℕ) (env : Env Call)
    (log : Log Call)
    → uploads_of log ≡ []
    → WaitReturns fuel curr (add_32 curr size) env (told g env log)
    → Returns
        (send_update fuel g channel size remote curr env log)
        (λ _. Answered g channel remote size curr)
unfolding send_update
send_update-Returns fuel g channel remote size curr env log none_yet waited =
    Returns-bind (λ _ l. uploads_of l ≡ uploads_of log) (λ _. Answered g channel remote size curr)
      (wait_for fuel curr (add_32 curr size))
      (λ broke.
        finish_update g channel remote (env log file_breaks) curr (update_size curr size broke))
      env _ waited
      (λ broke l e.
        finish_update-Returns g channel remote (env log file_breaks) curr size broke env l
          (e ∙ none_yet))
