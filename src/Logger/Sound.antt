-- ===== src/Logger/Sound.antt =====
-- Parts of MQTT_Callback that never end in undefined behaviour: the waits and the uploads behind them,
-- in src/LoggerController.cpp.
use mzntapp_cpp.Base.{
  ℕ, zero, suc, ◌≡◌, refl, ◌∙◌, Bool, true, false, ltb, List, [], ◌∷◌, Text, Bool-cases, inl, inr,
}
use mzntapp_cpp.Io.{Io, Env, Log, Outcome, done, exited, hung, faulted, Returns, ◌>>=◌}
use mzntapp_cpp.Logger.{Call, file_offset, file_breaks, Logger}
use mzntapp_cpp.Logger.Plan.{add_32}
use mzntapp_cpp.Logger.Callback.{
  wait_for, finish_event, start_event, send_update, finish_update, update_size,
}
use mzntapp_cpp.Logger.Answers.{uploads_of, finish_update-Returns}
use mzntapp_cpp.Logger.Events.{IsCounting, finish_event-Returns}

-- Whether a run ends in undefined behaviour or in an exception that nothing catches.
abbrev pub is_faulted : {A : Type 0} → Outcome Call A → Bool
is_faulted (done a l) = false
is_faulted (exited l) = false
is_faulted (hung l) = false
is_faulted (faulted l) = true

-- It may wait for ever, but not fault, and has asked for the uploads `us` where it returns.
abbrev Safe : {A : Type 0} → List Call → Outcome Call A → Type 0
Safe us (done a l) = uploads_of l ≡ us
Safe us (exited l) = Unit
Safe us (hung l) = Unit
Safe us (faulted l) = ⊥

-- It does not fault.
abbrev pub Sound : {A : Type 0} → Outcome Call A → Type 0
Sound o = is_faulted o ≡ false

pub Returns-Sound :
    {A : Type 0} (Q : A → Log Call → Type 0) (o : Outcome Call A) → Returns o Q → Sound o
Returns-Sound Q (done a l) h = refl
Returns-Sound Q (exited l) h = absurd h
Returns-Sound Q (hung l) h = absurd h
Returns-Sound Q (faulted l) h = absurd h

pub bind-Sound :
    {A B : Type 0} (us : List Call) (m : Io Call A) (f : A → Io Call B) (env : Env Call)
    (log : Log Call)
    → Safe us (m env log)
    → ((a : A) (l : Log Call) → uploads_of l ≡ us → Sound (f a env l))
    → Sound ((m >>= f) env log)
bind-Sound {A} {B} us m f env log h hf = go (m env log) h
  where
    go :
        (o : Outcome Call A)
        → Safe us o
        → Sound (◌>>=◌ {C = Call} {A = A} {B = B} (λ _ _. o) f env log)
    go (done a l) h = hf a l h
    go (exited l) h = refl
    go (hung l) h = refl
    go (faulted l) h = absurd h

pub then-Sound :
    {A B : Type 0} (m : Io Call A) (f : A → Io Call B) (env : Env Call) (log : Log Call)
    → Sound (m env log)
    → ((a : A) (l : Log Call) → Sound (f a env l))
    → Sound ((m >>= f) env log)
then-Sound {A} {B} m f env log h hf = go (m env log) h
  where
    go :
        (o : Outcome Call A)
        → Sound o
        → Sound (◌>>=◌ {C = Call} {A = A} {B = B} (λ _ _. o) f env log)
    go (done a l) h = hf a l
    go (exited l) h = refl
    go (hung l) h = refl
    go (faulted l) h = cc h

wait_for-Safe :
    (fuel start target : ℕ) (env : Env Call) (log : Log Call)
    → Safe (uploads_of log) (wait_for fuel start target env log)
unfolding wait_for
wait_for-Safe zero start target env log = tt
wait_for-Safe (suc fuel) start target env log =
    let l : Log Call = (file_offset, env log file_offset) ∷ log in
    elim (Bool-cases (ltb (env log file_offset) target)) [
      | inl e ↦ rw e (elim (Bool-cases (ltb (env l file_offset) start)) [
        | inl e' ↦ rw e' refl
        | inr e' ↦
            rw e' (wait_for-Safe fuel start target env ((file_offset, env l file_offset) ∷ l))
      ])
      | inr e ↦ rw e refl
    ]

module _ (fuel : ℕ) (g : Logger) (env : Env Call) where
  pub start_event-Sound :
      (channel event : Text) (log : Log Call)
      → IsCounting env
      → uploads_of log ≡ []
      → Sound (start_event fuel g channel event env log)
  unfolding start_event
  start_event-Sound channel event log counting none_yet =
      let n = env log file_breaks in
      let l1 : Log Call = (file_breaks, n) ∷ log in
      let curr = env l1 file_offset in
      let l2 : Log Call = (file_offset, curr) ∷ l1 in
      bind-Sound (uploads_of log) (wait_for fuel curr (add_32 curr g.num_post_bytes))
        (λ _. finish_event g channel event n curr) env l2
        (wait_for-Safe fuel curr (add_32 curr g.num_post_bytes) env l2)
        (λ _ l e.
          Returns-Sound _ (finish_event g channel event n curr env l)
            (finish_event-Returns g channel event n curr env l counting (e ∙ none_yet)))

  pub send_update-Sound :
      (channel : Text) (size : ℕ) (remote : Text) (curr : ℕ) (log : Log Call)
      → uploads_of log ≡ []
      → Sound (send_update fuel g channel size remote curr env log)
  unfolding send_update
  send_update-Sound channel size remote curr log none_yet =
      bind-Sound (uploads_of log) (wait_for fuel curr (add_32 curr size))
        (λ broke.
          finish_update g channel remote (env log file_breaks) curr (update_size curr size broke))
        env _ (wait_for-Safe fuel curr (add_32 curr size) env _)
        (λ broke l e.
          Returns-Sound _
            (finish_update g channel remote (env log file_breaks) curr (update_size curr size broke)
              env l)
            (finish_update-Returns g channel remote (env log file_breaks) curr size broke env l
              (e ∙ none_yet)))
