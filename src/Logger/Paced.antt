-- ===== src/Logger/Paced.antt =====
-- MQTT_Callback while WriterThread records at its pace: a wait for data comes to an end, also over a
-- file break.
use mzntapp_cpp.Base.{
  ℕ, zero, suc, ◌+◌, ◌-◌, ◌*◌, ◌≤◌, ◌<◌, ◌≡◌, refl, Bool, true, ltb, ltb→lt, arith, List, [], ◌∷◌,
  All, length, Bool-cases, inl, inr, ◌⊎◌, ◌∙◌, ◌++◌, subst, sym, Text, codes, text_eq,
}
use mzntapp_cpp.Io.{Env, Log, Returns, pure}
use mzntapp_cpp.Hardware.Writer.{Config, max_single_file_size}
use mzntapp_cpp.Hardware.Writer.Paces.{
  file_blocks, blocks_after, blocks_after-le, blocks_after-near, IsOn, offset-run,
}
use mzntapp_cpp.Logger.{Call, Logger, file_offset, file_breaks, tokens, stoi}
use mzntapp_cpp.Logger.Events.{EventAnswered, IsCounting, event-Answered}
use mzntapp_cpp.Logger.Plan.{add_32}
use mzntapp_cpp.Logger.Callback.{wait_for, remote_directory, mqtt_callback}
use mzntapp_cpp.Logger.Answers.{uploads_of, WaitReturns}
use mzntapp_cpp.Logger.Recorded.{IsRecorded}

-- The writer has done these rounds when a call is made: writing is on, at most one block is written
-- between two calls, and at least one in each `m` calls.
pub record IsPaced (m : ℕ) (c : Config) (rounds : Log Call → List (Bool × ℕ)) (env : Env Call)
    : Type 0 where
  pub recorded : IsRecorded c rounds env
  pub on : (log : Log Call) → All IsOn (rounds log)
  pub grows : (x : Call × ℕ) (log : Log Call) → length (rounds log) ≤ length (rounds (x ∷ log))
  pub slow : (x : Call × ℕ) (log : Log Call) → length (rounds (x ∷ log)) ≤ length (rounds log) + 1
  pub lively :
      (k : ℕ) (log : Log Call) → m * k ≤ length log → length (rounds []) + k ≤ length (rounds log)

module _ (m : ℕ) (c : Config) (rounds : Log Call → List (Bool × ℕ)) (env : Env Call)
    (paced : IsPaced m c rounds env) where
  position : (log : Log Call) → env log file_offset ≡ 65536 * blocks_after (length (rounds log))
  position log = paced.recorded log ∙ offset-run c (rounds log) (paced.on log)

  -- Three calls later.
  pub three_later :
      (x y z : Call × ℕ)
      → (length (rounds []) ≤ length (rounds (x ∷ y ∷ z ∷ [])))
        × (length (rounds (x ∷ y ∷ z ∷ [])) ≤ length (rounds []) + 3)
  three_later x y z = (
    omega (arith, paced.grows z [], paced.grows y (z ∷ []), paced.grows x (y ∷ z ∷ [])),
    omega (arith, paced.slow z [], paced.slow y (z ∷ []), paced.slow x (y ∷ z ∷ [])),
  )

  module _ (n size : ℕ) (short : size + 10 * 65536 ≤ max_single_file_size) where
    -- Not past the end of the file, or shortly behind it where the wait started well inside.
    abbrev InReach : ℕ → Type 0
    InReach k =
        (n ≤ k)
        × ((blocks_after n + (k - n) ≤ file_blocks)
            ⊎ ((blocks_after n + (k - n) ≤ file_blocks + 4) × (8 ≤ blocks_after n)))

    -- Two readings later, where the wait has gone on.
    next-InReach :
        (k k1 k2 : ℕ)
        → InReach k
        → k ≤ k1
        → k1 ≤ k + 1
        → k1 ≤ k2
        → k2 ≤ k1 + 1
        → 65536 * blocks_after k < 65536 * blocks_after n + size
        → 65536 * blocks_after n ≤ 65536 * blocks_after k1
        → InReach k2
    next-InReach k k1 k2 reach lo hi lo2 hi2 short_of behind =
        let ek = blocks_after-near n k (omega (arith, reach)) (omega (arith, reach)) in
        let ek1 = blocks_after-near n k1 (omega (arith, reach)) (omega (arith, reach)) in
        ground (arith, ek, ek1, reach, short, short_of, behind)

    pub wait-paced :
        (fuel : ℕ) (log : Log Call)
        → InReach (length (rounds log))
        → length (rounds []) ≤ n
        → n ≤ length (rounds []) + 1
        → m * (file_blocks + 4) ≤ length log + 2 * fuel
        → Returns
            (wait_for (suc fuel) (65536 * blocks_after n) (65536 * blocks_after n + size) env log)
            (λ _ l. uploads_of l ≡ uploads_of log)
    unfolding wait_for
    wait-paced zero log reach low high enough =
        absurd (omega (arith, paced.lively (file_blocks + 4) log (omega arith)))
    wait-paced (suc fuel) log reach low high enough =
        let a = env log file_offset in
        let l1 : Log Call = (file_offset, a) ∷ log in
        let b = env l1 file_offset in
        let l2 : Log Call = (file_offset, b) ∷ l1 in
        elim (Bool-cases (ltb a (65536 * blocks_after n + size))) [
          | inl e ↦ rw e (elim (Bool-cases (ltb b (65536 * blocks_after n))) [
            | inl e' ↦ rw e' refl
            | inr e' ↦ rw e' (
                wait-paced fuel l2
                  (next-InReach (length (rounds log)) (length (rounds l1)) (length (rounds l2))
                    reach (paced.grows _ log) (paced.slow _ log) (paced.grows _ l1)
                    (paced.slow _ l1) (omega (arith, position log, ltb→lt _ _ e))
                    (ground (arith, position l1, e')))
                  low high (omega (arith, enough)))
          ])
          | inr e ↦ rw e refl
        ]

    -- From a log that is at most three calls longer.
    pub WaitReturns-paced :
        (fuel : ℕ) (log : Log Call)
        → n ≤ length (rounds log)
        → length (rounds log) ≤ n + 3
        → length (rounds []) ≤ n
        → n ≤ length (rounds []) + 1
        → m * (file_blocks + 4) ≤ length log + 2 * fuel
        → WaitReturns
            (suc fuel)
            (65536 * blocks_after n)
            (add_32 (65536 * blocks_after n) size)
            env
            log
    WaitReturns-paced fuel log late soon low high enough =
        let e : add_32 (65536 * blocks_after n) size ≡ 65536 * blocks_after n + size =
          omega (arith, blocks_after-le n, short) in
        rw e (wait-paced fuel log (ground (arith, blocks_after-le n, late, soon)) low high enough)

-- A request for `size` bytes of a channel, and where they are to go.
pub data Request (g : Logger) (payload : Text) : Text → Text → ℕ → Type 0 where
  update :
      {channel number : Text} {rest : List Text}
      → tokens payload ≡ codes "update" ∷ channel ∷ number ∷ rest
      → Request g payload channel
          (remote_directory g ++ codes "update" ++ number)
          g.num_update_bytes
  eph :
      {channel node : Text} {rest : List Text}
      → tokens payload ≡ codes "eph" ∷ channel ∷ node ∷ rest
      → text_eq node g.node_name ≡ true
      → Request g payload channel (remote_directory g ++ codes "eph") g.eph_size

-- Under the same pace, and where file breaks are counted up, a request for the data around an event
-- with two readable numbers is answered: the callback returns, and has asked for the uploads of the
-- plan for the position at the request, and of the AGC file.
pub mqtt_callback-EventPaced :
    (fuel m : ℕ) (g : Logger) (c : Config) (rounds : Log Call → List (Bool × ℕ))
    (payload channel event : Text) (rest : List Text) (a b : ℕ) (env : Env Call)
    → tokens payload ≡ codes "event" ∷ codes "start" ∷ channel ∷ event ∷ rest
    → stoi channel ≡ pure a
    → stoi event ≡ pure b
    → IsCounting env
    → IsPaced m c rounds env
    → g.num_post_bytes + 10 * 65536 ≤ max_single_file_size
    → m * (file_blocks + 4) ≤ 2 * fuel
    → let n = env [] file_breaks in
      Returns
        (mqtt_callback (suc fuel) g payload env [])
        (λ _. EventAnswered g channel event n (env ((file_breaks, n) ∷ []) file_offset) env)
mqtt_callback-EventPaced fuel m g c rounds payload channel event rest a b env h num1 num2 counting
      paced short enough =
    let n = env [] file_breaks in
    let l1 : Log Call = (file_breaks, n) ∷ [] in
    let l2 : Log Call = (file_offset, env l1 file_offset) ∷ l1 in
    event-Answered (suc fuel) g payload channel event rest a b env h num1 num2 counting (
      subst (λ k. WaitReturns (suc fuel) k (add_32 k g.num_post_bytes) env l2)
        (sym (position m c rounds env paced l1))
        (WaitReturns-paced m c rounds env paced (length (rounds l1)) g.num_post_bytes short fuel l2
          (paced.grows _ l1) (omega (arith, paced.slow (file_offset, env l1 file_offset) l1))
          (paced.grows _ []) (paced.slow _ []) (omega (arith, enough))))
