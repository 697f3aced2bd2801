-- ===== src/Logger/Events.antt =====
-- MQTT_Callback on a request for the data around an event: the wait comes to an end, and the parts of
-- the plan are uploaded.
use mzntapp_cpp.Base.{
  ℕ, suc, ◌-◌, ◌≤◌, ◌≡◌, refl, Bool, true, false, leb, ◌==◌, if◌then◌else◌, arith, List, [], ◌∷◌,
  ◌++◌, Option, some, Text, codes, text_eq, subst, Bool-cases, inl, inr, ◌∙◌, ap₂,
}
use mzntapp_cpp.Io.{Io, Env, Log, Returns, Returns-bind, Returns-mono, pure, ◌>>=◌}
use mzntapp_cpp.Logger.{Call, file_offset, file_breaks, uploads, Logger, tokens, token, stoi}
use mzntapp_cpp.Hardware.Writer.{max_single_file_size, last_if_filename}
use mzntapp_cpp.Hardware.Writer.Names.{name_after, names_before, last_if_filename-names}
use mzntapp_cpp.Logger.Plan.{Plan, event_plan, add_32}
use mzntapp_cpp.Logger.Callback.{
  wait_for, remote_directory, upload_event, second_name, finish_event, start_event, event_part,
  update_part, commands, mqtt_callback,
}
use mzntapp_cpp.Logger.Answers.{uploads_of, Reaches, WaitReturns, wait_for-Returns}
use mzntapp_cpp.Logger.Requests.{commands-Quiet, Quiet}

-- The uploads of a plan, the newest first: the part of the current file, that of an earlier file where
-- there are two, and the AGC file.
abbrev pub event_uploads : Logger → Plan → Text → Text → Text → Text → ℕ → List Call
event_uploads g p channel remote name1 name2 bytes =
    uploads (remote ++ codes ".AGC") g.agc_filename g.http_port 0 bytes false
    ∷ (if p.two
        then uploads (remote ++ codes ".IF.CH_" ++ channel ++ codes ".0")
            (name2 ++ codes ".CH_" ++ channel) g.http_port p.offset2 p.size2 true
          ∷ uploads (remote ++ codes ".IF.CH_" ++ channel) (name1 ++ codes ".CH_" ++ channel)
              g.http_port p.offset1 p.size1 true
          ∷ []
        else uploads (remote ++ codes ".IF.CH_" ++ channel) (name1 ++ codes ".CH_" ++ channel)
            g.http_port p.offset1 p.size1 true
          ∷ [])

-- File breaks are counted up.
abbrev pub IsCounting : Env Call → Type 0
IsCounting env = (x : Call × ℕ) (log : Log Call) → env log file_breaks ≤ env (x ∷ log) file_breaks

abbrev remote_of : Logger → Text → Text
remote_of g event = remote_directory g ++ codes "event" ++ event

upload_event-Returns :
    (g : Logger) (p : Plan) (channel event name1 name2 : Text) (env : Env Call) (log : Log Call)
    → uploads_of log ≡ []
    → Returns (upload_event g p channel event name1 name2 env log) (λ _ l.
      (bytes : ℕ) × (uploads_of l
        ≡ event_uploads g p channel (remote_of g event) name1 name2 bytes))
unfolding upload_event
upload_event-Returns g p channel event name1 name2 env log none_yet = elim (Bool-cases p.two) [
  | inl e ↦ simp (e, none_yet) (_, refl)
  | inr e ↦ simp (e, none_yet) (_, refl)
]

module _ (g : Logger) (channel event : Text) (n curr : ℕ) (env : Env Call) where
  -- `before` is the log when the number of finished files was looked up, if it was.
  unfoldable pub plan : Log Call → Plan
  plan before =
      event_plan g.num_pre_bytes g.num_post_bytes max_single_file_size curr
        (if leb g.num_pre_bytes curr then 0 else env before file_breaks)

  -- The uploads are those of the plan and the AGC file, and no others.
  unfoldable pub EventAnswered : Log Call → Type 0
  EventAnswered l =
      (before : Log Call) × (name2 : Text) × (bytes : ℕ) × (uploads_of l
        ≡ event_uploads g (plan before) channel (remote_of g event) (name_after g.if_filename n)
            name2 bytes)

  plan-two :
      (before : Log Call)
      → (plan before).two ≡ true
      → (leb g.num_pre_bytes curr ≡ false) × (2 ≤ env before file_breaks)
  unfolding plan event_plan
  plan-two before h = ground (arith, h)

  second_name-Returns :
      (two : Bool) (log : Log Call)
      → (two ≡ true → 2 ≤ env log file_breaks)
      → Returns (second_name g two env log) (λ _ l. uploads_of l ≡ uploads_of log)
  second_name-Returns false log h = refl
  second_name-Returns true log h =
      let k = env log file_breaks in
      let found : last_if_filename (name_after g.if_filename k) (names_before g.if_filename k)
          ≡ some (name_after g.if_filename (k - 2)) =
        last_if_filename-names g.if_filename k ∙ later k (h refl) in
      rw found refl
    where
      later :
          (k : ℕ)
          → 2 ≤ k
          → (if k == 0
              then some g.if_filename
              else if k == 1
              then Option.none
              else some (name_after g.if_filename (k - 2)))
            ≡ some (name_after g.if_filename (k - 2))
      later k h = ground arith

  named_upload :
      (before : Log Call) (log : Log Call)
      → ((plan before).two ≡ true → 2 ≤ env log file_breaks)
      → uploads_of log ≡ []
      → Returns
          ((second_name g (plan before).two >>= λ name2.
              upload_event g (plan before) channel event (name_after g.if_filename n) name2)
            env log)
          (λ _. EventAnswered)
  unfolding EventAnswered
  named_upload before log h none_yet =
      Returns-bind (λ _ l. uploads_of l ≡ uploads_of log) (λ _. EventAnswered)
        (second_name g (plan before).two)
        (λ name2. upload_event g (plan before) channel event (name_after g.if_filename n) name2) env
        log (second_name-Returns (plan before).two log h)
        (λ name2 l same.
          Returns-mono _ (λ _. EventAnswered)
            (upload_event g (plan before) channel event (name_after g.if_filename n) name2 env l)
            (λ _ l' (bytes, sent). (before, name2, bytes, sent))
            (upload_event-Returns g (plan before) channel event (name_after g.if_filename n) name2
              env l (same ∙ none_yet)))

  -- The plan for a history of that many finished files.
  planned : ℕ → Plan
  planned history = event_plan g.num_pre_bytes g.num_post_bytes max_single_file_size curr history

  rest_of : ℕ → Io Call (Unit {0})
  unfolding planned
  rest_of history = second_name g (planned history).two >>= λ name2.
      upload_event g (planned history) channel event (name_after g.if_filename n) name2

  rest_of-Returns :
      (before log : Log Call) (history : ℕ)
      → (if leb g.num_pre_bytes curr then 0 else env before file_breaks) ≡ history
      → ((plan before).two ≡ true → 2 ≤ env log file_breaks)
      → uploads_of log ≡ []
      → Returns (rest_of history env log) (λ _. EventAnswered)
  unfolding plan planned rest_of
  rest_of-Returns before log history e h none_yet =
      subst (λ k. Returns (rest_of k env log) (λ _. EventAnswered)) e
        (named_upload before log h none_yet)

  pub finish_event-Returns :
      (log : Log Call)
      → IsCounting env
      → uploads_of log ≡ []
      → Returns (finish_event g channel event n curr env log) (λ _. EventAnswered)
  unfolding finish_event rest_of planned
  finish_event-Returns log counting none_yet = elim (Bool-cases (leb g.num_pre_bytes curr)) [
    | inl e ↦ simp e (
        rest_of-Returns log log 0 (rw e refl) (λ two. absurd (cc (e, (plan-two log two).0)))
          none_yet)
    | inr e ↦ simp e (
        rest_of-Returns log ((file_breaks, env log file_breaks) ∷ log) (env log file_breaks)
          (rw e refl)
          (λ two.
            omega (arith, (plan-two log two).1, counting (file_breaks, env log file_breaks) log))
          none_yet)
  ]

  start_event-Returns :
      (fuel : ℕ) (log : Log Call)
      → n ≡ env log file_breaks
      → curr ≡ env ((file_breaks, n) ∷ log) file_offset
      → IsCounting env
      → WaitReturns fuel curr
          (add_32 curr g.num_post_bytes)
          env
          ((file_offset, curr) ∷ (file_breaks, n) ∷ log)
      → uploads_of log ≡ []
      → Returns (start_event fuel g channel event env log) (λ _. EventAnswered)
  unfolding start_event
  start_event-Returns fuel log e_n e_curr counting waited none_yet =
      rw (← e_n, ← e_curr)
        (Returns-bind (λ _ l. uploads_of l ≡ uploads_of log) (λ _. EventAnswered)
          (wait_for fuel curr (add_32 curr g.num_post_bytes))
          (λ _. finish_event g channel event n curr) env
          ((file_offset, curr) ∷ (file_breaks, n) ∷ log) waited
          (λ _ l same. finish_event-Returns l counting (same ∙ none_yet)))

started :
    (fuel : ℕ) (g : Logger) (channel event : Text) (rest : List Text) (c e : ℕ)
    → stoi channel ≡ pure c
    → stoi event ≡ pure e
    → event_part fuel g (codes "event" ∷ codes "start" ∷ channel ∷ event ∷ rest)
      ≡ start_event fuel g channel event
unfolding event_part token text_eq
started fuel g channel event rest c e num1 num2 =
    ap₂ (λ a b. a >>= λ _. b >>= λ _. start_event fuel g channel event) num1 num2

-- A request whose wait comes to an end is answered.
pub event-Answered :
    (fuel : ℕ) (g : Logger) (payload channel event : Text) (rest : List Text) (c e : ℕ)
    (env : Env Call)
    → tokens payload ≡ codes "event" ∷ codes "start" ∷ channel ∷ event ∷ rest
    → stoi channel ≡ pure c
    → stoi event ≡ pure e
    → IsCounting env
    → let n = env [] file_breaks in
      let curr = env ((file_breaks, n) ∷ []) file_offset in
      WaitReturns fuel curr
        (add_32 curr g.num_post_bytes)
        env
        ((file_offset, curr) ∷ (file_breaks, n) ∷ [])
      → Returns
          (mqtt_callback fuel g payload env [])
          (λ _. EventAnswered g channel event n curr env)
unfolding mqtt_callback token text_eq update_part EventAnswered Quiet
event-Answered fuel g payload channel event rest c e env h num1 num2 counting waited =
    let n = env [] file_breaks in
    let curr = env ((file_breaks, n) ∷ []) file_offset in
    rw (h, started fuel g channel event rest c e num1 num2)
      (Returns-bind (λ _. EventAnswered g channel event n curr env)
        (λ _. EventAnswered g channel event n curr env) (start_event fuel g channel event)
        (λ _. commands payload) env []
        (start_event-Returns g channel event n curr env fuel [] refl refl counting waited refl)
        (λ _ l (before, name2, bytes, sent).
          Returns-mono (λ _ l'. uploads_of l' ≡ _) _ (commands payload env l)
            (λ _ l' same. (before, name2, bytes, same)) (commands-Quiet payload env _ l sent)))

-- Once the position has reached the target of an event within some calls, the callback that is given a
-- request with two readable numbers returns with more rounds of fuel than these, if file breaks are
-- counted up. It has asked for the uploads of the plan for the position at the request, and of the AGC
-- file, and for no others.
pub mqtt_callback-EventAnswered :
    (fuel m : ℕ) (g : Logger) (payload channel event : Text) (rest : List Text) (c e : ℕ)
    (env : Env Call)
    → tokens payload ≡ codes "event" ∷ codes "start" ∷ channel ∷ event ∷ rest
    → stoi channel ≡ pure c
    → stoi event ≡ pure e
    → IsCounting env
    → let n = env [] file_breaks in
      let curr = env ((file_breaks, n) ∷ []) file_offset in
      Reaches m (add_32 curr g.num_post_bytes) env
      → m ≤ fuel
      → Returns
          (mqtt_callback (suc fuel) g payload env [])
          (λ _. EventAnswered g channel event n curr env)
mqtt_callback-EventAnswered fuel m g payload channel event rest c e env h num1 num2 counting far
      enough =
    let n = env [] file_breaks in
    let curr = env ((file_breaks, n) ∷ []) file_offset in
    event-Answered (suc fuel) g payload channel event rest c e env h num1 num2 counting (
      wait_for-Returns fuel curr (add_32 curr g.num_post_bytes) m env _ far (omega (arith, enough)))
