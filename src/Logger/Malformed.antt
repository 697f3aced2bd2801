-- ===== src/Logger/Malformed.antt =====
-- MQTT_Callback on a payload that it cannot read: just these end in undefined behaviour or in an
-- exception that nothing catches.
use mzntapp_cpp.Base.{
  ℕ, ◌≡◌, refl, ◌∙◌, sym, subst, Bool, true, false, not, ◌&&◌, if◌then◌else◌, List, [], ◌∷◌, ◌++◌,
  Option, none, some, Text, codes, text_eq, text_eq→eq, Bool-cases, inl, inr,
}
use mzntapp_cpp.Io.{Io, Env, Log, done, pure, ask, ◌>>=◌}
use mzntapp_cpp.Hardware.Conf.{skip_spaces}
use mzntapp_cpp.Logger.{Call, file_offset, Logger, tokens, token, stoi, signed_value, or_fault}
use mzntapp_cpp.Logger.Callback.{
  remote_directory, start_event, event_part, send_update, update_part, commands, mqtt_callback,
}
use mzntapp_cpp.Logger.Answers.{uploads_of}
use mzntapp_cpp.Logger.Requests.{commands-Quiet, Quiet}
use mzntapp_cpp.Logger.Events.{IsCounting}
use mzntapp_cpp.Logger.Sound.{
  is_faulted, Sound, Returns-Sound, then-Sound, start_event-Sound, send_update-Sound,
}

-- A decimal number of the type `int`, behind any spaces; what follows it does not matter.
abbrev pub is_some : Option ℕ → Bool
is_some none = false
is_some (some n) = true

abbrev pub is_int : Text → Bool
is_int t = is_some (signed_value (skip_spaces t))

-- What is wrong behind `event-start`, behind `event`, and behind `update` or `eph`.
abbrev pub bad_start : List Text → Bool
bad_start [] = true
bad_start (channel ∷ []) = true
bad_start (channel ∷ event ∷ rest) = not (is_int channel && is_int event)

abbrev pub bad_event : List Text → Bool
bad_event [] = true
bad_event (what ∷ rest) = text_eq what (codes "start") && bad_start rest

abbrev pub few : List Text → Bool
few [] = true
few (channel ∷ []) = true
few (channel ∷ other ∷ rest) = false

abbrev pub malformed : List Text → Bool
malformed [] = true
malformed (kind ∷ args) =
    if text_eq kind (codes "event")
    then bad_event args
    else if text_eq kind (codes "update")
    then few args
    else if text_eq kind (codes "eph")
    then few args
    else false

module _ (fuel : ℕ) (g : Logger) (payload : Text) (env : Env Call) where
  -- What comes of the tokens.
  after_event : List Text → Io Call (Unit {0})
  after_event ts = update_part fuel g ts >>= λ on. if on then commands payload else pure tt

  Fate : List Text → Type 0
  unfolding after_event
  Fate ts = is_faulted ((event_part fuel g ts >>= λ _. after_event ts) env []) ≡ malformed ts

  commands-Sound : (log : Log Call) → Sound (commands payload env log)
  unfolding Quiet
  commands-Sound log =
      Returns-Sound _ (commands payload env log)
        (commands-Quiet payload env (uploads_of log) log refl)

  on-Sound :
      (on : Bool) (log : Log Call) → Sound ((if on then commands payload else pure tt) env log)
  on-Sound true log = commands-Sound log
  on-Sound false log = refl

  sent-Sound :
      (channel : Text) (size : ℕ) (remote : Text) (curr : ℕ) (log : Log Call)
      → uploads_of log ≡ []
      → Sound (
          ((send_update fuel g channel size remote curr >>= λ _. pure true) >>= λ on.
          if on then commands payload else pure tt)
            env log)
  sent-Sound channel size remote curr log none_yet =
      then-Sound (send_update fuel g channel size remote curr >>= λ _. pure true)
        (λ on. if on then commands payload else pure tt) env log
        (then-Sound (send_update fuel g channel size remote curr) (λ _. pure true) env log
          (send_update-Sound fuel g env channel size remote curr log none_yet) (λ _ l. refl))
        on-Sound

  update-Fate : (args : List Text) → Fate (codes "update" ∷ args)
  unfolding Fate after_event event_part update_part token text_eq
  update-Fate [] = refl
  update-Fate (a ∷ []) = refl
  update-Fate (channel ∷ number ∷ rest) =
      sent-Sound channel g.num_update_bytes (remote_directory g ++ codes "update" ++ number) _ _
        refl

  mine-Sound :
      (mine : Bool) (k : Io Call Bool)
      → Sound ((k >>= λ on. if on then commands payload else pure tt) env [])
      → Sound (
          ((if not mine then pure false else k) >>= λ on. if on then commands payload else pure tt)
            env [])
  mine-Sound true k h = h
  mine-Sound false k h = refl

  eph-Fate : (args : List Text) → Fate (codes "eph" ∷ args)
  unfolding Fate after_event event_part update_part token text_eq
  eph-Fate [] = refl
  eph-Fate (a ∷ []) = refl
  eph-Fate (channel ∷ node ∷ rest) =
      mine-Sound (text_eq node g.node_name)
        (ask file_offset >>= λ curr.
          send_update fuel g channel g.eph_size (remote_directory g ++ codes "eph") curr >>= λ _.
          pure true)
        (sent-Sound channel g.eph_size (remote_directory g ++ codes "eph") _ _ refl)

  -- An event that starts nothing, and what follows the uploads of one that does.
  rest-Sound :
      (args : List Text) (log : Log Call) → Sound (after_event (codes "event" ∷ args) env log)
  unfolding after_event update_part token text_eq
  rest-Sound args log = commands-Sound log

  -- The two numbers of a start, and the data around the event.
  numbers-Fate :
      (args : List Text) (channel event : Text) (x y : Option ℕ)
      → IsCounting env
      → is_faulted (
          ((or_fault x >>= λ _. or_fault y >>= λ _. start_event fuel g channel event) >>= λ _.
          after_event (codes "event" ∷ args))
            env [])
        ≡ not (is_some x && is_some y)
  numbers-Fate args channel event none y counting = refl
  numbers-Fate args channel event (some n) none counting = refl
  numbers-Fate args channel event (some n) (some k) counting =
      then-Sound (start_event fuel g channel event) (λ _. after_event (codes "event" ∷ args)) env []
        (start_event-Sound fuel g env channel event [] counting refl) (λ _ l. rest-Sound args l)

  -- What `event-start` does with the tokens behind it.
  start_part : List Text → Io Call (Unit {0})
  start_part ts = do
    channel ← token ts 2
    _ ← stoi channel
    event ← token ts 3
    _ ← stoi event
    start_event fuel g channel event

  start-Fate :
      (what : Text) (args : List Text)
      → IsCounting env
      → is_faulted (
          (start_part (codes "event" ∷ what ∷ args) >>= λ _.
          after_event (codes "event" ∷ what ∷ args))
            env [])
        ≡ bad_start args
  unfolding start_part token stoi
  start-Fate what [] counting = refl
  start-Fate what (channel ∷ []) counting =
      no_event (signed_value (skip_spaces channel))
        (λ event. do _ ← stoi event; start_event fuel g channel event)
    where
      no_event :
          (x : Option ℕ) (k : Text → Io Call (Unit {0}))
          → is_faulted (
              ((or_fault x >>= λ _. token (codes "event" ∷ what ∷ channel ∷ []) 3 >>= k) >>= λ _.
              after_event (codes "event" ∷ what ∷ channel ∷ []))
                env [])
            ≡ true
      no_event none k = refl
      no_event (some n) k = refl
  start-Fate what (channel ∷ event ∷ rest) counting =
      numbers-Fate (what ∷ channel ∷ event ∷ rest) channel event
        (signed_value (skip_spaces channel)) (signed_value (skip_spaces event)) counting

  starts-Fate :
      (starts bad : Bool) (args : List Text) (k : Io Call (Unit {0}))
      → is_faulted ((k >>= λ _. after_event (codes "event" ∷ args)) env []) ≡ bad
      → is_faulted
          (((if starts then k else pure tt) >>= λ _. after_event (codes "event" ∷ args)) env [])
        ≡ starts && bad
  starts-Fate true bad args k h = h
  starts-Fate false bad args k h = rest-Sound args []

  event-Fate : IsCounting env → (args : List Text) → Fate (codes "event" ∷ args)
  unfolding Fate event_part token text_eq start_part
  event-Fate counting [] = refl
  event-Fate counting (what ∷ args) =
      starts-Fate (text_eq what (codes "start")) (bad_start args) (what ∷ args)
        (start_part (codes "event" ∷ what ∷ args)) (start-Fate what args counting)

  done-Fate :
      {A B : Type 0} (a : A) (l : Log Call) (m : Io Call A) (f : A → Io Call B) (log : Log Call)
      → m env log ≡ done a l
      → is_faulted ((m >>= f) env log) ≡ is_faulted (f a env l)
  done-Fate a l m f log e = rw (e, is_faulted) refl

  other_event :
      (kind : Text) (args : List Text) (log : Log Call)
      → text_eq kind (codes "event") ≡ false
      → event_part fuel g (kind ∷ args) env log ≡ done tt log
  unfolding event_part token
  other_event kind args log e = rw e refl

  other_update :
      (kind : Text) (args : List Text) (log : Log Call)
      → text_eq kind (codes "update") ≡ false
      → text_eq kind (codes "eph") ≡ false
      → update_part fuel g (kind ∷ args) env log ≡ done true log
  unfolding update_part token
  other_update kind args log u p = rw (u, p) refl

  other-Fate :
      (kind : Text) (args : List Text)
      → text_eq kind (codes "event") ≡ false
      → text_eq kind (codes "update") ≡ false
      → text_eq kind (codes "eph") ≡ false
      → Fate (kind ∷ args)
  unfolding Fate after_event
  other-Fate kind args e u p =
      rw (e, u, p)
        (done-Fate tt [] (event_part fuel g (kind ∷ args)) (λ _. after_event (kind ∷ args)) []
            (other_event kind args [] e)
          ∙ done-Fate true [] (update_part fuel g (kind ∷ args))
              (λ on. if on then commands payload else pure tt) [] (other_update kind args [] u p)
          ∙ commands-Sound [])

  tokens-Fate : IsCounting env → (ts : List Text) → Fate ts
  unfolding Fate event_part token
  tokens-Fate counting [] = refl
  tokens-Fate counting (kind ∷ args) = elim (Bool-cases (text_eq kind (codes "event"))) [
    | inl e ↦
        subst (λ k. Fate (k ∷ args)) (sym (text_eq→eq kind (codes "event") e))
          (event-Fate counting args)
    | inr e ↦ elim (Bool-cases (text_eq kind (codes "update"))) [
      | inl u ↦
          subst (λ k. Fate (k ∷ args)) (sym (text_eq→eq kind (codes "update") u)) (update-Fate args)
      | inr u ↦ elim (Bool-cases (text_eq kind (codes "eph"))) [
        | inl p ↦
            subst (λ k. Fate (k ∷ args)) (sym (text_eq→eq kind (codes "eph") p)) (eph-Fate args)
        | inr p ↦ other-Fate kind args e u p
      ]
    ]
  ]

-- Where file breaks are counted up, the callback ends in undefined behaviour or in an exception that
-- nothing catches just on the malformed payloads, those whose tokens are too few for their kind or
-- hold no numbers where an event needs them; on all others it never does, however long it waits.
pub mqtt_callback-faults :
    (fuel : ℕ) (g : Logger) (payload : Text) (env : Env Call)
    → IsCounting env
    → is_faulted (mqtt_callback fuel g payload env []) ≡ malformed (tokens payload)
unfolding mqtt_callback Fate after_event
mqtt_callback-faults fuel g payload env counting =
    tokens-Fate fuel g payload env counting (tokens payload)
