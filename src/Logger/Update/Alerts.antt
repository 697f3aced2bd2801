-- ===== src/Logger/Update/Alerts.antt =====
-- LoggerController.cpp, Update over the main loop: what the leader is told about the levels.
use mzntapp_cpp.Base.{
  ℕ, ◌+◌, ◌≡◌, refl, ◌∙◌, ap, ap₂, ◌⊎◌, Bool, false, ltb, arith, if◌then◌else◌, List, [], ◌∷◌, ◌++◌,
  append-nil, Text, codes, text_eq, to_string, Bool-cases, inl, inr,
}
use mzntapp_cpp.Base.Int.{pos}
use mzntapp_cpp.Hardware.Spi.{AgcLogData}
use mzntapp_cpp.Logger.Update.{
  Publish, alert, alerts, Updater, Given, if_agcs, report_errors, sample, update, updates,
}

-- The messages to the leader.
abbrev pub to_leader : List Publish → List Publish
to_leader [] = []
to_leader (p ∷ ps) = if text_eq p.topic (codes "leader") then p ∷ to_leader ps else to_leader ps

abbrev tell_leader : Text → Publish
tell_leader message = record { topic = codes "leader"; message = message; qos = 0 }

-- What the leader is to be told where channel `i` goes from one level to another: a rise or a fall by
-- more than `n`.
abbrev pub jump : ℕ → ℕ → ℕ → ℕ → List Publish
jump n i last agc =
    if ltb (last + n) agc
    then tell_leader (codes "HIGH-" ++ to_string i) ∷ []
    else if ltb (agc + n) last
    then tell_leader (codes "LOW-" ++ to_string i) ∷ []
    else []

-- From one record of the channels from `i` on to the next.
abbrev pub jumps : ℕ → ℕ → List ℕ → List ℕ → List Publish
jumps n i [] agcs = []
jumps n i (last ∷ lasts) [] = []
jumps n i (last ∷ lasts) (agc ∷ agcs) = jump n i last agc ++ jumps n (i + 1) lasts agcs

-- Through the records of an AGC file, the oldest first.
abbrev pub jumps_through : ℕ → List ℕ → List (List AgcLogData) → List Publish
jumps_through n lasts [] = []
jumps_through n lasts (r ∷ rs) = jumps n 0 lasts (if_agcs r) ++ jumps_through n (if_agcs r) rs

-- Records behind those of a log, whose newest stands first.
abbrev pub logged : List (List AgcLogData) → List (List AgcLogData) → List (List AgcLogData)
logged log [] = log
logged log (r ∷ rs) = logged (r ∷ log) rs

to_leader-append : (ps qs : List Publish) → to_leader (ps ++ qs) ≡ to_leader ps ++ to_leader qs
to_leader-append [] qs = refl
to_leader-append (p ∷ ps) qs = elim (Bool-cases (text_eq p.topic (codes "leader"))) [
  | inl e ↦ rw e (ap (◌∷◌ p) (to_leader-append ps qs))
  | inr e ↦ rw e (to_leader-append ps qs)
]

-- No node's topic is the leader's.
not_leader : (node : Text) → text_eq (node ++ codes "-agc") (codes "leader") ≡ false
unfolding text_eq
not_leader [] = refl
not_leader (a ∷ []) = ground arith
not_leader (a ∷ b ∷ []) = ground arith
not_leader (a ∷ b ∷ c ∷ []) = ground arith
not_leader (a ∷ b ∷ c ∷ d ∷ []) = ground arith
not_leader (a ∷ b ∷ c ∷ d ∷ e ∷ []) = ground arith
not_leader (a ∷ b ∷ c ∷ d ∷ e ∷ f ∷ []) = ground arith
not_leader (a ∷ b ∷ c ∷ d ∷ e ∷ f ∷ g ∷ rest) = ground arith

alert-jump : (n i last agc : ℕ) → alert (pos n) i last agc ≡ jump n i last agc
alert-jump n i last agc = ground arith

to_leader-jump : (n i last agc : ℕ) → to_leader (jump n i last agc) ≡ jump n i last agc
unfolding text_eq
to_leader-jump n i last agc = ground arith

alerts-jumps :
    (n i : ℕ) (lasts agcs : List ℕ) → to_leader (alerts (pos n) i lasts agcs) ≡ jumps n i lasts agcs
unfolding alerts
alerts-jumps n i [] agcs = refl
alerts-jumps n i (last ∷ lasts) [] = refl
alerts-jumps n i (last ∷ lasts) (agc ∷ agcs) =
    to_leader-append (alert (pos n) i last agc) (alerts (pos n) (i + 1) lasts agcs)
    ∙ ap₂ (λ ps qs. ps ++ qs) (ap to_leader (alert-jump n i last agc) ∙ to_leader-jump n i last agc)
        (alerts-jumps n (i + 1) lasts agcs)

module _ (T : Type 0) (node_name : Text) (n : ℕ) where
  -- An error report is for others.
  report-leader :
      (e : Given) (u : Updater T) → to_leader (report_errors T node_name (pos n) e u).0 ≡ []
  unfolding text_eq
  report-leader e u = ground arith

  report-same :
      (e : Given) (u : Updater T)
      → let u' = (report_errors T node_name (pos n) e u).1 in
        (u'.agc_log ≡ u.agc_log) × (u'.agc_last ≡ u.agc_last)
  report-same e u = elim (Bool-cases (ltb u.num_last_errors e.errors1)) [
    | inl h ↦ rw h (refl, refl)
    | inr h ↦ rw h (refl, refl)
  ]

  sample-leader :
      (e : Given) (u : Updater T)
      → to_leader (sample T node_name (pos n) e u).0 ≡ jumps n 0 u.agc_last (if_agcs e.entries)
  sample-leader e u =
      to_leader-append (alerts (pos n) 0 u.agc_last (if_agcs e.entries)) _
      ∙ ap₂ (λ ps qs. ps ++ qs) (alerts-jumps n 0 u.agc_last (if_agcs e.entries))
          (rw (not_leader node_name) refl)
      ∙ append-nil (jumps n 0 u.agc_last (if_agcs e.entries))

  module _ (minus : T → T → T) (at_least : T → T → Bool) (update_rate : T) where
    -- All that the main loop's calls publish.
    abbrev pub published : List (T × Given) → Updater T → List Publish
    published [] u = []
    published ((elapsed, e) ∷ es) u =
        let r = update T node_name (pos n) minus at_least update_rate elapsed e u in
        r.1 ++ published es r.2

    -- A call adds a record and tells of its jumps, or adds none and tells the leader nothing.
    Told : Given → Updater T → List Publish → Updater T → Type 0
    Told e u ps u' =
        ((u'.agc_log ≡ e.entries ∷ u.agc_log)
          × (u'.agc_last ≡ if_agcs e.entries)
          × (to_leader ps ≡ jumps n 0 u.agc_last (if_agcs e.entries)))
        ⊎ ((u'.agc_log ≡ u.agc_log) × (u'.agc_last ≡ u.agc_last) × (to_leader ps ≡ []))

    update-Told :
        (elapsed : T) (e : Given) (u : Updater T)
        → let r = update T node_name (pos n) minus at_least update_rate elapsed e u in
          Told e u r.1 r.2
    unfolding update Told
    update-Told elapsed e u =
        let r = report_errors T node_name (pos n) e u in
        let (same_log, same_last) = report-same e u in
        elim (Bool-cases (at_least (minus elapsed r.1.last_time) update_rate)) [
          | inr late ↦ rw late (inr (same_log, same_last, report-leader e u))
          | inl due ↦ rw due (elim (Bool-cases e.opened) [
            | inr absent ↦ rw absent (inr (same_log, same_last, report-leader e u))
            | inl there ↦ rw there (
                inl (
                  ap (◌∷◌ e.entries) same_log,
                  refl,
                  to_leader-append r.0 _
                      ∙ ap₂ (λ ps qs. ps ++ qs) (report-leader e u)
                          (sample-leader e (record r.1 { last_time = elapsed }))
                      ∙ ap (λ l. jumps n 0 l (if_agcs e.entries)) same_last,
                ))
          ])
        ]

    -- Over any calls of Update, with a threshold that is not negative, whatever the times, the errors
    -- and the failures to open the AGC file: what the leader is told is what the records say that the
    -- calls have added to the AGC file, in their order: for each record and each channel, a message
    -- HIGH or LOW with the channel's number just where its level rose or fell by more than the
    -- threshold since the record before (or the levels kept from before the calls).
    pub published-leader :
        (es : List (T × Given)) (u : Updater T)
        → (rs : List (List AgcLogData)) × ((updates T node_name
              (pos n)
              minus
              at_least
              update_rate
              es
              u).agc_log
            ≡ logged u.agc_log rs)
          × (to_leader (published es u) ≡ jumps_through n u.agc_last rs)
    unfolding Told
    published-leader [] u = ([], refl, refl)
    published-leader ((elapsed, e) ∷ es) u =
        let r = update T node_name (pos n) minus at_least update_rate elapsed e u in
        let (rs, same, told) = published-leader es r.2 in
        elim (update-Told elapsed e u) [
          | inl (log, last, now) ↦ (
            e.entries ∷ rs,
            same ∙ ap (λ l. logged l rs) log,
            to_leader-append r.1 (published es r.2)
                ∙ ap₂ (λ ps qs. ps ++ qs) now (told ∙ ap (λ l. jumps_through n l rs) last),
          )
          | inr (log, last, now) ↦ (
            rs,
            same ∙ ap (λ l. logged l rs) log,
            to_leader-append r.1 (published es r.2)
                ∙ ap₂ (λ ps qs. ps ++ qs) now (told ∙ ap (λ l. jumps_through n l rs) last),
          )
        ]
