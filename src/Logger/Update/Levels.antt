-- ===== src/Logger/Update/Levels.antt =====
-- LoggerController.cpp, Update over the main loop: the times and the levels that it publishes.
use mzntapp_cpp.Base.{
  ℕ, ◌+◌, ◌-◌, ◌*◌, ◌^◌, ◌<◌, ◌≡◌, refl, ◌∙◌, ap, ap₂, ◌⊎◌, Bool, false, ltb, arith, if◌then◌else◌,
  List, [], ◌∷◌, ◌++◌, map, Text, codes, text_eq, text_eq_refl, length, take, drop, Bool-cases, inl,
  inr, All,
}
use mzntapp_cpp.Base.Int.{pos, ltb_ℤ}
use mzntapp_cpp.Hardware.Spi.{AgcLogData}
use mzntapp_cpp.Logger.Update.{
  Publish, little_endian, transmit_bytes, alert, alerts, Updater, Given, if_agcs, first_ms,
  report_errors, sample, update, updates,
}
use mzntapp_cpp.Logger.Update.Alerts.{published, logged}

-- The number that some bytes make, the low one first.
abbrev pub value_of : List ℕ → ℕ
value_of [] = 0
value_of (b ∷ bs) = b + 2 ^ 8 * value_of bs

-- What a receiver reads from a message: its length, the time and the levels.
abbrev pub decoded : Publish → ℕ × ℕ × List ℕ
decoded p = (length p.message, value_of (take 8 p.message), take 4 (drop 8 p.message))

-- What a record of the AGC file says: the time of its first channel and the levels of all four.
abbrev pub recorded : List AgcLogData → ℕ × ℕ × List ℕ
recorded r = (16, first_ms r, if_agcs r)

-- As GetAGCData fills it in: four entries, with a time of 64 bits.
abbrev pub IsRecord : List AgcLogData → Type 0
IsRecord r = (length r ≡ 4) × (first_ms r < 2 ^ 64)

time_read :
    (ms : ℕ) (rest : List ℕ) → ms < 2 ^ 64 → value_of (take 8 (little_endian 8 ms ++ rest)) ≡ ms
unfolding little_endian
time_read ms rest h = omega arith

-- The messages on the topic of the node's levels.
module _ (node : Text) where
  abbrev pub to_node : List Publish → List Publish
  to_node [] = []
  to_node (p ∷ ps) = if text_eq p.topic (node ++ codes "-agc") then p ∷ to_node ps else to_node ps

  to_node-append : (ps qs : List Publish) → to_node (ps ++ qs) ≡ to_node ps ++ to_node qs
  to_node-append [] qs = refl
  to_node-append (p ∷ ps) qs = elim (Bool-cases (text_eq p.topic (node ++ codes "-agc"))) [
    | inl e ↦ rw e (ap (◌∷◌ p) (to_node-append ps qs))
    | inr e ↦ rw e (to_node-append ps qs)
  ]

-- No node's topic is the leader's, or that of the errors.
leader_not_node : (node : Text) → text_eq (codes "leader") (node ++ codes "-agc") ≡ false
unfolding text_eq
leader_not_node [] = refl
leader_not_node (a ∷ []) = ground arith
leader_not_node (a ∷ b ∷ []) = ground arith
leader_not_node (a ∷ b ∷ c ∷ []) = ground arith
leader_not_node (a ∷ b ∷ c ∷ d ∷ []) = ground arith
leader_not_node (a ∷ b ∷ c ∷ d ∷ e ∷ []) = ground arith
leader_not_node (a ∷ b ∷ c ∷ d ∷ e ∷ f ∷ []) = ground arith
leader_not_node (a ∷ b ∷ c ∷ d ∷ e ∷ f ∷ g ∷ rest) = ground arith

errors_not_node : (node : Text) → text_eq (codes "errors") (node ++ codes "-agc") ≡ false
unfolding text_eq
errors_not_node [] = refl
errors_not_node (a ∷ []) = ground arith
errors_not_node (a ∷ b ∷ []) = ground arith
errors_not_node (a ∷ b ∷ c ∷ []) = ground arith
errors_not_node (a ∷ b ∷ c ∷ d ∷ []) = ground arith
errors_not_node (a ∷ b ∷ c ∷ d ∷ e ∷ []) = ground arith
errors_not_node (a ∷ b ∷ c ∷ d ∷ e ∷ f ∷ []) = ground arith
errors_not_node (a ∷ b ∷ c ∷ d ∷ e ∷ f ∷ g ∷ rest) = ground arith

-- The message of a record is read back as what the record says.
transmitted :
    (r : List AgcLogData) (topic : Text)
    → IsRecord r
    → decoded (record {
      topic = topic;
      message = transmit_bytes (record { ms_truncated = first_ms r; if_agc = if_agcs r });
      qos = 0;
    })
      ≡ recorded r
unfolding transmit_bytes little_endian
transmitted [] topic h = absurd (omega (arith, h.0))
transmitted (a ∷ []) topic h = absurd (omega (arith, h.0))
transmitted (a ∷ b ∷ []) topic h = absurd (omega (arith, h.0))
transmitted (a ∷ b ∷ c ∷ []) topic h = absurd (omega (arith, h.0))
transmitted (a ∷ b ∷ c ∷ d ∷ []) topic h =
    ap (λ t. (16, t, a.if_agc ∷ b.if_agc ∷ c.if_agc ∷ d.if_agc ∷ []))
      (time_read a.ms_truncated [] h.1)
transmitted (a ∷ b ∷ c ∷ d ∷ e ∷ more) topic h = absurd (omega (arith, h.0))

module _ (T : Type 0) (node : Text) (n : ℕ) where
  alert-node : (i last agc : ℕ) → to_node node (alert (pos n) i last agc) ≡ []
  alert-node i last agc = elim (Bool-cases (ltb_ℤ (pos n) (pos ((last - agc) + (agc - last))))) [
    | inl e ↦ rw e (rw (leader_not_node node) refl)
    | inr e ↦ rw e refl
  ]

  alerts-node : (i : ℕ) (lasts agcs : List ℕ) → to_node node (alerts (pos n) i lasts agcs) ≡ []
  unfolding alerts
  alerts-node i [] agcs = refl
  alerts-node i (last ∷ lasts) [] = refl
  alerts-node i (last ∷ lasts) (agc ∷ agcs) =
      to_node-append node (alert (pos n) i last agc) (alerts (pos n) (i + 1) lasts agcs)
      ∙ ap₂ (λ ps qs. ps ++ qs) (alert-node i last agc) (alerts-node (i + 1) lasts agcs)

  report-node : (e : Given) (u : Updater T) → to_node node (report_errors T node (pos n) e u).0 ≡ []
  report-node e u = elim (Bool-cases (ltb u.num_last_errors e.errors1)) [
    | inl h ↦ rw h (rw (errors_not_node node) refl)
    | inr h ↦ rw h refl
  ]

  report-log :
      (e : Given) (u : Updater T) → (report_errors T node (pos n) e u).1.agc_log ≡ u.agc_log
  report-log e u = elim (Bool-cases (ltb u.num_last_errors e.errors1)) [
    | inl h ↦ rw h refl
    | inr h ↦ rw h refl
  ]

  sample-node :
      (e : Given) (u : Updater T)
      → IsRecord e.entries
      → map decoded (to_node node (sample T node (pos n) e u).0) ≡ recorded e.entries ∷ []
  sample-node e u h =
      let sent : Publish = record {
        topic = node ++ codes "-agc";
        message =
            transmit_bytes
              (record { ms_truncated = first_ms e.entries; if_agc = if_agcs e.entries });
        qos = 0;
      } in
      let own : to_node node (sent ∷ []) ≡ sent ∷ [] =
        rw (text_eq_refl (node ++ codes "-agc")) refl in
      ap (map decoded) (
        to_node-append node (alerts (pos n) 0 u.agc_last (if_agcs e.entries)) (sent ∷ [])
        ∙ ap₂ (λ ps qs. ps ++ qs) (alerts-node 0 u.agc_last (if_agcs e.entries)) own)
      ∙ ap (λ m. m ∷ []) (transmitted e.entries (node ++ codes "-agc") h)

  module _ (minus : T → T → T) (at_least : T → T → Bool) (update_rate : T) where
    -- A call adds a record and publishes it, or adds none and publishes none.
    Told : Given → Updater T → List Publish → Updater T → Type 0
    Told e u ps u' =
        ((u'.agc_log ≡ e.entries ∷ u.agc_log)
          × (map decoded (to_node node ps) ≡ recorded e.entries ∷ []))
        ⊎ ((u'.agc_log ≡ u.agc_log) × (to_node node ps ≡ []))

    update-Told :
        (elapsed : T) (e : Given) (u : Updater T)
        → IsRecord e.entries
        → let r = update T node (pos n) minus at_least update_rate elapsed e u in Told e u r.1 r.2
    unfolding update Told
    update-Told elapsed e u h =
        let r = report_errors T node (pos n) e u in
        elim (Bool-cases (at_least (minus elapsed r.1.last_time) update_rate)) [
          | inr late ↦ rw late (inr (report-log e u, report-node e u))
          | inl due ↦ rw due (elim (Bool-cases e.opened) [
            | inr absent ↦ rw absent (inr (report-log e u, report-node e u))
            | inl there ↦ rw there (
                inl (
                  ap (◌∷◌ e.entries) (report-log e u),
                  ap (map decoded) (
                        to_node-append node r.0 _
                        ∙ ap
                            (λ ps.
                              ps
                              ++ to_node node
                                  (sample T node (pos n) e (record r.1 { last_time = elapsed })).0)
                            (report-node e u))
                      ∙ sample-node e (record r.1 { last_time = elapsed }) h,
                ))
          ])
        ]

    map_append :
        (ps qs : List Publish)
        → map decoded (to_node node (ps ++ qs))
          ≡ map decoded (to_node node ps) ++ map decoded (to_node node qs)
    map_append ps qs = ap (map decoded) (to_node-append node ps qs) ∙ parts (to_node node ps)
      where
        parts :
            (xs : List Publish)
            → map decoded (xs ++ to_node node qs) ≡ map decoded xs ++ map decoded (to_node node qs)
        parts [] = refl
        parts (x ∷ xs) = ap (◌∷◌ (decoded x)) (parts xs)

    -- Over any calls of Update, with a threshold that is not negative, in which GetAGCData gives four
    -- entries with times of 64 bits, whatever the times, the errors and the failures to open the AGC
    -- file: the messages on the topic of the node's levels are as many as the records that the calls have
    -- added to the AGC file, in their order: each has 16 bytes, its first eight make the time of the
    -- record's first channel, and the next four are the record's levels.
    pub published-levels :
        (es : List (T × Given)) (u : Updater T)
        → All (λ e. IsRecord e.1.entries) es
        → (rs : List (List AgcLogData)) × ((updates T node
              (pos n)
              minus
              at_least
              update_rate
              es
              u).agc_log
            ≡ logged u.agc_log rs)
          × (map decoded (to_node node (published T node n minus at_least update_rate es u))
              ≡ map recorded rs)
    unfolding Told
    published-levels [] u h = ([], refl, refl)
    published-levels ((elapsed, e) ∷ es) u (h, hs) =
        let r = update T node (pos n) minus at_least update_rate elapsed e u in
        let more = published T node n minus at_least update_rate es r.2 in
        let (rs, same, told) = published-levels es r.2 hs in
        elim (update-Told elapsed e u h) [
          | inl (log, now) ↦ (
            e.entries ∷ rs,
            same ∙ ap (λ l. logged l rs) log,
            map_append r.1 more ∙ ap₂ (λ ps qs. ps ++ qs) now told,
          )
          | inr (log, now) ↦ (
            rs,
            same ∙ ap (λ l. logged l rs) log,
            map_append r.1 more ∙ ap₂ (λ ps qs. ps ++ qs) (ap (map decoded) now) told,
          )
        ]
