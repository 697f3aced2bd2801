-- ===== src/Logger/Tests/Levels.antt =====
-- Two samples whose levels change on one channel, and payloads that cannot be read.
use mzntapp_cpp.Base.{ℕ, ◌-◌, ◌≡◌, refl, true, ltb, List, [], ◌∷◌, codes, text_eq, arith, map}
use mzntapp_cpp.Base.Int.{pos}
use mzntapp_cpp.Hardware.Spi.{AgcLogData}
use mzntapp_cpp.Hardware.Conf.{skip_spaces}
use mzntapp_cpp.Logger.{tokens, signed_value}
use mzntapp_cpp.Logger.Callback.{mqtt_callback}
use mzntapp_cpp.Logger.Malformed.{malformed, mqtt_callback-faults}
use mzntapp_cpp.Logger.Sound.{is_faulted}
use mzntapp_cpp.Logger.Update.{updates}
use mzntapp_cpp.Logger.Update.Alerts.{to_leader, published, jumps_through, logged, published-leader}
use mzntapp_cpp.Logger.Update.Levels.{decoded, recorded, to_node, published-levels}
use mzntapp_cpp.Logger.Tests.{logger, beside, updater, met}

published-leader_example :
    (rs : List (List AgcLogData)) × ((updates ℕ
        (codes "mz0")
        (pos 5)
        (λ a b. a - b)
        (λ a b. ltb 0 a)
        1
        ((1, met) ∷ (2, met) ∷ [])
        updater).agc_log
      ≡ logged [] rs)
    × (to_leader (
          published ℕ
            (codes "mz0")
            5
            (λ a b. a - b)
            (λ a b. ltb 0 a)
            1
            ((1, met) ∷ (2, met) ∷ [])
            updater)
        ≡ jumps_through 5 (1 ∷ 2 ∷ 3 ∷ 20 ∷ []) rs)
published-leader_example =
    published-leader ℕ (codes "mz0") 5 (λ a b. a - b) (λ a b. ltb 0 a) 1 ((1, met) ∷ (2, met) ∷ [])
      updater

published-levels_example :
    (rs : List (List AgcLogData)) × ((updates ℕ
        (codes "mz0")
        (pos 5)
        (λ a b. a - b)
        (λ a b. ltb 0 a)
        1
        ((1, met) ∷ (2, met) ∷ [])
        updater).agc_log
      ≡ logged [] rs)
    × (map decoded (
          to_node (codes "mz0") (
            published ℕ
              (codes "mz0")
              5
              (λ a b. a - b)
              (λ a b. ltb 0 a)
              1
              ((1, met) ∷ (2, met) ∷ [])
              updater))
        ≡ map recorded rs)
published-levels_example =
    published-levels ℕ (codes "mz0") 5 (λ a b. a - b) (λ a b. ltb 0 a) 1 ((1, met) ∷ (2, met) ∷ [])
      updater ((refl, omega arith), ((refl, omega arith), tt))

event_malformed : malformed (tokens (codes "event-start-1-x")) ≡ true
unfolding tokens text_eq signed_value skip_spaces
event_malformed = refl

mqtt_callback-faults_example :
    is_faulted (mqtt_callback 3 logger (codes "event-start-1-x") beside [])
    ≡ malformed (tokens (codes "event-start-1-x"))
mqtt_callback-faults_example =
    mqtt_callback-faults 3 logger (codes "event-start-1-x") beside (λ x log. omega arith)
