-- ===== src/Main/Sizes.antt =====
-- The sizes that the options of src/main.cc give the controller, and its uploads with them.
use mzntapp_cpp.Base.{ℕ, ◌<◌, ◌^◌, ◌≡◌, refl, arith, Bool, List, [], ◌∷◌, Text}
use mzntapp_cpp.Hardware.Writer.{Config}
use mzntapp_cpp.Io.{Env, Log, Ensures}
use mzntapp_cpp.Logger.{Call, new_logger}
use mzntapp_cpp.Logger.Bounds.{IsSized}
use mzntapp_cpp.Logger.Keeps.{Inside}
use mzntapp_cpp.Logger.Callback.{mqtt_callback}
use mzntapp_cpp.Logger.Recorded.{IsRecorded, mqtt_callback-run}
use mzntapp_cpp.Main.{Options, defaults, set_option, parse_options, controller}

-- No option changes the sizes of an event.
pub record Fixed (T : Type 0) (o : Options T) : Type 0 where
  pub pre : o.num_pre_bytes ≡ 43000000
  pub post : o.num_post_bytes ≡ 11000000

module _ (T : Type 0) (strtod : Text → T) where
  set_option-Fixed :
      (c : ℕ) (arg : Text) (o : Options T) → Fixed T o → Fixed T (set_option T strtod c arg o)
  unfolding set_option
  set_option-Fixed c arg o f = record { pre = ground (arith, f.pre); post = ground (arith, f.post) }

  parse_options-Fixed :
      (os : List (ℕ × Text)) (o : Options T) → Fixed T o → Fixed T (parse_options T strtod os o)
  parse_options-Fixed [] o f = f
  parse_options-Fixed ((c, arg) ∷ os) o f = parse_options-Fixed os _ (set_option-Fixed c arg o f)

  -- The controller's sizes are those with which its uploads stay within the files.
  controller-IsSized :
      (os : List (ℕ × Text)) (runtime : T)
      → (parse_options T strtod os (defaults runtime)).update_byte_size < 2 ^ 29
      → IsSized (controller (parse_options T strtod os (defaults runtime)))
  unfolding new_logger defaults
  controller-IsSized os runtime small =
      let f = parse_options-Fixed os (defaults runtime) (record { pre = refl; post = refl }) in
      (omega (arith, f.pre), omega (arith, f.pre, f.post), omega (arith, small), omega arith)

  -- Whatever options the program is given, when they leave an update size below 2 ^ 29: while
  -- WriterThread records, whatever message reaches the controller that the program then makes, and
  -- wherever its handling is cut short, every part of a recorded file that is uploaded lies below the
  -- size at which the writer starts a new file.
  pub mqtt_callback-controller :
      (os : List (ℕ × Text)) (runtime : T) (fuel : ℕ) (c : Config)
      (rounds : Log Call → List (Bool × ℕ)) (payload : Text) (env : Env Call)
      → (parse_options T strtod os (defaults runtime)).update_byte_size < 2 ^ 29
      → IsRecorded c rounds env
      → Ensures Inside
          (λ _. Inside)
          (mqtt_callback fuel
            (controller (parse_options T strtod os (defaults runtime)))
            payload
            env
            [])
  mqtt_callback-controller os runtime fuel c rounds payload env small =
      mqtt_callback-run fuel (controller (parse_options T strtod os (defaults runtime))) c rounds
        payload env (controller-IsSized os runtime small)
