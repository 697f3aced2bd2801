-- ===== src/Logger/Update.antt =====
-- LoggerController.cpp, Update: the regular work of the main thread. The times are `double`s, which
-- stay parameters with their subtraction and comparison. What one call meets is given to it: the
-- number of hardware errors at its two reads, whether the AGC file opens, and the data of GetAGCData.
pub mod Alerts
pub mod Levels
use mzntapp_cpp.Base.{
  ℕ, zero, suc, ◌+◌, ◌-◌, ◌*◌, ◌/◌, ◌%◌, ◌^◌, ◌<◌, ◌≡◌, refl, Bool, true, false, arith, ltb,
  if◌then◌else◌, List, [], ◌∷◌, ◌++◌, map, Text, codes, to_string, length, take, drop, replicate,
}
use mzntapp_cpp.Base.Int.{ℤ, pos, ltb_ℤ}
use mzntapp_cpp.Hardware.Spi.{AgcLogData}

pub record Publish : Type 0 where
  pub topic : Text
  pub message : List ℕ
  pub qos : ℕ

-- `AGCTransmit`.
pub record AgcTransmit : Type 0 where
  pub ms_truncated : ℕ
  pub if_agc : List ℕ

-- A number as `n` bytes, the low one first.
unfoldable pub little_endian : ℕ → ℕ → List ℕ
little_endian zero v = []
little_endian (suc n) v = (v % 2 ^ 8) ∷ little_endian n (v / 2 ^ 8)

-- The memory of an `AGCTransmit`: 8 bytes, one for each channel, and 4 of padding.
unfoldable pub transmit_bytes : AgcTransmit → List ℕ
unfolding little_endian
transmit_bytes t = little_endian 8 t.ms_truncated ++ t.if_agc ++ replicate 4 0

-- `abs(m_agcLast[i] - data[i].ifAGC) > m_agcThreshold`, with the message that follows.
abbrev pub alert : ℤ → ℕ → ℕ → ℕ → List Publish
alert threshold i last agc =
    if ltb_ℤ threshold (pos ((last - agc) + (agc - last)))
    then record {
      topic = codes "leader";
      message = (if ltb last agc then codes "HIGH-" else codes "LOW-") ++ to_string i;
      qos = 0;
    }
      ∷ []
    else []

unfoldable pub alerts : ℤ → ℕ → List ℕ → List ℕ → List Publish
alerts threshold i [] agcs = []
alerts threshold i (last ∷ lasts) [] = []
alerts threshold i (last ∷ lasts) (agc ∷ agcs) =
    alert threshold i last agc ++ alerts threshold (i + 1) lasts agcs

-- The statics of the function and the members that it changes; the AGC file as its records.
pub record Updater (T : Type 0) : Type 0 where
  pub last_time : T
  pub num_last_errors : ℕ
  pub agc_last : List ℕ
  pub bytes_written_agc : ℕ
  pub agc_log : List (List AgcLogData)

-- `sizeof(AGCLogData) * 4`
abbrev pub record_size : ℕ
record_size = 16 * 4

pub record Given : Type 0 where
  pub errors1 : ℕ
  pub errors2 : ℕ
  pub opened : Bool
  pub entries : List AgcLogData

abbrev pub if_agcs : List AgcLogData → List ℕ
if_agcs = map (λ (e : AgcLogData). e.if_agc)

abbrev pub first_ms : List AgcLogData → ℕ
first_ms [] = 0
first_ms (e ∷ es) = e.ms_truncated

module _ (T : Type 0) (node_name : Text) (threshold : ℤ) where
  -- The error report.
  abbrev pub report_errors : Given → Updater T → List Publish × Updater T
  report_errors e u =
      if ltb u.num_last_errors e.errors1
      then (
        record { topic = codes "errors"; message = node_name ++ codes " had a HW error."; qos = 0 }
            ∷ [],
        record u { num_last_errors = e.errors2 },
      )
      else ([], u)

  -- The record in the AGC file, the alerts, and the data for the leader.
  abbrev pub sample : Given → Updater T → List Publish × Updater T
  sample e u = (
    alerts threshold 0 u.agc_last (if_agcs e.entries)
        ++ record {
          topic = node_name ++ codes "-agc";
          message =
              transmit_bytes
                (record { ms_truncated = first_ms e.entries; if_agc = if_agcs e.entries });
          qos = 0;
        }
          ∷ [],
    record u {
      agc_last = if_agcs e.entries;
      bytes_written_agc = (u.bytes_written_agc + record_size) % 2 ^ 32;
      agc_log = e.entries ∷ u.agc_log;
    },
  )

module _ (T : Type 0) (node_name : Text) (threshold : ℤ) (minus : T → T → T)
    (at_least : T → T → Bool) (update_rate : T) where
  -- The function's result, what it publishes, and the state after it.
  unfoldable pub update : T → Given → Updater T → Bool × List Publish × Updater T
  update elapsed e u0 =
      let (errors, u) = report_errors T node_name threshold e u0 in
      if at_least (minus elapsed u.last_time) update_rate
      then (let u' = record u { last_time = elapsed } in
          if e.opened
          then (let (published, u'') = sample T node_name threshold e u' in
              (true, errors ++ published, u''))
          else (false, errors, u'))
      else (true, errors, u)

  -- The main loop's calls.
  abbrev pub updates : List (T × Given) → Updater T → Updater T
  updates [] u = u
  updates ((elapsed, e) ∷ es) u = updates es (update elapsed e u).2

  update-bytes :
      (elapsed : T) (e : Given) (u : Updater T)
      → u.bytes_written_agc ≡ (record_size * length u.agc_log) % 2 ^ 32
      → let u' = (update elapsed e u).2 in
        u'.bytes_written_agc ≡ (record_size * length u'.agc_log) % 2 ^ 32
  unfolding update
  update-bytes elapsed e u h = ground arith

  -- If `m_bytesWrittenAGC`, which is how much of the AGC file an upload sends, is the size of the
  -- records in that file modulo 2 ^ 32, as it is at the start, then so it is after any calls of the
  -- main loop.
  pub updates-bytes :
      (es : List (T × Given)) (u : Updater T)
      → u.bytes_written_agc ≡ (record_size * length u.agc_log) % 2 ^ 32
      → (updates es u).bytes_written_agc ≡ (record_size * length (updates es u).agc_log) % 2 ^ 32
  updates-bytes [] u h = h
  updates-bytes ((elapsed, e) ∷ es) u h = updates-bytes es _ (update-bytes elapsed e u h)

alerts-same :
    (threshold : ℤ) (i : ℕ) (agcs : List ℕ)
    → ltb_ℤ threshold (pos 0) ≡ false
    → alerts threshold i agcs agcs ≡ []
unfolding alerts
alerts-same threshold i [] h = refl
alerts-same threshold i (agc ∷ agcs) h =
    simp (no_change agc agc refl, h, alerts-same threshold (i + 1) agcs h) refl
  where
    no_change : (a b : ℕ) → a ≡ b → (a - b) + (b - a) ≡ 0
    no_change a b e = omega arith

-- With a threshold that is not negative, a sample whose levels are those of the sample before it
-- raises no alert: only the levels are published.
sample-repeat :
    (T : Type 0) (node_name : Text) (threshold : ℤ) (e e' : Given) (u : Updater T)
    → ltb_ℤ threshold (pos 0) ≡ false
    → map (λ (x : AgcLogData). x.if_agc) e'.entries ≡ map (λ (x : AgcLogData). x.if_agc) e.entries
    → map
        (λ (x : Publish). x.topic)
        (sample T node_name threshold e' (sample T node_name threshold e u).1).0
      ≡ (node_name ++ codes "-agc") ∷ []
sample-repeat T node_name threshold e e' u h same =
    rw (same, alerts-same threshold 0 (map (λ (x : AgcLogData). x.if_agc) e.entries) h) refl
