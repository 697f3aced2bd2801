-- ===== src/Logger/Start.antt =====
-- LoggerController.cpp: Start and Stop. The three subsystems answer with nonzero for success; where
-- one fails after the hardware's initialisation, Start goes on.
use mzntapp_cpp.Base.{
  ℕ, ◌≡◌, Bool, true, false, not, arith, ◌==◌, if◌then◌else◌, [], ◌∷◌, ◌++◌, map, Text, codes,
}
use mzntapp_cpp.Io.{Io, Env, Returns, pure, ask, tell, ◌>>=◌, ◌>>◌}
use mzntapp_cpp.Logger.{Logger}

pub data StartCall : Type 0 where
  -- `m_hwMgr.InitializeHardware`, `Start` and `Stop`
  initializes_hardware : StartCall
  starts_hardware : StartCall
  stops_hardware : StartCall
  -- the static handles of HTTPClient and UploadTask
  sets_handles : StartCall
  -- `m_mqttCtlr.Start` with host and client, `Subscribe` and `Publish`
  starts_mqtt : Text → Text → StartCall
  subscribes : Text → StartCall
  publishes : Text → Text → ℕ → StartCall
  asks_http : StartCall
  -- the AGC file is opened anew and closed
  truncates_agc : Text → StartCall
  -- `GetTimeStart` and `GetAGCData`; the levels go to `m_agcLast`
  reads_time : StartCall
  reads_agc : StartCall

unfoldable pub start_logger : Logger → Io StartCall Bool
start_logger g = do
  ready ← ask initializes_hardware
  if ready == 0 then pure false else do
    tell sets_handles
    tell (starts_mqtt g.mqtt_host g.node_name)
    tell (subscribes (codes "alert"))
    tell (publishes (codes "leader") (g.node_name ++ codes "-ONLINE") 2)
    tell asks_http
    tell (truncates_agc g.agc_filename)
    tell starts_hardware
    tell reads_time
    tell reads_agc
    pure true

unfoldable pub stop_logger : Io StartCall Bool
stop_logger = tell stops_hardware >> pure true

-- Whatever the subsystems answer, Start returns. Without hardware it returns false and calls nothing
-- else; else it returns true after all the calls, in order (here the newest first): the handles are
-- set and the AGC file is emptied before the hardware's threads start.
pub start_logger_lem :
    (g : Logger) (env : Env StartCall)
    → let absent = env [] initializes_hardware == 0 in
      Returns (start_logger g env []) λ ok l.
        (ok ≡ not absent)
        × (map (λ (c : StartCall × ℕ). c.0) l ≡ (
            if absent
            then initializes_hardware ∷ []
            else reads_agc
              ∷ reads_time
              ∷ starts_hardware
              ∷ truncates_agc g.agc_filename
              ∷ asks_http
              ∷ publishes (codes "leader") (g.node_name ++ codes "-ONLINE") 2
              ∷ subscribes (codes "alert")
              ∷ starts_mqtt g.mqtt_host g.node_name
              ∷ sets_handles
              ∷ initializes_hardware
              ∷ []))
unfolding start_logger
start_logger_lem g env = ground arith
