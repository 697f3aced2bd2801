-- ===== src/Serial/Tests.antt =====
-- A port at 9600 baud that is to be set to 115200.
use mzntapp_cpp.Base.{◌≡◌, true, false, [], ◌∷◌, Option, some, codes}
use mzntapp_cpp.Io.{Env, Returns}
use mzntapp_cpp.Serial.{
  Termios, Call, opens, clears_flags, gets_settings, sets_settings, Manager, init, calls_of,
  init_lem,
}

abbrev nine_six : Termios
nine_six = record {
  parenb = true;
  cstopb = true;
  clocal = false;
  cread = false;
  csize = 7;
  ispeed = 9600;
  ospeed = 9600;
}

abbrev manager : Manager
manager = record {
  serial_filename = codes "/dev/ttyPS0";
  baud_rate = 115200;
  message_bytes = 16;
  fd = Option.none;
}

abbrev three : Env Call
three log c = 3

init_example : Returns (init nine_six manager three []) λ r l.
    (r ≡ (true, record manager { fd = some 3 }))
    × (calls_of l
        ≡ sets_settings 3 (record {
          parenb = false;
          cstopb = false;
          clocal = true;
          cread = true;
          csize = 8;
          ispeed = 9600;
          ospeed = 9600;
        })
          ∷ gets_settings 3
          ∷ clears_flags 3
          ∷ opens (codes "/dev/ttyPS0")
          ∷ [])
init_example = init_lem nine_six manager three
