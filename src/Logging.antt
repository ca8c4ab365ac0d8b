-- ===== src/Logging.antt =====
-- The functions that only write to Android's log: `testX264` of cpp/x264/Camera2ToolNative.cpp,
-- `getFaacVersion` of cpp/x264/FAACAudioEncode.cpp and `play` of cpp/jpeg/Play.cpp. Elsewhere logging is
-- left out.
use android_study_rtmp_avcod.Common.{ℕ, List, [], ◌∷◌, ◌++◌}

-- The messages, with what is put into them.
pub data Line : Type 0 where
  x264_test : List ℕ → Line
  faac_version_ret : ℕ → Line
  jni_test : Line

-- `log`, which adds a line to what was logged.
abbrev log : Line → List Line → List Line
log line lines = lines ++ (line ∷ [])

-- `testX264`, given the bytes of a Java string.
abbrev pub test_x264 : List ℕ → List Line → List Line
test_x264 hello lines = log (x264_test hello) lines

-- `getFaacVersion`; `ret` is what `faacEncGetVersion` returns. The strings that it stores go into the
-- function's own copies of its two arguments and are dropped.
abbrev pub get_faac_version : ℕ → List Line → List Line
get_faac_version ret lines = log (faac_version_ret ret) lines

-- `play`; the string that it makes is empty and dropped.
abbrev pub play : List Line → List Line
play lines = log jni_test lines
