-- ===== src/Camera/Setup.antt =====
-- Java's calls of cpp/x264/Camera2ToolNative.cpp before a stream: the encoders are made and opened, and
-- a connection is asked for.
use mathlib.Core.Path.{subst}
use android_study_rtmp_avcod.Common.{
  ℕ, ◌*◌, ◌/◌, ◌%◌, ◌^◌, ◌∷◌, ◌++◌, sym, arith, ◌<◌, ◌≡◌, refl, true, Bool_cases, inl, inr, none,
  some, List, [], Run, done, ◌>>=◌, if◌then◌else◌,
}
use android_study_rtmp_avcod.VideoEncode.{
  VideoEncode, Opening, outcome, open_and_ready, set_callback, new_video_encode,
}
use android_study_rtmp_avcod.VideoEncode.Ready.{init_and_open-IsOpen}
use android_study_rtmp_avcod.AudioEncode.{
  AudioEncode, Opened, new_audio_encode, calloc, open_faac_encode, get_input_data_size, opens,
  callocs, configures,
}
use android_study_rtmp_avcod.AudioEncode.Silence.{length-calloc}
use android_study_rtmp_avcod.Camera.{
  Camera, native_x264_encode_init, native_faac_encode_init, native_x264_encode_open,
  native_faac_encode_open, native_rtmp_start,
}
use android_study_rtmp_avcod.Camera.Starting.{IsReady}

-- The encoders are made and opened, and then the connection is asked for.
abbrev pub set_up : Opening → Opened → ℕ → ℕ → ℕ → ℕ → ℕ → ℕ → List ℕ → Camera → Run Camera
set_up o f w h fps bit_rate sample_rate channel_count url c = do
  c ←
      native_x264_encode_open o w h fps bit_rate
        (native_x264_encode_init (native_faac_encode_init c))
  (size, c) ← native_faac_encode_open f sample_rate channel_count c
  done (native_rtmp_start url c)

native_rtmp_start-IsReady :
    (size uv max : ℕ) (url : List ℕ) (c : Camera)
    → IsReady size uv max c
    → IsReady size uv max (native_rtmp_start url c)
      × ((native_rtmp_start url c).tried ≡ true)
      × ((native_rtmp_start url c).calls ≡ c.calls)
      × ((native_rtmp_start url c).shared ≡ c.shared)
unfolding native_rtmp_start
native_rtmp_start-IsReady size uv max url c ready = elim (Bool_cases c.tried) [
  | inl again ↦ (
    subst
        (λ b.
          IsReady size uv max
            (if b then c else record c { tried = true; threads = c.threads ++ (url ∷ []) }))
        (sym again) ready,
    ground arith,
    ground arith,
    ground arith,
  )
  | inr first ↦ (
    subst
        (λ b.
          IsReady size uv max
            (if b then c else record c { tried = true; threads = c.threads ++ (url ∷ []) }))
        (sym first)
        (record {
          no_packet = ready.no_packet;
          no_items = ready.no_items;
          video = ready.video;
          has_video = ready.has_video;
          is_open = ready.is_open;
          audio = ready.audio;
          has_audio = ready.has_audio;
          audio_encoder = ready.audio_encoder;
          buffer = ready.buffer;
          has_buffer = ready.has_buffer;
          has_room = ready.has_room;
          has_max = ready.has_max;
        }),
    ground arith,
    ground arith,
    ground arith,
  )
]

-- If x264 and faac open, and the frame's size and the interval of key frames do not overflow, Java's
-- calls leave a camera that is ready for a connection, and has asked for one.
pub set_up-IsReady :
    (o : Opening) (f : Opened) (w h fps bit_rate sample_rate channel_count : ℕ) (url : List ℕ)
    (c : Camera)
    → w * h < 2 ^ 31
    → fps * 2 < 2 ^ 31
    → outcome o ≡ open_and_ready
    → f.configuration ≡ true
    → f.handle ≡ true
    → c.packet ≡ none
    → c.shared.queue.items ≡ []
    → (c' : Camera) × (set_up o f w h fps bit_rate sample_rate channel_count url c ≡ done c')
      × IsReady (w * h) (w * h / 4) f.max_bytes c'
      × (c'.tried ≡ true)
      × (c'.calls ≡ c.calls)
      × (c'.shared ≡ c.shared)
unfolding native_x264_encode_init native_faac_encode_init native_x264_encode_open
    native_faac_encode_open open_faac_encode get_input_data_size
set_up-IsReady o f w h fps bit_rate sample_rate channel_count url c small often answers configured
      has_handle no_packet no_items =
    let (e, runs, ready) =
      init_and_open-IsOpen o w h fps bit_rate (set_callback new_video_encode) small often answers in
    let (is_ready, tried, calls, shared) =
      native_rtmp_start-IsReady (w * h) (w * h / 4) f.max_bytes url (opened_with e) (record {
        no_packet = no_packet;
        no_items = no_items;
        video = e;
        has_video = refl;
        is_open = ready;
        audio = audio;
        has_audio = refl;
        audio_encoder = has_handle;
        buffer = calloc f.max_bytes;
        has_buffer = refl;
        has_room = length-calloc f.max_bytes;
        has_max = refl;
      }) in
    (
      native_rtmp_start url (opened_with e),
      rw (runs) (rw configured),
      is_ready,
      tried,
      calls,
      shared,
    )
  where
    audio : AudioEncode
    audio = record new_audio_encode {
      encoder = f.handle;
      max_bytes = some f.max_bytes;
      encoded_data = some (calloc f.max_bytes);
      input_size = some (f.input_samples * 2 % 2 ^ 64);
      calls = opens sample_rate channel_count ∷ callocs ∷ configures ∷ [];
    }

    opened_with : VideoEncode → Camera
    opened_with e = record c { video = some e; audio = some audio; callback = true }
