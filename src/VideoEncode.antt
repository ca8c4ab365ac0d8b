-- ===== src/VideoEncode.antt =====
-- cpp/x264/X264VideoEncode.cpp and head/x264/x264_video_encode.h: camera frames go through x264, and
-- the units that come out are packed and queued. x264 is a parameter: whether it opens, what
-- `x264_picture_alloc` returns, which is taken to have room for the planes of such a frame, and which
-- units an encoded frame gives. `new` finds memory.
pub mod Queueing
pub mod Units
pub mod Contract
pub mod Times
pub mod Sets
pub mod Frames
pub mod Single
pub mod Encode
pub mod Stamps
pub mod Ready
pub mod Early
pub mod Packed
use android_study_rtmp_avcod.Common.{
  ℕ, zero, suc, ◌+◌, ◌-◌, ◌*◌, ◌/◌, ◌%◌, ◌^◌, Bool, true, false, not, ◌&&◌, Option, none, some,
  List, [], ◌∷◌, ◌++◌, length, Run, done, fault, null_pointer, Pointer, wild, null, to, is_set,
  deref, assigned, ◌>>=◌, load, load_all, advance, copy, sub_length, sub32, add_int, mul_int, ltb,
  ◌==◌, if◌then◌else◌,
}
use android_study_rtmp_avcod.Rtmp.{
  Packet, Rtmp, PacketAlloc, packet_type_video, packet_size_large, packet_size_medium, packet_of,
}
use android_study_rtmp_avcod.SafeQueue.{push, set_work, clear}
use android_study_rtmp_avcod.Session.{Shared, Clock, get_time}
use android_study_rtmp_avcod.Packing.{frame_body, config_body}

-- The three planes of `inputData`.
pub record Planes : Type 0 where
  pub y : List ℕ
  pub u : List ℕ
  pub v : List ℕ

-- `X264_CSP_I420`
abbrev pub csp_i420 : ℕ
csp_i420 = 0x0002

-- `X264_RC_ABR`
abbrev pub rc_abr : ℕ
rc_abr = 2

-- The fields of `x264_param_t` that the code sets; presets and profile are constants.
pub record Params : Type 0 where
  pub i_width : ℕ
  pub i_height : ℕ
  pub i_level_idc : ℕ
  pub i_csp : ℕ
  pub i_bframe : ℕ
  pub i_rc_method : ℕ
  pub i_bitrate : ℕ
  pub i_fps_num : ℕ
  pub i_fps_den : ℕ
  pub i_timebase_den : ℕ
  pub i_timebase_num : ℕ
  pub b_vfr_input : ℕ
  pub i_keyint_max : ℕ
  pub b_repeat_headers : ℕ
  pub i_threads : ℕ

-- The calls of x264 that make and free things, `x264_picture_alloc` with the format, the width and the
-- height; `news_picture` is the `new` for `inputData`.
pub data EncoderCall : Type 0 where
  opens : Params → EncoderCall
  allocs_picture : (csp width height : ℕ) → EncoderCall
  news_picture closes : EncoderCall

-- `X264VideoEncode`. Members with no initial value are unset until a setter runs.
pub record VideoEncode : Type 0 where
  pub encoder : Bool
  pub input : Option Planes
  pub width : Option ℕ
  pub height : Option ℕ
  pub fps : Option ℕ
  pub bit_rate : Option ℕ
  pub y_size : Option ℕ
  pub uv_size : Option ℕ
  pub callback : Pointer (Unit {0})
  pub queue : Pointer (Unit {0})
  pub rtmp : Pointer Rtmp
  pub start_time : ℕ
  pub calls : List EncoderCall

-- `new X264VideoEncode`
abbrev pub new_video_encode : VideoEncode
new_video_encode = record {
  encoder = false;
  input = none;
  width = none;
  height = none;
  fps = none;
  bit_rate = none;
  y_size = none;
  uv_size = none;
  callback = wild;
  queue = wild;
  rtmp = wild;
  start_time = 0;
  calls = [];
}

abbrev pub non_null {ℓ} : {A : Type ℓ} → Option A → Run A
non_null none = fault null_pointer
non_null (some a) = done a

abbrev pub planes_of : List ℕ → List ℕ → List ℕ → Planes
planes_of y u v = record { y = y; u = u; v = v }

abbrev pub params : ℕ → ℕ → ℕ → ℕ → Params
params w h fps bit_rate = record {
  i_width = w;
  i_height = h;
  i_level_idc = 32;
  i_csp = csp_i420;
  i_bframe = 0;
  i_rc_method = rc_abr;
  i_bitrate = bit_rate / 1024;
  i_fps_num = fps;
  i_fps_den = 1;
  i_timebase_den = 1;
  i_timebase_num = fps;
  b_vfr_input = 0;
  i_keyint_max = fps * 2;
  b_repeat_headers = 1;
  i_threads = 1;
}

-- What x264 answers while it is opened: an encoder or null, and the planes of a picture, unless
-- `x264_picture_alloc` fails.
pub record Opening : Type 0 where
  pub opened : Bool
  pub planes : Option Planes

-- The value of `x264initAndOpen`: 1, 0, or the negative number of a failed `x264_picture_alloc`.
pub data Outcome : Type 0 where
  open_and_ready not_open no_picture : Outcome

-- Without planes the value is what `x264_picture_alloc` returned.
abbrev pub answer : Option Planes → Bool → Outcome
answer none opened = no_picture
answer (some p) opened = if opened then open_and_ready else not_open

abbrev pub outcome : Opening → Outcome
outcome o = answer o.planes o.opened

-- `x264initAndOpen`. After a failed allocation the planes are not there.
unfoldable pub init_and_open : Opening → ℕ → ℕ → ℕ → ℕ → VideoEncode → Run (Outcome × VideoEncode)
init_and_open o w h fps bit_rate e = do
  size ← mul_int w h
  gop ← mul_int fps 2
  done (
    outcome o,
    record e {
      encoder = o.opened;
      input = o.planes;
      width = some w;
      height = some h;
      fps = some fps;
      bit_rate = some bit_rate;
      y_size = some size;
      uv_size = some (size / 4);
      calls =
          (if e.encoder then e.calls ++ (closes ∷ []) else e.calls)
          ++ (opens (params w h fps bit_rate) ∷ news_picture ∷ allocs_picture csp_i420 w h ∷ []);
    },
  )

pub set_callback : VideoEncode → VideoEncode
set_callback e = record e { callback = to tt }

pub set_queue : VideoEncode → VideoEncode
set_queue e = record e { queue = to tt }

pub set_rtmp : Pointer Rtmp → VideoEncode → VideoEncode
set_rtmp rtmp e = record e { rtmp = rtmp }
