-- ===== src/Tests/Encoder.antt =====
-- The theorems on the video encoder at concrete inputs.
use android_study_rtmp_avcod.Common.{
  ◌≡◌, refl, true, false, none, some, List, [], ◌∷◌, arith, fault, null_pointer, to,
}
use android_study_rtmp_avcod.Rtmp.{Packet}
use android_study_rtmp_avcod.Session.{Shared}
use android_study_rtmp_avcod.VideoEncode.{VideoEncode, Planes, planes_of, new_video_encode}
use android_study_rtmp_avcod.VideoEncode.Queueing.{Nal, locals, encode_data, destroy}
use android_study_rtmp_avcod.VideoEncode.Units.{IsUsable, queued}
use android_study_rtmp_avcod.VideoEncode.Contract.{
  Encoded, sps, pps, slice, nals_of, AllFit, heard_of,
}
use android_study_rtmp_avcod.VideoEncode.Frames.{Agrees}
use android_study_rtmp_avcod.VideoEncode.Encode.{IsOpen, encode_data-Agrees, destroy_faults}
use android_study_rtmp_avcod.AudioEncode.{calloc}
use android_study_rtmp_avcod.Tests.{zeros, zeros-Allocates, ticks, rtmp, shared}

abbrev pub recorder : VideoEncode
recorder = record new_video_encode {
  encoder = true;
  input = some (planes_of [] [] []);
  y_size = some 4;
  uv_size = some 1;
  callback = to tt;
  queue = to tt;
  rtmp = to rtmp;
}

pub recorder-IsOpen : IsOpen 4 1 recorder
recorder-IsOpen = record {
  planes = planes_of [] [] [];
  has_planes = refl;
  has_size = refl;
  has_uv = refl;
  has_encoder = refl;
}

abbrev pub units : List Encoded
units =
    sps (record { first = 0x67; profile = 66; compatibility = 0; level = 31; rest = 7 ∷ [] })
    ∷ pps (0x68 ∷ 5 ∷ [])
    ∷ slice true 5 0x65 (1 ∷ 2 ∷ [])
    ∷ slice false 1 0x41 (3 ∷ [])
    ∷ []

pub units_fit : AllFit units
units_fit = (
  omega arith,
  (
    omega arith,
    (
      (λ e. omega arith, λ e. omega arith, omega arith),
      ((λ e. omega arith, λ e. omega arith, omega arith), tt),
    ),
  ),
)

abbrev pub makes : Planes → List Nal
makes planes = nals_of units

recorder-IsUsable : IsUsable rtmp recorder shared
recorder-IsUsable = record { has_queue = refl; has_rtmp = refl; works = refl }

encode_data-Agrees_example :
    Agrees rtmp
      (record recorder { input = some (planes_of (1 ∷ 2 ∷ 3 ∷ 4 ∷ []) (5 ∷ []) (6 ∷ [])) })
      []
      (heard_of none units)
      (encode_data zeros ticks makes
        (locals (calloc 100) (calloc 100))
        (1 ∷ 2 ∷ 3 ∷ 4 ∷ 5 ∷ 6 ∷ [])
        (recorder, shared))
encode_data-Agrees_example =
    encode_data-Agrees zeros ticks zeros-Allocates makes units (1 ∷ 2 ∷ 3 ∷ 4 ∷ []) (5 ∷ [])
      (6 ∷ []) [] (calloc 100) (calloc 100) rtmp recorder shared recorder-IsOpen refl refl refl refl
      units_fit recorder-IsUsable

abbrev packet : Packet
packet = record {
  header_type = 0;
  packet_type = 9;
  has_abs_timestamp = 0;
  channel = 10;
  time_stamp = 0;
  info_field2 = 1;
  body_size = 0;
  body = [];
}

abbrev holding_one : Shared
holding_one = queued packet shared

destroy_faults_example : destroy (recorder, holding_one) ≡ fault null_pointer
destroy_faults_example = destroy_faults recorder holding_one rtmp packet [] refl refl refl refl

abbrev released_by_callback : Shared
released_by_callback = record holding_one {
  queue = record holding_one.queue { release_callback = true };
}
