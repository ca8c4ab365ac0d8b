-- ===== src/Tests/Times.antt =====
-- The theorems on the times of video packets at concrete inputs.
use android_study_rtmp_avcod.Common.{ℕ, refl, false, List, [], ◌∷◌, arith}
use android_study_rtmp_avcod.Session.{Shared}
use android_study_rtmp_avcod.VideoEncode.{VideoEncode, Planes, planes_of}
use android_study_rtmp_avcod.VideoEncode.Queueing.{Nal, locals, encode_data}
use android_study_rtmp_avcod.VideoEncode.Units.{IsUsable}
use android_study_rtmp_avcod.VideoEncode.Encode.{IsOpen}
use android_study_rtmp_avcod.VideoEncode.Contract.{Encoded, slice, nals_of, AllFit, heard_of}
use android_study_rtmp_avcod.VideoEncode.Times.{InOrder}
use android_study_rtmp_avcod.VideoEncode.Stamps.{Stamps, encode_data-Stamps, encode_data_ordered}
use android_study_rtmp_avcod.AudioEncode.{calloc}
use android_study_rtmp_avcod.Tests.{zeros, zeros-Allocates, ticks, rtmp, shared}
use android_study_rtmp_avcod.Tests.Encoder.{recorder, units, units_fit, makes}

-- A stream that started at 3, when the clock says 7.
abbrev under_way : VideoEncode
under_way = record recorder { start_time = 3 }

abbrev later : Shared
later = record shared { reads = 6 }

under_way-IsOpen : IsOpen 4 1 under_way
under_way-IsOpen = record {
  planes = planes_of [] [] [];
  has_planes = refl;
  has_size = refl;
  has_uv = refl;
  has_encoder = refl;
}

under_way-IsUsable : IsUsable rtmp under_way later
under_way-IsUsable = record { has_queue = refl; has_rtmp = refl; works = refl }

abbrev slices : List Encoded
slices = slice false 1 0x41 (3 ∷ []) ∷ slice false 1 0x41 (4 ∷ []) ∷ []

abbrev slices_of : Planes → List Nal
slices_of planes = nals_of slices

slices_fit : AllFit slices
slices_fit = (
  (λ e. omega arith, λ e. omega arith, omega arith),
  ((λ e. omega arith, λ e. omega arith, omega arith), tt),
)

-- The parameter sets of a second key frame go out at time 0.
encode_data-Stamps_example : Stamps under_way later (0 ∷ 4 ∷ 5 ∷ []) (
    encode_data zeros ticks makes
      (locals (calloc 100) (calloc 100))
      (1 ∷ 2 ∷ 3 ∷ 4 ∷ 5 ∷ 6 ∷ [])
      (under_way, later))
unfolding heard_of
encode_data-Stamps_example =
    encode_data-Stamps zeros ticks zeros-Allocates rtmp makes units _ (1 ∷ 2 ∷ 3 ∷ 4 ∷ []) (5 ∷ [])
      (6 ∷ []) [] (calloc 100) (calloc 100) under_way later under_way-IsOpen refl refl refl refl
      units_fit refl under_way-IsUsable

encode_data_ordered_example :
    (added : List ℕ) × InOrder 2 added
    × Stamps under_way later added (
        encode_data zeros ticks slices_of
          (locals (calloc 100) (calloc 100))
          (1 ∷ 2 ∷ 3 ∷ 4 ∷ 5 ∷ 6 ∷ [])
          (under_way, later))
unfolding heard_of
encode_data_ordered_example =
    encode_data_ordered zeros ticks zeros-Allocates rtmp (λ m n h. omega (arith, h)) slices_of
      slices _ (1 ∷ 2 ∷ 3 ∷ 4 ∷ []) (5 ∷ []) (6 ∷ []) [] (calloc 100) (calloc 100) 2 under_way later
      under_way-IsOpen refl refl refl refl slices_fit refl under_way-IsUsable tt (omega arith)
      (λ e. omega (arith, e)) (omega arith) (omega arith)
