-- ===== src/Tests/Streams.antt =====
-- The theorems on a connection, on the search for parameter sets, on bodies and on the callback, at
-- concrete inputs.
use android_study_rtmp_avcod.Common.{ℕ, ◌≡◌, refl, true, false, none, List, [], ◌∷◌, arith, done}
use android_study_rtmp_avcod.Rtmp.{Answers}
use android_study_rtmp_avcod.Muxer.{stream_of}
use android_study_rtmp_avcod.Delivery.{deliveries}
use android_study_rtmp_avcod.Packing.{frame_body}
use android_study_rtmp_avcod.Packing.Bounds.{GivesBytes, frame_body-AreBytes}
use android_study_rtmp_avcod.Live.{State, connect, save_sps_pps}
use android_study_rtmp_avcod.Live.Contract.{Agrees}
use android_study_rtmp_avcod.Live.Stream.{send_all}
use android_study_rtmp_avcod.Live.Search.{kept, first_pps, save_sps_pps-kept}
use android_study_rtmp_avcod.Live.Connect.{Connects, reached, connect-Connects, connect_streams}
use android_study_rtmp_avcod.Callback.{new_global_ref, Callback}
use android_study_rtmp_avcod.Tests.{zeros, zeros-Allocates, live, stream, stream_fits}
use android_study_rtmp_avcod.Tests.Thread.{good}

abbrev unreached : Answers
unreached = record good { connected = false }

abbrev idle : State
idle = record { live = none; calls = [] }

connect-Connects_example : Connects unreached [] (connect unreached (9 ∷ []) idle)
connect-Connects_example = connect-Connects unreached (9 ∷ []) idle refl

connect_streams_example :
    (s' : State) × (connect good (9 ∷ []) idle ≡ done (true, s'))
    × Agrees 1 (deliveries []) (stream_of 1 none stream) (send_all zeros stream s')
unfolding reached
connect_streams_example =
    connect_streams zeros zeros-Allocates good (9 ∷ []) 1 idle stream refl refl stream_fits

abbrev early_marker : List ℕ
early_marker = 7 ∷ 0 ∷ 0 ∷ 0 ∷ 0 ∷ 0 ∷ 1 ∷ 0x68 ∷ 5 ∷ []

save_sps_pps-kept_example :
    save_sps_pps early_marker 9 live ≡ kept early_marker (first_pps early_marker) live
save_sps_pps-kept_example = save_sps_pps-kept early_marker live (omega arith)

frame_body-AreBytes_example : GivesBytes (frame_body zeros (0x65 ∷ 255 ∷ 3 ∷ []) 2)
frame_body-AreBytes_example =
    frame_body-AreBytes zeros 0x65 (255 ∷ 3 ∷ []) 2 (omega arith) (omega arith)
      (omega arith, (omega arith, (omega arith, tt))) (zeros-Allocates 11)

-- With an object that was set.
abbrev ready_callback : Callback
ready_callback = record { has_class = true; calls = new_global_ref ∷ [] }
