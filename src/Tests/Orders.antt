-- ===== src/Tests/Orders.antt =====
-- The theorems on calls in any order and on several threads, at concrete inputs.
use android_study_rtmp_avcod.Common.{
  ℕ, ◌≡◌, refl, true, none, some, List, [], ◌∷◌, ◌++◌, arith, map, done, fault, null_pointer,
  Ensures, AreBytes,
}
use android_study_rtmp_avcod.Rtmp.{sends, frees_packet, closes, frees}
use android_study_rtmp_avcod.Flv.{aac_config, aac_frame}
use android_study_rtmp_avcod.Packing.Packed.{BufferOf}
use android_study_rtmp_avcod.Packing.Typed.{SendsPackets}
use android_study_rtmp_avcod.Live.Asked.{
  Ask, connecting, sending, BringsBytes, unused, ask_all, ask_all-SendsPackets,
}
use android_study_rtmp_avcod.VideoEncode.Contract.{nals_of, hear_all}
use android_study_rtmp_avcod.VideoEncode.{Planes}
use android_study_rtmp_avcod.AudioEncode.{calloc}
use android_study_rtmp_avcod.AudioEncode.Packed.{calloc-IsBuffer}
use android_study_rtmp_avcod.Camera.{Camera}
use android_study_rtmp_avcod.Camera.Feed.{Feed, samples}
use android_study_rtmp_avcod.Camera.Sending.{holding}
use android_study_rtmp_avcod.Camera.Streaming.{Said, heard_on, AllMean, sound}
use android_study_rtmp_avcod.Camera.Thread.{testing, taking, finished}
use android_study_rtmp_avcod.Camera.World.Alone.{brings}
use android_study_rtmp_avcod.Camera.World.{
  Event, inits_video, inits_audio, stops, releases, opens_audio, opens_video, starts,
  brings_picture, brings_samples, turn, fresh, act_all,
}
use android_study_rtmp_avcod.Camera.World.Packed.{AllGiveBytes, PacketsFit, act_all-PacketsFit}
use android_study_rtmp_avcod.Camera.World.Threads.{two, turns, threads_crash}
use android_study_rtmp_avcod.Camera.World.Restarting.{restart, restart_crashes}
use android_study_rtmp_avcod.Tests.{zeros, zeros-Allocates, ticks, rtmp, keep}
use android_study_rtmp_avcod.VideoEncode.Packed.{UnitsFit}
use android_study_rtmp_avcod.Tests.Encoder.{units, makes}
use android_study_rtmp_avcod.Tests.Thread.{good, packet}
use android_study_rtmp_avcod.Tests.Pipeline.{
  x264_opens, faac_opens, live_camera, live_camera_streams, reached,
}

zeros-BufferOf : (n : ℕ) → BufferOf n (zeros n)
zeros-BufferOf n = calloc-IsBuffer n

-- A connection, both parameter sets in one array, a key frame and samples.
abbrev asks : List Ask
asks =
    connecting good (9 ∷ [])
    ∷ sending (0 ∷ 0 ∷ 0 ∷ 1 ∷ 0x67 ∷ 66 ∷ 0 ∷ 31 ∷ 0 ∷ 0 ∷ 0 ∷ 1 ∷ 0x68 ∷ 5 ∷ []) 14 0 0
    ∷ sending (0 ∷ 0 ∷ 0 ∷ 1 ∷ 0x65 ∷ 8 ∷ []) 6 40 0
    ∷ sending (3 ∷ 4 ∷ []) 2 41 2
    ∷ []

asks-BringsBytes : BringsBytes asks
asks-BringsBytes = grind arith

ask_all-SendsPackets_example : Ensures (λ s. SendsPackets s.calls) (ask_all zeros asks unused)
ask_all-SendsPackets_example = ask_all-SendsPackets zeros zeros-BufferOf asks asks-BringsBytes

abbrev step : Event
step = turn good (some (18 ∷ 16 ∷ [])) 0

-- A whole session: the encoders, a connection, data, a stop and a release.
abbrev session : List Event
session =
    inits_video
    ∷ opens_video x264_opens 2 2 30 4096
    ∷ inits_audio
    ∷ opens_audio faac_opens 44100 2
    ∷ starts (9 ∷ [])
    ∷ step
    ∷ step
    ∷ step
    ∷ step
    ∷ step
    ∷ step
    ∷ step
    ∷ brings_picture makes (calloc 100) (calloc 100) (1 ∷ 2 ∷ 3 ∷ 4 ∷ 5 ∷ 6 ∷ [])
    ∷ step
    ∷ step
    ∷ step
    ∷ brings_samples keep (3 ∷ 4 ∷ []) 1
    ∷ step
    ∷ step
    ∷ step
    ∷ stops
    ∷ releases
    ∷ []

header_bytes : AreBytes (18 ∷ 16 ∷ [])
header_bytes = ground arith

makes_bytes : UnitsFit (nals_of units)
makes_bytes = grind arith

session-AllGiveBytes : AllGiveBytes session
session-AllGiveBytes =
    let array = (calloc-IsBuffer 100).0 in
    let view : (p : Planes) → UnitsFit (makes p) = λ p. makes_bytes in grind (arith, array, view)

act_all-PacketsFit_example : Ensures PacketsFit (act_all zeros ticks session fresh)
act_all-PacketsFit_example =
    act_all-PacketsFit zeros zeros-BufferOf ticks session session-AllGiveBytes

abbrev shared_camera : Camera
shared_camera = record live_camera {
  shared = record live_camera.shared {
    queue = record live_camera.shared.queue { items = packet 1 ∷ packet 2 ∷ packet 3 ∷ [] };
  };
}

threads_crash_example :
    (act_all zeros ticks
        (turns good none (0 ∷ 1 ∷ 0 ∷ 1 ∷ 1 ∷ 1 ∷ []))
        (two taking taking shared_camera)
      ≡ done (
          two testing finished
            (record (holding rtmp
              (packet 3 ∷ [])
              (sends (packet 2) ∷ frees_packet ∷ closes ∷ frees ∷ [])
              shared_camera) { rtmp = none })))
    × (act_all zeros ticks
          (turns good none (0 ∷ 1 ∷ 0 ∷ 1 ∷ 1 ∷ 1 ∷ 0 ∷ 0 ∷ 0 ∷ []))
          (two taking taking shared_camera)
        ≡ fault null_pointer)
threads_crash_example =
    threads_crash zeros ticks good none rtmp shared_camera (packet 1) (packet 2) (packet 3) [] refl
      refl refl refl refl

abbrev note_said : List Said
note_said = (11, aac_frame (3 ∷ 4 ∷ [])) ∷ []

abbrev notes : List Feed
notes = samples keep (3 ∷ 4 ∷ []) 1 ∷ samples keep (3 ∷ 4 ∷ []) 1 ∷ []

notes-AllMean : AllMean 4 1 4 notes (note_said ++ note_said)
notes-AllMean = (
  note_said,
  note_said,
  sound keep (3 ∷ 4 ∷ []) 1 3 (4 ∷ []) note_said refl (omega arith) (omega arith) refl,
  (
    note_said,
    [],
    sound keep (3 ∷ 4 ∷ []) 1 3 (4 ∷ []) note_said refl (omega arith) (omega arith) refl,
    refl,
    refl,
  ),
  refl,
)

restart_crashes_example :
    (k : Camera) × (act_all zeros ticks
        (restart good (9 ∷ []) (18 ∷ 16 ∷ [])
          ++ (map brings notes ++ turns good (some (18 ∷ 16 ∷ [])) (1 ∷ [])))
        (record { camera = live_camera; threads = taking ∷ [] })
      ≡ done (two taking taking k))
    × (k.tried ≡ true)
    × (hear_all k.shared.queue.items
        ≡ heard_on 1 ((11, aac_config (18 ∷ 16 ∷ [])) ∷ (note_said ++ note_said)))
    × (act_all zeros ticks
          (restart good (9 ∷ []) (18 ∷ 16 ∷ [])
            ++ (map brings notes
                ++ turns good (some (18 ∷ 16 ∷ [])) (1 ∷ 0 ∷ 1 ∷ 0 ∷ 1 ∷ 1 ∷ 1 ∷ 0 ∷ 0 ∷ 0 ∷ [])))
          (record { camera = live_camera; threads = taking ∷ [] })
        ≡ fault null_pointer)
restart_crashes_example =
    restart_crashes zeros ticks good zeros-Allocates (18 ∷ 16 ∷ []) (9 ∷ []) 1 4 1 4 rtmp
      live_camera notes (11, aac_frame (3 ∷ 4 ∷ [])) (11, aac_frame (3 ∷ 4 ∷ [])) []
      live_camera_streams refl refl refl reached (omega arith) notes-AllMean
