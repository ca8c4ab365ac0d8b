-- ===== src/Camera/Parallel/Frames.antt =====
-- One turn of the camera thread of cpp/x264/Camera2ToolNative.cpp, while the stream runs.
use mathlib.Core.Path.{subst}
use android_study_rtmp_avcod.Common.{
  arith, suc, ◌+◌, length, ℕ, ◌≡◌, refl, sym, ap, ◌∙◌, append-nil, true, Option, none, some, List,
  [], ◌∷◌, ◌++◌, map, append_assoc, map-append, done,
}
use android_study_rtmp_avcod.Rtmp.{Rtmp, PacketAlloc, Allocates}
use android_study_rtmp_avcod.Flv.{Message}
use android_study_rtmp_avcod.Session.{Shared, Clock}
use android_study_rtmp_avcod.VideoEncode.{VideoEncode, planes_of}
use android_study_rtmp_avcod.VideoEncode.Queueing.{Nal, Locals, locals, begin_frame, queue_nal}
use android_study_rtmp_avcod.VideoEncode.Contract.{
  Sps, Encoded, nal_of, nals_of, AllFit, heard_of, Heard,
}
use android_study_rtmp_avcod.VideoEncode.Frames.{Holds}
use android_study_rtmp_avcod.VideoEncode.Encode.{begin_frame_copies}
use android_study_rtmp_avcod.VideoEncode.Single.{QueuesUnit, queue_nal-QueuesUnit}
use android_study_rtmp_avcod.Camera.Streaming.{Said, on_video, Means, picture, AllMean}
use android_study_rtmp_avcod.Camera.Streaming.Video.{video-Adds}
use android_study_rtmp_avcod.Camera.Schedule.{Serves}
use android_study_rtmp_avcod.Camera.Schedule.Order.{Serves-done}
use android_study_rtmp_avcod.Camera.Parallel.{
  Picture, System, start_picture, queue_unit, camera_turn,
}
use android_study_rtmp_avcod.Camera.Parallel.Runs.{
  as_feed, sound_as_feed, units_in, work, less, Runs, Advances, Advances-none, Advances-video,
}

module _ (alloc : PacketAlloc) (clock : Clock) (memory : (n : ℕ) → Allocates alloc n)
    (size uv max : ℕ) (r : Rtmp) where
  pub queue_unit_runs :
      (u : Encoded) (us : List Encoded) (e e' : VideoEncode) (b : Locals) (shared : Shared)
      (s : System)
      → s.camera.video ≡ some e
      → queue_nal alloc clock (nal_of u) (s.arrays, (e, s.camera.shared)) ≡ done (b, (e', shared))
      → queue_unit alloc clock (nal_of u) (record s { units = nals_of us })
        ≡ done (record s {
          units = nals_of us;
          camera = record s.camera { video = some e'; shared = shared };
          arrays = b;
        })
  queue_unit_runs u us e e' b shared s has_video runs = simp (has_video, runs)

  queue_unit-Advances :
      (u : Encoded) (us : List Encoded) (set : Option Sps) (now : List Message) (later : List Said)
      (all : List Heard) (video audio : List Said) (left : ℕ × ℕ) (s : System)
      → Serves size uv max r all s.place s.camera
      → Holds s.arrays set
      → AllFit (u ∷ us)
      → heard_of set (u ∷ us) ≡ some now
      → (frames : AllMean size uv max (map as_feed s.pictures) later)
      → AllMean size uv max (map sound_as_feed s.sounds) audio
      → video ≡ on_video now ++ later
      → left.0 ≡ suc (length us + work size uv max s.pictures later frames)
      → left.1 ≡ length s.sounds
      → Advances size uv max r all video audio
          (less left.0, left.1)
          (queue_unit alloc clock (nal_of u) (record s { units = nals_of us }))
  queue_unit-Advances u us set now later all video audio left s sv holds (fits, fit) says frames
        sounds splits frames_left sounds_left =
      advances (
        queue_nal-QueuesUnit alloc clock memory r u us s.arrays set sv.streams.video s.camera.shared
          now holds fits
          (record {
            has_queue = sv.streams.video_queue;
            has_rtmp = sv.streams.video_rtmp;
            works = sv.streams.works;
          })
          says)
    where
      advances :
          QueuesUnit alloc clock r u us s.arrays sv.streams.video s.camera.shared now
          → Advances size uv max r all video audio
              (less left.0, left.1)
              (queue_unit alloc clock (nal_of u) (record s { units = nals_of us }))
      advances q =
          let more =
            video-Adds alloc clock memory size uv max r s.camera sv.streams.video q.encoder q.shared
              q.said _ sv.streams sv.streams.is_open q.same q.usable q.heard refl in
          Advances-video size uv max r all video audio (on_video q.said) (on_video q.rest ++ later)
            (less left.0, left.1) _ _
            (queue_unit_runs u us sv.streams.video q.encoder q.arrays q.shared s
              sv.streams.has_video q.runs)
            (splits
              ∙ ap (λ l. on_video l ++ later) q.splits
              ∙ ap (λ l. l ++ later) (map-append (λ m. (10, m)) q.said q.rest)
              ∙ append_assoc (on_video q.said) (on_video q.rest) later)
            (record {
              serves = Serves-done size uv max r all (on_video q.said) s.place s.camera _ sv more;
              encoded = us;
              set = q.set;
              now = q.rest;
              later = later;
              has_units = refl;
              holds = q.holds;
              fit = fit;
              says = q.behind;
              frames = frames;
              sounds = sounds;
              splits = refl;
              frames_left = ap less frames_left;
              sounds_left = sounds_left;
            })

  start_picture_runs :
      (f : Picture) (e e' : VideoEncode) (nals : List Nal) (s : System)
      → s.camera.pushing ≡ true
      → begin_frame f.compress f.frame e ≡ done (nals, e')
      → start_picture f (some e) s
        ≡ done (record s {
          camera = record s.camera { video = some e' };
          units = nals;
          arrays = locals f.junk f.junk';
        })
  start_picture_runs f e e' nals s pushing runs = simp (pushing, runs)

  start_picture-Advances :
      (f : Picture) (fs : List Picture) (now later all : List Said) (heard : List Heard)
      (audio : List Said) (left : ℕ × ℕ) (s : System)
      → Serves size uv max r heard s.place s.camera
      → (means : Means size uv max (as_feed f) now)
      → (others : AllMean size uv max (map as_feed fs) later)
      → AllMean size uv max (map sound_as_feed s.sounds) audio
      → all ≡ now ++ later
      → left.0 ≡ suc (units_in size uv max (as_feed f) now means + work size uv max fs later others)
      → left.1 ≡ length s.sounds
      → Advances size uv max r heard all audio
          (less left.0, left.1)
          (start_picture f s.camera.video (record s { pictures = fs }))
  start_picture-Advances f fs now later all heard audio left s sv
        (picture compress us ms y u v behind junk junk' frame said ly lu lv frames lj lj' made fit
          contract says)
        others sounds splits frames_left sounds_left =
      Advances-none size uv max r heard all audio (less left.0, left.1) _ _
        (ap (λ x. start_picture f x (record s { pictures = fs })) sv.streams.has_video
          ∙ start_picture_runs f sv.streams.video _ _ (record s { pictures = fs })
              sv.streams.pushing
              (ap (λ l. begin_frame compress l sv.streams.video) frames
                ∙ begin_frame_copies compress y u v behind sv.streams.video
                    (rw (← ly, ← lu) at sv.streams.is_open) (lv ∙ sym lu)))
        (record {
          serves = there;
          encoded = us;
          set = none;
          now = ms;
          later = later;
          has_units = made;
          holds = (lj, lj', refl);
          fit = fit;
          says = contract;
          frames = others;
          sounds = sounds;
          splits = splits ∙ ap (λ l. l ++ later) says;
          frames_left = ap less frames_left;
          sounds_left = sounds_left;
        })
    where
      copied : VideoEncode
      copied = record sv.streams.video { input = some (planes_of y u v) }

      there : Serves size uv max r heard s.place (record s.camera { video = some copied })
      there =
          subst (λ l. Serves size uv max r l s.place (record s.camera { video = some copied }))
            (append-nil heard)
            (Serves-done size uv max r heard [] s.place s.camera _ sv (
              video-Adds alloc clock memory size uv max r s.camera copied copied s.camera.shared []
                _ sv.streams
                (record {
                  planes = planes_of y u v;
                  has_planes = refl;
                  has_size = sv.streams.is_open.has_size;
                  has_uv = sv.streams.is_open.has_uv;
                  has_encoder = sv.streams.is_open.has_encoder;
                })
                refl
                (record {
                  has_queue = sv.streams.video_queue;
                  has_rtmp = sv.streams.video_rtmp;
                  works = sv.streams.works;
                })
                (sym (append-nil _)) refl))

  -- A turn of the camera thread queues its next unit, or starts the next frame, or does nothing.
  pub camera_turn-Advances :
      (nals : List Nal) (us : List Encoded) (fs : List Picture) (heard : List Heard)
      (video audio : List Said) (left : ℕ × ℕ) (s : System)
      (rs : Runs size uv max r heard video audio left s)
      → nals ≡ nals_of us
      → AllFit us
      → heard_of rs.set us ≡ some rs.now
      → (frames : AllMean size uv max (map as_feed fs) rs.later)
      → left.0 ≡ length us + work size uv max fs rs.later frames
      → left.0 ≡ length us + work size uv max s.pictures rs.later rs.frames
      → Advances size uv max r heard video audio
          (less left.0, left.1)
          (camera_turn alloc clock nals fs s)
  unfolding heard_of
  camera_turn-Advances [] [] [] heard video audio left s rs made fit says frames e e' =
      Advances-none size uv max r heard video audio (less left.0, left.1) s _ refl
        (subst (λ k. Runs size uv max r heard video audio (k, left.1) s) (e ∙ sym (ap less e)) rs)
  camera_turn-Advances [] [] (f ∷ fs) heard video audio left s rs made fit says
        (ms, rest, means, others, parts) e e' =
      start_picture-Advances f fs ms rest video heard audio left s rs.serves means others rs.sounds
        (rs.splits ∙ ap (λ l. on_video l ++ rs.later) (nothing rs.now says) ∙ parts)
        (omega (arith, e)) rs.sounds_left
    where
      nothing : (now : List Message) → some [] ≡ some now → now ≡ []
      nothing now e = cc
  camera_turn-Advances [] (u ∷ us) fs heard video audio left s rs made fit says frames e e' =
      absurd cc
  camera_turn-Advances (nal ∷ nals) [] fs heard video audio left s rs made fit says frames e e' =
      absurd cc
  camera_turn-Advances (nal ∷ nals) (u ∷ us) fs heard video audio left s rs made fit says frames e
        e' =
      subst
        (λ l.
          Advances size uv max r heard video audio (less left.0, left.1)
            (camera_turn alloc clock l fs s))
        (sym made)
        (queue_unit-Advances u us rs.set rs.now rs.later heard video audio left s rs.serves rs.holds
          fit says rs.frames rs.sounds rs.splits (omega (arith, e')) rs.sounds_left)
