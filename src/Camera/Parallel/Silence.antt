-- ===== src/Camera/Parallel/Silence.antt =====
-- Behind a call of `nativeStop` of cpp/x264/Camera2ToolNative.cpp nothing is sent.
use mathlib.Core.Path.{subst}
use android_study_rtmp_avcod.Common.{
  ℕ, ◌≡◌, refl, sym, ap, ◌∙◌, false, Option, some, List, [], ◌∷◌, ◌++◌, append-nil, Run, done,
  ◌>>=◌,
}
use android_study_rtmp_avcod.Rtmp.{Rtmp, Call, Answers, PacketAlloc, Allocates}
use android_study_rtmp_avcod.Session.{Clock}
use android_study_rtmp_avcod.VideoEncode.{VideoEncode}
use android_study_rtmp_avcod.VideoEncode.Queueing.{Nal}
use android_study_rtmp_avcod.VideoEncode.Contract.{
  Encoded, nal_of, nals_of, AllFit, heard_of, Heard,
}
use android_study_rtmp_avcod.VideoEncode.Single.{QueuesUnit, queue_nal-QueuesUnit}
use android_study_rtmp_avcod.Camera.{native_stop}
use android_study_rtmp_avcod.Camera.Feed.{feed_nothing}
use android_study_rtmp_avcod.Camera.Streaming.{Said}
use android_study_rtmp_avcod.Camera.Schedule.{InLoop, at_test, at_pop, behind_pop}
use android_study_rtmp_avcod.Camera.Parallel.{
  Picture, Sound, System, Who, camera_thread, audio_thread, sender, start_picture, queue_unit,
  camera_turn, audio_turn, step, run_all,
}
use android_study_rtmp_avcod.Camera.Parallel.Runs.{sound_as_feed, Runs}
use android_study_rtmp_avcod.Camera.Parallel.Frames.{queue_unit_runs}
use android_study_rtmp_avcod.Camera.Parallel.Halting.{
  Late, late_test, late_pop, late_check, frees_of, Halts, sender-Moves,
}

module _ (alloc : PacketAlloc) (clock : Clock) (a : Answers) (header : Option (List ℕ)) (r : Rtmp)
    (before : List Call) where
  -- A turn that goes well.
  abbrev GoesOn : Run System → Type 0
  GoesOn run = (s : System) × (run ≡ done s) × Halts r before s

  no_picture :
      (f : Picture) (e : VideoEncode) (s : System)
      → s.camera.pushing ≡ false
      → start_picture f (some e) s ≡ done s
  no_picture f e s quiet = simp quiet

  -- The frames and samples that are left are not the invariant's concern.
  with_rest :
      (s : System) (fs : List Picture) (xs : List Sound)
      → Halts r before s
      → Halts r before (record s { pictures = fs; sounds = xs })
  with_rest s fs xs hs = record {
    stopped = hs.stopped;
    quiet = hs.quiet;
    has_rtmp = hs.has_rtmp;
    video = hs.video;
    has_video = hs.has_video;
    usable = hs.usable;
    encoded = hs.encoded;
    set = hs.set;
    now = hs.now;
    has_units = hs.has_units;
    holds = hs.holds;
    fit = hs.fit;
    says = hs.says;
    late = hs.late;
    freed = hs.freed;
    accounted = hs.accounted;
  }

  module _ (memory : (n : ℕ) → Allocates alloc n) where
    unit_goes :
        (u : Encoded) (us : List Encoded) (s : System) (hs : Halts r before s)
        → AllFit (u ∷ us)
        → heard_of hs.set (u ∷ us) ≡ some hs.now
        → GoesOn (queue_unit alloc clock (nal_of u) (record s { units = nals_of us }))
    unit_goes u us s hs (fits, fit) says = goes_on (
        queue_nal-QueuesUnit alloc clock memory r u us s.arrays hs.set hs.video s.camera.shared
          hs.now hs.holds fits hs.usable says)
      where
        goes_on :
            QueuesUnit alloc clock r u us s.arrays hs.video s.camera.shared hs.now
            → GoesOn (queue_unit alloc clock (nal_of u) (record s { units = nals_of us }))
        goes_on q = (
          _,
          queue_unit_runs alloc clock memory 0 0 0 r u us hs.video q.encoder q.arrays q.shared s
              hs.has_video q.runs,
          record {
            stopped = hs.stopped;
            quiet = hs.quiet;
            has_rtmp = hs.has_rtmp;
            video = q.encoder;
            has_video = refl;
            usable = q.usable;
            encoded = us;
            set = q.set;
            now = q.rest;
            has_units = refl;
            holds = q.holds;
            fit = fit;
            says = q.behind;
            late = hs.late;
            freed = hs.freed;
            accounted = hs.accounted;
          },
        )

    camera_goes :
        (nals : List Nal) (us : List Encoded) (fs : List Picture) (s : System)
        (hs : Halts r before s)
        → nals ≡ nals_of us
        → AllFit us
        → heard_of hs.set us ≡ some hs.now
        → GoesOn (camera_turn alloc clock nals fs s)
    camera_goes [] us [] s hs made fit says = (s, refl, hs)
    camera_goes [] us (f ∷ fs) s hs made fit says = (
      record s { pictures = fs },
      ap (λ x. start_picture f x (record s { pictures = fs })) hs.has_video
          ∙ no_picture f hs.video (record s { pictures = fs }) hs.quiet,
      with_rest s fs s.sounds hs,
    )
    camera_goes (nal ∷ nals) [] fs s hs made fit says = absurd cc
    camera_goes (nal ∷ nals) (u ∷ us) fs s hs made fit says =
        subst (λ l. GoesOn (camera_turn alloc clock l fs s)) (sym made)
          (unit_goes u us s hs fit says)

    audio_goes :
        (xs : List Sound) (s : System) → Halts r before s → GoesOn (audio_turn alloc clock xs s)
    audio_goes [] s hs = (s, refl, hs)
    audio_goes (x ∷ xs) s hs = (
      record s { sounds = xs },
      ap (λ k. k >>= λ c. done (record s { camera = c; sounds = xs }))
          (feed_nothing alloc clock (sound_as_feed x) s.camera hs.quiet),
      with_rest s s.pictures xs hs,
    )

    step_goes : (w : Who) (s : System) → Halts r before s → GoesOn (step alloc clock a header w s)
    step_goes camera_thread s hs =
        camera_goes s.units hs.encoded s.pictures s hs hs.has_units hs.fit hs.says
    step_goes audio_thread s hs = audio_goes s.sounds s hs
    step_goes sender s hs =
        let (p, c, runs, there) = sender-Moves alloc clock a header r before s s.place hs.late hs in
        (
          record s { place = p; camera = c },
          ap (λ x. x >>= λ k. done (record s { place = k.0; camera = k.1 })) runs,
          there,
        )

    run_all_goes :
        (ws : List Who) (s : System) → Halts r before s → GoesOn (run_all alloc clock a header ws s)
    run_all_goes [] s hs = (s, refl, hs)
    run_all_goes (w ∷ ws) s hs =
        let (s', runs, there) = step_goes w s hs in
        let (s'', runs', last) = run_all_goes ws s' there in
        (s'', ap (λ x. x >>= run_all alloc clock a header ws) runs ∙ runs', last)

    Runs-Halts :
        (size uv max : ℕ) (all : List Heard) (video audio : List Said) (left : ℕ × ℕ) (s : System)
        → before ≡ s.camera.calls
        → Runs size uv max r all video audio left s
        → Halts r before (record s { camera = native_stop s.camera })
    unfolding native_stop
    Runs-Halts size uv max all video audio left s e rs = record {
      stopped = refl;
      quiet = refl;
      has_rtmp = rs.serves.streams.has_rtmp;
      video = rs.serves.streams.video;
      has_video = rs.serves.streams.has_video;
      usable = record {
        has_queue = rs.serves.streams.video_queue;
        has_rtmp = rs.serves.streams.video_rtmp;
        works = rs.serves.streams.works;
      };
      encoded = rs.encoded;
      set = rs.set;
      now = rs.now;
      has_units = rs.has_units;
      holds = rs.holds;
      fit = rs.fit;
      says = rs.says;
      late = by_place rs.serves.in_loop;
      freed = 0;
      accounted = sym e ∙ sym (append-nil before);
    }
      where
        by_place : InLoop s.place s.camera → Late s.place
        by_place (at_test here no_packet) = subst Late (sym here) late_test
        by_place (at_pop here no_packet) = subst Late (sym here) late_pop
        by_place (behind_pop packet here has_packet) = subst Late (sym here) late_check

-- Java stops a stream that runs, wherever its three threads are: however their turns go on, none fails,
-- and of librtmp nothing is asked but to free packets, so that nothing more is sent, and the connection
-- is neither closed nor freed. Every frame that is under way has a meaning, and memory is found.
pub native_stop_silences :
    (alloc : PacketAlloc) (clock : Clock) (a : Answers) (header : Option (List ℕ))
    (memory : (n : ℕ) → Allocates alloc n) (size uv max : ℕ) (r : Rtmp) (all : List Heard)
    (video audio : List Said) (left : ℕ × ℕ) (s : System) (ws : List Who)
    → Runs size uv max r all video audio left s
    → (s' : System) × (n : ℕ) × (run_all alloc clock a header ws
          (record s { camera = native_stop s.camera })
        ≡ done s')
      × (s'.camera.calls ≡ s.camera.calls ++ frees_of n)
      × (s'.camera.rtmp ≡ some r)
native_stop_silences alloc clock a header memory size uv max r all video audio left s ws rs =
    let (s', runs, hs) =
      run_all_goes alloc clock a header r s.camera.calls memory ws
        (record s { camera = native_stop s.camera })
        (Runs-Halts alloc clock a header r s.camera.calls memory size uv max all video audio left s
          refl rs) in
    (s', hs.freed, runs, hs.accounted, hs.has_rtmp)
