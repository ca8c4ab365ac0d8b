-- ===== src/Camera/Racing.antt =====
-- Data that comes between the first steps of the thread of cpp/x264/Camera2ToolNative.cpp.
use android_study_rtmp_avcod.Common.{
  ℕ, ◌^◌, ◌<◌, ◌≡◌, refl, sym, ap, ◌∙◌, true, some, List, [], ◌∷◌, ◌++◌, append-nil, append_assoc,
  map-append, length, Option, done, fault, unset, wild, to, ◌>>=◌,
}
use android_study_rtmp_avcod.Rtmp.{Rtmp, Answers, PacketAlloc, Allocates}
use android_study_rtmp_avcod.Flv.{aac_config}
use android_study_rtmp_avcod.SafeQueue.{set_work}
use android_study_rtmp_avcod.Session.{Clock}
use android_study_rtmp_avcod.VideoEncode.{VideoEncode, Planes, planes_of}
use android_study_rtmp_avcod.VideoEncode.Queueing.{Nal}
use android_study_rtmp_avcod.VideoEncode.Contract.{Encoded, nals_of, AllFit, hear_all}
use android_study_rtmp_avcod.VideoEncode.Encode.{IsOpen}
use android_study_rtmp_avcod.VideoEncode.Early.{HasMore, encode_data_early}
use android_study_rtmp_avcod.Camera.{Camera, native_send_preview_data}
use android_study_rtmp_avcod.Camera.Feed.{Feed, feed_all}
use android_study_rtmp_avcod.Camera.Thread.{
  starting, waking, attaching_video, heading, testing, try_connect, wake, to_position, thread_step,
  run_thread, opened,
}
use android_study_rtmp_avcod.Camera.Sending.{run_thread_goes, run_thread_stays}
use android_study_rtmp_avcod.Camera.Streaming.{Said, heard_on, AllMean, IsStreaming, Adds}
use android_study_rtmp_avcod.Camera.Streaming.Adding.{feed-Adds}
use android_study_rtmp_avcod.Camera.Heading.{queue_header-Adds}
use android_study_rtmp_avcod.Camera.Starting.{IsReady, wired-IsStreaming}
use android_study_rtmp_avcod.Camera.Steps.{
  allowed_camera, wired_camera, run_thread_allows, run_thread_wakes, run_thread_wires,
}

module _ (alloc : PacketAlloc) (clock : Clock) (a : Answers) (header : Option (List ℕ)) where
  -- A frame that comes to a camera that allows pushing and whose encoder has no queue.
  early_frame :
      (compress : Planes → List Nal) (us : List Encoded) (y u v behind junk junk' : List ℕ)
      (e : VideoEncode) (c : Camera)
      → c.pushing ≡ true
      → c.video ≡ some e
      → IsOpen (length y) (length u) e
      → e.queue ≡ wild
      → length v ≡ length u
      → length junk ≡ 100
      → length junk' ≡ 100
      → compress (planes_of y u v) ≡ nals_of us
      → AllFit us
      → HasMore us
      → native_send_preview_data alloc clock compress junk junk' (y ++ (u ++ (v ++ behind))) c
        ≡ fault unset
  unfolding native_send_preview_data
  early_frame compress us y u v behind junk junk' e c pushing has_video is_open early lv lj lj' made
        fit more =
      let crash =
        encode_data_early alloc clock compress us y u v behind junk junk' e c.shared is_open lv lj
          lj' made fit more early in
      simp (has_video, pushing, crash)

  -- On the first connection, whose encoder has no queue yet: the third step of the thread allows
  -- pushing, and a frame of which x264 makes more than sequence parameter sets, if it comes then, or
  -- behind the fourth step, reads the unset pointer of the queue. The connection succeeds and all units
  -- fit.
  pub early_frame_faults :
      (compress : Planes → List Nal) (us : List Encoded) (y u v behind junk junk' url : List ℕ)
      (id max : ℕ) (c : Camera) (ready : IsReady (length y) (length u) max c)
      → ready.video.queue ≡ wild
      → a.allocated ≡ true
      → (try_connect a url).1 ≡ some id
      → length v ≡ length u
      → length junk ≡ 100
      → length junk' ≡ 100
      → compress (planes_of y u v) ≡ nals_of us
      → AllFit us
      → HasMore us
      → (k : Camera) × (run_thread alloc clock a header 3 (starting url) c ≡ done (waking, k))
        × (run_thread alloc clock a header 4 (starting url) c ≡ done (attaching_video, wake k))
        × (native_send_preview_data alloc clock compress junk junk' (y ++ (u ++ (v ++ behind))) k
            ≡ fault unset)
        × (native_send_preview_data alloc clock compress junk junk'
              (y ++ (u ++ (v ++ behind)))
              (wake k)
            ≡ fault unset)
  early_frame_faults compress us y u v behind junk junk' url id max c ready early found reached lv
        lj lj' made fit more =
      (
        k,
        run_thread_allows alloc clock a header 0 url id c ready.video ready.audio found reached
              ready.has_video ready.has_audio
            ∙ run_thread_stays alloc clock a header waking k,
        run_thread_allows alloc clock a header 1 url id c ready.video ready.audio found reached
              ready.has_video ready.has_audio
            ∙ run_thread_wakes alloc clock a header 0 k
            ∙ run_thread_stays alloc clock a header attaching_video (wake k),
        early_frame compress us y u v behind junk junk' e k refl refl is_open early lv lj lj' made
            fit more,
        early_frame compress us y u v behind junk junk' e (wake k) refl refl is_open early lv lj lj'
            made fit more,
      )
    where
      e : VideoEncode
      e = record ready.video { rtmp = to (record { stream_id = id }) }

      k : Camera
      k =
          allowed_camera clock (record { stream_id = id }) ready.video ready.audio
            (opened id (try_connect a url).0 c)

      is_open : IsOpen (length y) (length u) e
      is_open = record {
        planes = ready.is_open.planes;
        has_planes = ready.is_open.has_planes;
        has_size = ready.is_open.has_size;
        has_uv = ready.is_open.has_uv;
        has_encoder = ready.is_open.has_encoder;
      }

module _ (alloc : PacketAlloc) (clock : Clock) (a : Answers)
    (memory : (n : ℕ) → Allocates alloc n) where
  pub feed_all-Adds :
      (size uv max : ℕ) (r : Rtmp) (fs : List Feed) (said : List Said) (c : Camera)
      → IsStreaming size uv max r c
      → AllMean size uv max fs said
      → Adds size uv max r said c (feed_all alloc clock fs c)
  feed_all-Adds size uv max r [] said c st nothing = rw nothing (record {
    after = c;
    ends = refl;
    streams = st;
    same_packet = refl;
    same_calls = refl;
    same_tried = refl;
    queue_grows = sym (append-nil _);
  })
  feed_all-Adds size uv max r (f ∷ fs) said c st (now, rest, means, mean, e) =
      let first = feed-Adds alloc clock memory size uv max r c f now st means in
      let last = feed_all-Adds size uv max r fs rest first.after first.streams mean in
      record {
        after = last.after;
        ends = ap (λ x. x >>= feed_all alloc clock fs) first.ends ∙ last.ends;
        streams = last.streams;
        same_packet = last.same_packet ∙ first.same_packet;
        same_calls = last.same_calls ∙ first.same_calls;
        same_tried = last.same_tried ∙ first.same_tried;
        queue_grows =
            last.queue_grows
            ∙ ap (λ l. l ++ heard_on r.stream_id rest) first.queue_grows
            ∙ append_assoc (hear_all c.shared.queue.items) (heard_on r.stream_id now)
                (heard_on r.stream_id rest)
            ∙ ap (λ l. hear_all c.shared.queue.items ++ l)
                (sym (map-append (λ m. (m.0, r.stream_id, some m.1)) now rest)
                  ∙ ap (heard_on r.stream_id) (sym e));
      }

  -- Data that comes behind the sixth step of a thread that connects, when both encoders have the queue,
  -- is queued before faac's header, which the seventh step queues. Both encoders are open, the connection
  -- succeeds, the header has fewer than 2 ^ 30 bytes, every call has a meaning and memory is found.
  pub data_overtakes_header :
      (input url : List ℕ) (id size uv max : ℕ) (c : Camera) (fs : List Feed) (said : List Said)
      → IsReady size uv max c
      → a.allocated ≡ true
      → (try_connect a url).1 ≡ some id
      → length input < 2 ^ 30
      → AllMean size uv max fs said
      → (w : Camera) × (k : Camera) × (c' : Camera) × (run_thread alloc clock a
            (some input)
            6
            (starting url)
            c
          ≡ done (heading, w))
        × (feed_all alloc clock fs w ≡ done k)
        × (run_thread alloc clock a (some input) 1 heading k ≡ done (testing, c'))
        × (hear_all c'.shared.queue.items ≡ heard_on id (said ++ ((11, aac_config input) ∷ [])))
  unfolding thread_step set_work
  data_overtakes_header input url id size uv max c fs said ready found reached small mean =
      let fed =
        feed_all-Adds size uv max (record { stream_id = id }) fs said w
          (wired-IsStreaming clock (try_connect a url).0 id size uv max c ready) mean in
      let headed =
        queue_header-Adds alloc clock memory size uv max (record { stream_id = id }) fed.after input
          fed.streams small in
      (
        w,
        fed.after,
        headed.after,
        run_thread_wires alloc clock a (some input) 0 url id c ready.video ready.audio found reached
              ready.has_video ready.has_audio
            ∙ run_thread_stays alloc clock a (some input) heading w,
        fed.ends,
        run_thread_goes alloc clock a (some input) 0 heading testing fed.after headed.after
              (ap (to_position testing) headed.ends)
            ∙ run_thread_stays alloc clock a (some input) testing headed.after,
        headed.queue_grows
            ∙ ap (λ l. l ++ heard_on id ((11, aac_config input) ∷ [])) fed.queue_grows
            ∙ ap
                (λ l. (hear_all l ++ heard_on id said) ++ heard_on id ((11, aac_config input) ∷ []))
                ready.no_items
            ∙ sym (map-append (λ m. (m.0, id, some m.1)) said ((11, aac_config input) ∷ [])),
      )
    where
      w : Camera
      w =
          wired_camera clock (record { stream_id = id }) ready.video ready.audio
            (opened id (try_connect a url).0 c)
