-- ===== src/Camera/Thread.antt =====
-- `threadRun` of cpp/x264/Camera2ToolNative.cpp, in the steps between which Java's calls can come.
use android_study_rtmp_avcod.Common.{
  ℕ, zero, suc, ◌∷◌, ◌++◌, true, Option, none, some, List, [], Run, done, Pointer, null, to, ◌>>=◌,
  if◌then◌else◌,
}
use android_study_rtmp_avcod.Rtmp.{
  Packet, Rtmp, Call, allocates, inits, sets_timeout, sets_url, enables_write, connects,
  connects_stream, sends, Answers, PacketAlloc,
}
use android_study_rtmp_avcod.SafeQueue.{SafeQueue, set_work, try_pop}
use android_study_rtmp_avcod.Session.{Clock, get_time}
use android_study_rtmp_avcod.VideoEncode.{non_null}
use android_study_rtmp_avcod.AudioEncode.{queue_acc_data_header}
use android_study_rtmp_avcod.Camera.{Camera, close_rtmp, release_packet}

-- Where the thread stands: before the connection; connected; before each of the statements that give
-- the encoders the handle, allow pushing, set the queue to work, give each encoder the queue and queue
-- the header; at the test of the loop; at `pop`; behind it; behind the loop; at the last `if`; at its
-- end.
pub data Position : Type 0 where
  starting : List ℕ → Position
  introducing allowing waking attaching_video attaching_audio heading testing taking checking :
      Position
  leaving ending finished : Position

-- The calls on the handle until one fails, and the id of the stream, unless one does.
unfoldable pub try_connect : Answers → List ℕ → List Call × Option ℕ
try_connect a url =
    if a.url_accepted
    then (if a.connected
        then (
          inits ∷ sets_timeout 10 ∷ sets_url url ∷ enables_write ∷ connects ∷ connects_stream ∷ [],
          a.stream,
        )
        else (inits ∷ sets_timeout 10 ∷ sets_url url ∷ enables_write ∷ connects ∷ [], none))
    else (inits ∷ sets_timeout 10 ∷ sets_url url ∷ [], none)

-- With a handle whose stream is `id`, behind the calls `calls`.
abbrev pub opened : ℕ → List Call → Camera → Camera
opened id calls c = record c {
  rtmp = some (record { stream_id = id });
  calls = c.calls ++ (allocates ∷ calls);
}

-- Behind the calls on the handle: the last `if`, or the encoders.
abbrev pub go_on : List Call → Option ℕ → Camera → Position × Camera
go_on calls none c = (ending, opened 0 calls c)
go_on calls (some id) c = (introducing, opened id calls c)

-- The start of the thread. A handle exists from `RTMP_Alloc` on. While its stream has no id the code
-- does not read it; it is 0 here.
unfoldable pub start : Answers → List ℕ → Camera → Position × Camera
start a url c =
    if a.allocated
    then (let (calls, stream) = try_connect a url in go_on calls stream c)
    else (ending, record c { rtmp = none; calls = c.calls ++ (allocates ∷ []) })

-- The value of the global `rtmp`.
abbrev pub handle_of : Option Rtmp → Pointer Rtmp
handle_of none = null
handle_of (some r) = to r

-- `setRtmp` on both encoders.
unfoldable pub introduce : Camera → Run Camera
introduce c = do
  video ← non_null c.video
  audio ← non_null c.audio
  done (record c {
    video = some (record video { rtmp = handle_of c.rtmp });
    audio = some (record audio { rtmp = handle_of c.rtmp });
  })

-- `readPushing = true; startTime = RTMP_GetTime();`
abbrev pub allow_pushing : Clock → Camera → Camera
allow_pushing clock c = record c {
  pushing = true;
  start_time = (get_time clock c.shared).0;
  shared = (get_time clock c.shared).1;
}

-- `packetQueue.setWork(1)`
abbrev pub wake : Camera → Camera
wake c = record c { shared = record c.shared { queue = set_work 1 c.shared.queue } }

-- `x264VideoEncode->setQueue(&packetQueue)`
unfoldable pub attach_video : Camera → Run Camera
attach_video c = do
  video ← non_null c.video
  done (record c { video = some (record video { queue = to tt }) })

-- `faacAudioEncode->setQueue(&packetQueue)`
unfoldable pub attach_audio : Camera → Run Camera
attach_audio c = do
  audio ← non_null c.audio
  done (record c { audio = some (record audio { queue = to tt }) })

-- `faacAudioEncode->queueAccDataHeader()`
unfoldable pub queue_header : PacketAlloc → Clock → Option (List ℕ) → Camera → Run Camera
queue_header alloc clock header c = do
  audio ← non_null c.audio
  (audio', s) ← queue_acc_data_header alloc clock header (audio, c.shared)
  done (record c { audio = some audio'; shared = s })

-- A step that ends at `p`.
abbrev pub to_position : Position → Run Camera → Run (Option (Position × Camera))
to_position p run = run >>= λ c. done (some (p, c))

-- Behind `pop`: the packet is sent, if there is one and the loop goes on.
unfoldable pub check : Camera → Run (Position × Camera)
check c =
    if c.tried
    then elim c.packet [
      | none ↦ done (leaving, c)
      | some p ↦ non_null c.rtmp >>= λ r.
          done (testing, release_packet (record c { calls = c.calls ++ (sends p ∷ []) }))
    ]
    else done (leaving, c)

-- The packet that `pop` gives, if any; otherwise `videoPacket` stays.
abbrev pub popped : Option Packet → Option Packet → Option Packet
popped none old = old
popped (some p) old = some p

-- `pop`, which waits or gives what it gives.
abbrev pub take : Option (Option Packet × SafeQueue Packet) → Camera → Option (Position × Camera)
take none c = none
take (some (value, queue)) c = some (
  checking,
  record c { packet = popped value c.packet; shared = record c.shared { queue = queue } },
)

-- One step of the thread; `none` where it waits or is at its end.
unfoldable pub thread_step :
    PacketAlloc
    → Clock
    → Answers
    → Option (List ℕ)
    → Position
    → Camera
    → Run (Option (Position × Camera))
thread_step alloc clock a header (starting url) c = done (some (start a url c))
thread_step alloc clock a header introducing c = to_position allowing (introduce c)
thread_step alloc clock a header allowing c = done (some (waking, allow_pushing clock c))
thread_step alloc clock a header waking c = done (some (attaching_video, wake c))
thread_step alloc clock a header attaching_video c = to_position attaching_audio (attach_video c)
thread_step alloc clock a header attaching_audio c = to_position heading (attach_audio c)
thread_step alloc clock a header heading c = to_position testing (queue_header alloc clock header c)
thread_step alloc clock a header testing c = done (some (if c.tried then taking else leaving, c))
thread_step alloc clock a header taking c = done (take (try_pop c.shared.queue) c)
thread_step alloc clock a header checking c = check c >>= λ r. done (some r)
thread_step alloc clock a header leaving c = done (some (ending, release_packet c))
thread_step alloc clock a header ending c =
    done (some (finished, if c.tried then close_rtmp c else c))
thread_step alloc clock a header finished c = done none

-- At most `n` steps; it stops where the thread waits.
unfoldable pub run_thread :
    PacketAlloc
    → Clock
    → Answers
    → Option (List ℕ)
    → ℕ
    → Position
    → Camera
    → Run (Position × Camera)
run_thread alloc clock a header zero p c = done (p, c)
run_thread alloc clock a header (suc n) p c =
    thread_step alloc clock a header p c
    >>= elim [ none ↦ done (p, c) | some r ↦ run_thread alloc clock a header n r.0 r.1 ]
