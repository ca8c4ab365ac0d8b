-- ===== src/Lib.antt =====
-- Verification of the native streaming code of the Android study project (app/src/main/jni).
--
-- Two ways lead from Java to an RTMP server.
--  * The screen's stream, cpp/rtmp/RtmpLive.cpp: Java hands over units that the device's encoder made,
--    `sendData` packs each into RTMP packets and sends them at once. Live.antt models it: `connect`,
--    `send_data`, `send_video`, `send_audio`, `save_sps_pps`, `create_sps_pps_packet`,
--    `create_frame_packet` and `send_packet` are the functions of these names.
--  * The camera's stream, cpp/x264/Camera2ToolNative.cpp: frames go through x264
--    (cpp/x264/X264VideoEncode.cpp), samples through faac (cpp/x264/FAACAudioEncode.cpp), both encoders
--    put packets into one SafeQueue (head/x264/safe_queue.h), and a thread takes them out and sends
--    them. VideoEncode.antt and VideoEncode/Queueing.antt, AudioEncode.antt, SafeQueue.antt and
--    Camera.antt with Camera/Thread.antt model these files, method for method; Session.antt holds what
--    an encoder shares with the thread, the queue and the clock.
--    Camera/Setup.antt has Java's calls before a stream, Camera/Feed.antt those with data,
--    Camera/Schedule.antt any order of them and of the thread's steps, Camera/Steps.antt,
--    Camera/Heading.antt, Camera/Starting.antt, Camera/Connecting.antt and Camera/Stopping.antt how
--    a thread starts, fails and is stopped, Camera/Releasing.antt what a release does,
--    Camera/Racing.antt data that comes while the thread starts, Camera/Streaming.antt and its
--    children what a call with data adds, and Camera/Pipeline.antt puts the parts together.
--    VideoEncode/Ready.antt, Early.antt and Sets.antt are on an encoder that did not open, has no
--    queue yet, or gets long parameter sets, VideoEncode/Single.antt on one unit of a frame,
--    VideoEncode/Times.antt and Stamps.antt on the times of its packets. Camera/Parallel.antt lets
--    Java's camera thread, Java's audio thread and the thread that sends take turns in any order;
--    its children are on one turn (Runs.antt, Frames.antt, Turns.antt), on all turns (Merging.antt), on a whole session (Session.antt) and on the
--    turns behind a stop (Halting.antt, Silence.antt).
--    Camera/World.antt has all of Java's calls, the initialisation and the release among them, in any
--    order with the steps of any number of sending threads, since a new start makes one more thread
--    while an old one may still wait: World/Calls.antt, Steps.antt and Packed.antt are on the fields
--    of all packets, World/Alone.antt on one thread among others, World/Threads.antt and
--    Restarting.antt on two.
--    Common/Merges.antt has the interleavings of two lists.
-- Live/Connect.antt and Live/Stream.antt are on a connection and the stream behind it, Live/Save.antt
-- and Live/Search.antt on the search for parameter sets, Packing/Bounds.antt on the numbers in a body.
-- What fits a packet's record is said in Packing/Packed.antt, for bodies, and Packing/Typed.antt, for
-- packets, queues and calls; Live/Packed.antt, VideoEncode/Packed.antt and AudioEncode/Packed.antt are
-- on the functions that make packets, Live/Asked.antt on any calls of RtmpLive.cpp. Common/Logic.antt
-- has the rules for what holds of the value of a run, and Common/Bytes.antt these rules for buffers.
-- Jpeg.antt models the packing of a bitmap and the rows given to libjpeg (cpp/jpeg/Play.cpp), and
-- Callback.antt the call of a Java method from any thread (cpp/x264/CallbackFromJniUtil.cpp), which
-- nothing uses; Callback/Attaching.antt is on the thread of that call.
--
-- Both ways store the same bytes into a packet's body; Packing.antt has these stores once.
--
-- What a packet is worth is said by its reader: Flv.antt reads the body of an FLV video or audio tag,
-- as a server does, and follows the format, not the code. Delivery.antt reads packets and calls with
-- it. Muxer.antt and VideoEncode/Contract.antt are the contracts: lists of messages for lists of
-- units, with no bytes, buffers or packets in them.
--
-- C memory (Common/Memory.antt): a byte is its bit pattern, a buffer the list of its bytes, and what C
-- leaves undefined is a fault that ends the run: a null or unset pointer, an access outside a buffer,
-- a signed overflow. A length is a natural number; where the source's `int` would be negative the
-- subtraction faults, since the length goes on to `memcpy`. `malloc`, `new` and `calloc` find memory,
-- `pthread_create` makes its thread, and the planes that `x264_picture_alloc` gave have room for those of
-- a frame, so that the copies into them are not bounded.
-- RTMP_GetTime and the time of a packet wrap at 2 ^ 32. Freed memory is not tracked: a handle that was
-- freed is seen only where the code holds the pointer that it sets to null.
--
-- librtmp, x264, faac, JNI and libjpeg are not modelled, being other projects' code: their answers
-- are arguments, and RTMPPacket_Alloc is assumed to give a body of the size that it was asked for
-- (`Allocates`; `BufferOf`, where it may also fail). The calls of librtmp are recorded in their
-- order. The mutex of SafeQueue makes each method one step; SafeQueue/Monitor.antt lets any number
-- of threads interleave these steps with one that takes. `threadRun` is cut into the steps of
-- Camera/Thread.antt: connecting, the two calls of `setRtmp`, `readPushing` with the time,
-- `setWork(1)`, each `setQueue`, faac's header, the test of the loop, `pop`, and what is behind it.
-- Java's calls come between these steps, not inside them. In Camera/Schedule.antt and
-- Camera/World.antt they are whole; in Camera/Parallel.antt a call with a frame is cut in front of
-- each unit that x264 made, so that the thread's steps and calls with samples come between the
-- units; what is inside one round of that loop, and a call with samples, is one step, of which the
-- queue's `push` is the part that the others see, but for the number of readings of the clock.
-- `run_thread` does at most `n` of them and ends where the thread waits, and three for each packet
-- and three more are enough from any place in the loop.
-- The loop of saveSPSAndPPS is recursion on the rounds that are left, the data's length at first.
-- The loop of jpeg_compress is recursion on the tests of its condition, one more than the rows being
-- enough if libjpeg takes each row.
-- Logging is left out, but for the functions that do nothing else (`testX264`, `play` and
-- `getFaacVersion`, in Logging.antt), and the Java application is not modelled.
pub mod Common
pub mod Rtmp
pub mod Packing
pub mod Flv
pub mod Delivery
pub mod Muxer
pub mod Live
pub mod SafeQueue
pub mod Session
pub mod VideoEncode
pub mod AudioEncode
pub mod Camera
pub mod Jpeg
pub mod Callback
pub mod Logging
pub mod Tests
