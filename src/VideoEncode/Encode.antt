-- ===== src/VideoEncode/Encode.antt =====
-- A whole call of `encodeData`, and the end of an encoder's life.
use mathlib.Core.Path.{subst}
use android_study_rtmp_avcod.Common.{
  ap, ◌>>=◌, sym, ℕ, ◌+◌, ◌≡◌, refl, true, false, none, some, List, [], ◌∷◌, ◌++◌, append_assoc,
  arith, length, length-append, done, fault, unset, null_pointer, wild, null, to, advance,
  advance-append, load_all-append, if◌then◌else◌,
}
use android_study_rtmp_avcod.Rtmp.{Rtmp, PacketAlloc, Allocates, Packet}
use android_study_rtmp_avcod.SafeQueue.{SafeQueue, set_work}
use android_study_rtmp_avcod.SafeQueue.Effects.{clear_faults, clear_releases}
use android_study_rtmp_avcod.Session.{Shared, Clock}
use android_study_rtmp_avcod.VideoEncode.{VideoEncode, Planes, planes_of, closes}
use android_study_rtmp_avcod.VideoEncode.Queueing.{
  Locals, Nal, locals, begin_frame, encode_data, queue_nals, destroy,
}
use android_study_rtmp_avcod.VideoEncode.Units.{IsUsable}
use android_study_rtmp_avcod.VideoEncode.Contract.{Encoded, nals_of, AllFit, heard_of, hear_all}
use android_study_rtmp_avcod.VideoEncode.Frames.{Agrees, queue_nals-Agrees}

-- The encoder is open for frames of `size` luma bytes and twice `uv` chroma bytes.
pub record IsOpen (size uv : ℕ) (e : VideoEncode) : Type 0 where
  pub planes : Planes
  pub has_planes : e.input ≡ some planes
  pub has_size : e.y_size ≡ some size
  pub has_uv : e.uv_size ≡ some uv
  pub has_encoder : e.encoder ≡ true

-- The three planes of a frame are copied, and x264 makes units of them.
pub begin_frame_copies :
    (compress : Planes → List Nal) (y u v behind : List ℕ) (e : VideoEncode)
    → IsOpen (length y) (length u) e
    → length v ≡ length u
    → begin_frame compress (y ++ (u ++ (v ++ behind))) e
      ≡ done (compress (planes_of y u v), record e { input = some (planes_of y u v) })
unfolding begin_frame
begin_frame_copies compress y u v behind e o ev =
    subst
      (λ k.
        begin_frame compress (y ++ (u ++ (v ++ behind))) k
        ≡ done (compress (planes_of y u v), record k { input = some (planes_of y u v) }))
      whole
      (rw (
        load_all-append y (u ++ (v ++ behind)) (length y) refl,
        advance-append y (u ++ (v ++ behind)) (length y) refl,
        load_all-append u (v ++ behind) (length u) refl,
        to_v,
        load_all-append v behind (length u) (sym ev),
      ))
  where
    whole :
        record e {
          encoder = true;
          input = some o.planes;
          y_size = some (length y);
          uv_size = some (length u);
        }
        ≡ e
    whole = λ i. record e {
      encoder = sym o.has_encoder i;
      input = sym o.has_planes i;
      y_size = sym o.has_size i;
      uv_size = sym o.has_uv i;
    }

    to_v : advance (y ++ (u ++ (v ++ behind))) (length y + length u) ≡ done (v ++ behind)
    to_v = rw (← append_assoc y u (v ++ behind)) (
        advance-append (y ++ u) (v ++ behind) (length y + length u)
          (omega (arith, length-append y u)))

-- They go through the loop.
pub encode_data_copies :
    (alloc : PacketAlloc) (clock : Clock) (compress : Planes → List Nal) (b : Locals)
    (y u v behind : List ℕ) (e : VideoEncode) (s : Shared)
    → IsOpen (length y) (length u) e
    → length v ≡ length u
    → encode_data alloc clock compress b (y ++ (u ++ (v ++ behind))) (e, s)
      ≡ queue_nals alloc clock
          (compress (planes_of y u v))
          (b, (record e { input = some (planes_of y u v) }, s))
unfolding encode_data
encode_data_copies alloc clock compress b y u v behind e s o ev =
    ap (λ x. x >>= λ r. queue_nals alloc clock r.0 (b, (r.1, s)))
      (begin_frame_copies compress y u v behind e o ev)

-- An encoder that is open for the frame's size, with a queue that works and a connection, gives x264
-- exactly the three planes of the frame, and of the packets that are queued a server hears what the
-- contract says of the units that x264 makes, if these fit, whatever stood in the two arrays of 100
-- bytes and behind the frame.
pub encode_data-Agrees :
    (alloc : PacketAlloc) (clock : Clock) (memory : (n : ℕ) → Allocates alloc n)
    (compress : Planes → List Nal) (us : List Encoded) (y u v behind junk junk' : List ℕ) (r : Rtmp)
    (e : VideoEncode) (s : Shared)
    → IsOpen (length y) (length u) e
    → length v ≡ length u
    → length junk ≡ 100
    → length junk' ≡ 100
    → compress (planes_of y u v) ≡ nals_of us
    → AllFit us
    → IsUsable r e s
    → Agrees r
        (record e { input = some (planes_of y u v) })
        (hear_all s.queue.items)
        (heard_of none us)
        (encode_data alloc clock compress (locals junk junk') (y ++ (u ++ (v ++ behind))) (e, s))
encode_data-Agrees alloc clock memory compress us y u v behind junk junk' r e s o ev ej ej' made f
      v0 =
    rw (encode_data_copies alloc clock compress (locals junk junk') y u v behind e s o ev, made)
      (queue_nals-Agrees alloc clock memory r us (locals junk junk') none
        (record e { input = some (planes_of y u v) }) s (ej, ej', refl) f
        (record { has_queue = v0.has_queue; has_rtmp = v0.has_rtmp; works = v0.works }))

-- An encoder that was never given a connection cannot be destroyed: its member was never set, and the
-- destructor reads it.
destroy-unset : (e : VideoEncode) (s : Shared) → e.rtmp ≡ wild → destroy (e, s) ≡ fault unset
unfolding destroy
destroy-unset e s h = simp h

-- An encoder that has a queue and a connection cannot be destroyed while packets are queued, unless
-- the queue has a release callback.
pub destroy_faults :
    (e : VideoEncode) (s : Shared) (r : Rtmp) (p : Packet) (ps : List Packet)
    → e.rtmp ≡ to r
    → e.queue ≡ to tt
    → s.queue.items ≡ p ∷ ps
    → s.queue.release_callback ≡ false
    → destroy (e, s) ≡ fault null_pointer
unfolding destroy set_work
destroy_faults e s r p ps hr hq full no_callback =
    simp (hr, hq, clear_faults (set_work 0 s.queue) p ps no_callback full)

-- The queue that a destructor leaves when a release callback is set.
abbrev pub drained : SafeQueue Packet → SafeQueue Packet
drained q = record q { items = []; work = 0; released = q.released ++ q.items }

-- With a queue, a connection and a release callback, every queued packet is released, in order, the
-- queue is empty and stopped, and an open encoder is closed.
destroy_releases :
    (e : VideoEncode) (s : Shared) (r : Rtmp)
    → e.rtmp ≡ to r
    → e.queue ≡ to tt
    → e.callback ≡ to tt
    → s.queue.release_callback ≡ true
    → destroy (e, s)
      ≡ done (
        record e {
          encoder = false;
          rtmp = null;
          queue = null;
          callback = null;
          calls = if e.encoder then e.calls ++ (closes ∷ []) else e.calls;
        },
        record s { queue = drained s.queue },
      )
unfolding destroy set_work
destroy_releases e s r hr hq hc on = rw (hr, hq, hc, clear_releases (set_work 0 s.queue) on)
