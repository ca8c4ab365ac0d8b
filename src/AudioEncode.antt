-- ===== src/AudioEncode.antt =====
-- cpp/x264/FAACAudioEncode.cpp and head/x264/faac_audio_encode.h: microphone samples go through
-- faac, and what comes out is packed and queued. faac is a parameter: the encoder that it opens, the
-- bytes that it makes of a buffer of samples, and its header. `new` and `calloc` find memory.
use android_study_rtmp_avcod.Common.{
  ℕ, zero, suc, ◌+◌, ◌*◌, ◌%◌, ◌^◌, Bool, true, false, ◌&&◌, Option, none, some, List, [], ◌∷◌,
  ◌++◌, length, Run, done, fault, Pointer, wild, to, null, null_pointer, is_set, deref, assigned,
  ◌>>=◌, store, sub32, add_int, put, ltb, ◌==◌, if◌then◌else◌,
}
use android_study_rtmp_avcod.Rtmp.{
  Rtmp, PacketAlloc, packet_type_audio, packet_size_large, packet_size_medium, packet_of,
}
use android_study_rtmp_avcod.Session.{Shared, Clock, get_time}
use android_study_rtmp_avcod.Packing.{audio_body}
use android_study_rtmp_avcod.VideoEncode.{non_null}
use android_study_rtmp_avcod.VideoEncode.Queueing.{both_set, push_packet}
pub mod Contract
pub mod Silence
pub mod Packed

-- The calls of faac that make, configure and free encoders. The configuration is constant.
pub data FaacCall : Type 0 where
  opens : ℕ → ℕ → FaacCall
  configures callocs closes : FaacCall

-- What `faacEncOpen` gives: whether there is an encoder, and a configuration to fill in, the
-- samples that it wants at a time, and the most bytes that it makes of them.
pub record Opened : Type 0 where
  pub handle : Bool
  pub configuration : Bool
  pub input_samples : ℕ
  pub max_bytes : ℕ

-- `FAACAudioEncode`. Members with no initial value are unset until they are assigned.
pub record AudioEncode : Type 0 where
  pub encoder : Bool
  pub max_bytes : Option ℕ
  pub encoded_data : Option (List ℕ)
  pub input_size : Option ℕ
  pub rtmp : Pointer Rtmp
  pub queue : Pointer (Unit {0})
  pub start_time : ℕ
  pub calls : List FaacCall

-- `new FAACAudioEncode`
abbrev pub new_audio_encode : AudioEncode
new_audio_encode = record {
  encoder = false;
  max_bytes = none;
  encoded_data = none;
  input_size = none;
  rtmp = null;
  queue = wild;
  start_time = 0;
  calls = [];
}

-- A buffer from `calloc(1, n)`.
abbrev pub calloc : ℕ → List ℕ
calloc zero = []
calloc (suc n) = 0 ∷ calloc n

-- `openFaacEncode`. An earlier encoder and buffer are not freed.
unfoldable pub open_faac_encode : Opened → ℕ → ℕ → AudioEncode → Run AudioEncode
open_faac_encode o sample_rate channel_count e =
    if o.configuration
    then done (record e {
      encoder = o.handle;
      max_bytes = some o.max_bytes;
      encoded_data = some (calloc o.max_bytes);
      input_size = some (o.input_samples * 2 % 2 ^ 64);
      calls = e.calls ++ (opens sample_rate channel_count ∷ callocs ∷ configures ∷ []);
    })
    else fault null_pointer

-- `getInputDataSize`, whose value is an `int`.
unfoldable pub get_input_data_size : AudioEncode → Run ℕ
get_input_data_size e = assigned e.input_size >>= λ size. done (size % 2 ^ 32)

abbrev pub State : Type 0
State = AudioEncode × Shared

-- The start of the stream is the first reading of the clock.
abbrev pub note_start : Clock → State → State
note_start clock (e, s) =
    if e.start_time == 0
    then (let (now, s') = get_time clock s in (record e { start_time = now }, s'))
    else (e, s)

-- `queueAacData`
unfoldable pub queue_aac_data : PacketAlloc → Clock → List ℕ → ℕ → State → Run State
queue_aac_data alloc clock input len (e, s) = do
  usable ← both_set e.rtmp e.queue
  if usable
      then (do
        (size, body) ← audio_body alloc (λ b. store b 1 0x01) input len
        rtmp ← deref e.rtmp
        let (now, s') = get_time clock s
        s'' ←
            push_packet
              (packet_of packet_size_large packet_type_audio 11 (sub32 now e.start_time)
                rtmp.stream_id size body)
              s'
        done (e, s''))
      else done (e, s)

-- `encode`. The bytes that faac makes are stored in the buffer that was opened with it; none are
-- made where `faacEncEncode` returns 0 or an error.
unfoldable pub encode : PacketAlloc → Clock → (List ℕ → ℕ → List ℕ) → List ℕ → ℕ → State → Run State
encode alloc clock compress pcm_data data_length (e, s) =
    if e.encoder
    then (do
      buffer ← non_null e.encoded_data
      max ← assigned e.max_bytes
      let aac = compress pcm_data data_length
      (buffer', i) ← put buffer 0 aac
      if ltb 0 (length aac)
          then queue_aac_data alloc clock buffer' (length aac)
              (note_start clock (record e { encoded_data = some buffer' }, s))
          else done (record e { encoded_data = some buffer' }, s))
    else done (e, s)

pub set_queue : AudioEncode → AudioEncode
set_queue e = record e { queue = to tt }

pub set_rtmp : Pointer Rtmp → AudioEncode → AudioEncode
set_rtmp rtmp e = record e { rtmp = rtmp }

-- `queueAccDataHeader`. The result of `faacEncGetDecoderSpecificInfo` is not looked at: without a
-- header the two variables stay unset.
unfoldable pub queue_acc_data_header : PacketAlloc → Clock → Option (List ℕ) → State → Run State
queue_acc_data_header alloc clock header (e, s) = do
  usable ← both_set e.rtmp e.queue
  if usable && e.encoder
      then (do
        input ← assigned header
        (size, body) ← audio_body alloc (λ b. store b 1 0x00) input (length input)
        rtmp ← deref e.rtmp
        let (e', s') = note_start clock (e, s)
        s'' ←
            push_packet
              (packet_of packet_size_medium packet_type_audio 11 0 rtmp.stream_id size body) s'
        done (e', s''))
      else done (e, s)

-- `~FAACAudioEncode`, which does not free the buffer.
unfoldable pub destroy : AudioEncode → Run AudioEncode
destroy e = do
  has_queue ← is_set e.queue
  has_rtmp ← is_set e.rtmp
  done (record e {
    queue = if has_queue then null else e.queue;
    rtmp = if has_rtmp then null else e.rtmp;
    encoder = false;
    calls = if e.encoder then e.calls ++ (closes ∷ []) else e.calls;
  })
