-- ===== src/Live/Stream.antt =====
-- `sendData` against the contract of the stream: unit by unit, and for a whole stream.
use native.Mathlib.Decide.{ℕ_discrete}
use android_study_rtmp_avcod.Common.{
  ℕ, ◌≡◌, refl, sym, Option, none, some, List, [], ◌∷◌, ◌++◌, append-nil, append_assoc, arith,
  length, done, Run, ◌>>=◌, ◌∙◌,
}
use android_study_rtmp_avcod.Rtmp.{Call, PacketAlloc, Allocates}
use android_study_rtmp_avcod.Flv.{read_audio, aac_config, aac_frame}
use android_study_rtmp_avcod.Muxer.{
  Sets, Input, sets, unit, header, frame, next, stream_of, prepend,
}
use android_study_rtmp_avcod.Delivery.{Delivery, deliveries}
use mathlib.Core.Path.{subst}
use android_study_rtmp_avcod.Live.{Live, State, send_data}
use android_study_rtmp_avcod.Live.Packets.{Holds, create_frame_packet_delivers}
use android_study_rtmp_avcod.Live.Contract.{bytes_of, kind_of, Fits, connected, Agrees}
use android_study_rtmp_avcod.Live.Video.{send_sets, key_Agrees, inter_Agrees}
use android_study_rtmp_avcod.Live.Audio.{audio_Agrees}

module _ (alloc : PacketAlloc) (memory : (n : ℕ) → Allocates alloc n) (live : Live)
    (calls : List Call) (time : ℕ) where
  -- Every input that fits, if memory is found: the code does what the contract says, on every branch.
  pub send_data-Agrees :
      (m : Option Sets) (i : Input)
      → Holds live m
      → Fits i
      → Agrees live.rtmp.stream_id (deliveries calls) (next live.rtmp.stream_id time m i) (
          send_data alloc
            (bytes_of i)
            (length (bytes_of i))
            time
            (kind_of i)
            (connected live calls))
  unfolding next read_audio
  send_data-Agrees m (sets q) h f = send_sets alloc memory live calls time m q h f
  send_data-Agrees m (unit t nal) h f = elim (ℕ_discrete t 0x65) [
    | yes e ↦ rw e (
        key_Agrees alloc memory live calls time m nal h
          (create_frame_packet_delivers alloc live 0x65 nal time (omega arith) (memory _)))
    | no key ↦
        inter_Agrees alloc memory live calls time m t nal h f.0 key
          (create_frame_packet_delivers alloc live t nal time (omega arith) (memory _))
  ]
  send_data-Agrees none (header bs) h f =
      audio_Agrees alloc memory live calls time none 1 0 bs (aac_config bs) h refl refl (λ b. refl)
        refl f
  send_data-Agrees (some q) (header bs) h f =
      audio_Agrees alloc memory live calls time (some q) 1 0 bs (aac_config bs) h refl refl
        (λ b. refl) refl f
  send_data-Agrees none (frame bs) h f =
      audio_Agrees alloc memory live calls time none 2 1 bs (aac_frame bs) h refl refl (λ b. refl)
        refl f
  send_data-Agrees (some q) (frame bs) h f =
      audio_Agrees alloc memory live calls time (some q) 2 1 bs (aac_frame bs) h refl refl
        (λ b. refl) refl f

-- Java's loop over the encoded units: each is sent with its time.
pub send_all : PacketAlloc → List (ℕ × Input) → State → Run State
send_all alloc [] s = done s
send_all alloc ((time, i) ∷ is) s =
    send_data alloc (bytes_of i) (length (bytes_of i)) time (kind_of i) s >>= send_all alloc is

abbrev pub AllFit : List (ℕ × Input) → Type 0
AllFit [] = Unit {0}
AllFit ((time, i) ∷ is) = Fits i × AllFit is

Agrees-prepend :
    (stream : ℕ) (before out : List Delivery) (o : Option (Option Sets × List Delivery))
    (r : Run State)
    → Agrees stream (before ++ out) o r
    → Agrees stream before (prepend out o) r
Agrees-prepend stream before out none r a = a
Agrees-prepend stream before out (some (m, more)) r (live, calls, e, h, id, d) =
    (live, calls, e, h, id, d ∙ append_assoc before out more)

-- What follows a run that agrees with the contract need agree from where the run ends.
Agrees-bind :
    (stream : ℕ) (before : List Delivery) (o : Option (Option Sets × List Delivery)) (r : Run State)
    (spec : Option Sets → Option (Option Sets × List Delivery)) (rest : State → Run State)
    → Agrees stream before o r
    → ((live : Live) (calls : List Call) (m : Option Sets)
        → Holds live m
        → live.rtmp.stream_id ≡ stream
        → Agrees stream (deliveries calls) (spec m) (rest (connected live calls)))
    → Agrees stream before
        (elim o [ none ↦ none | some (m, out) ↦ prepend out (spec m) ])
        (r >>= rest)
Agrees-bind stream before none r spec rest a k = rw a
Agrees-bind stream before (some (m, out)) r spec rest (live, calls, e, h, id, d) k = rw e (
    Agrees-prepend stream before out (spec m) (rest (connected live calls))
      (rw d at (k live calls m h id)))

-- A whole stream of inputs that fit, if memory is found: the server receives exactly what the
-- contract says, in order, and the run ends in a fault exactly where the contract refuses a key
-- frame.
pub send_all-Agrees :
    (alloc : PacketAlloc) (memory : (n : ℕ) → Allocates alloc n) (is : List (ℕ × Input))
    (live : Live) (calls : List Call) (m : Option Sets)
    → Holds live m
    → AllFit is
    → Agrees live.rtmp.stream_id
        (deliveries calls)
        (stream_of live.rtmp.stream_id m is)
        (send_all alloc is (connected live calls))
unfolding send_all stream_of
send_all-Agrees alloc memory [] live calls m h f = (live, calls, refl, h, refl, sym (append-nil _))
send_all-Agrees alloc memory ((time, i) ∷ is) live calls m h f =
    Agrees-bind live.rtmp.stream_id (deliveries calls) (next live.rtmp.stream_id time m i) _
      (λ m'. stream_of live.rtmp.stream_id m' is) (send_all alloc is)
      (send_data-Agrees alloc memory live calls time m i h f.0)
      λ live' calls' m' h' id.
        subst
          (λ k.
            Agrees k (deliveries calls') (stream_of k m' is)
              (send_all alloc is (connected live' calls')))
          id (send_all-Agrees alloc memory is live' calls' m' h' f.1)
