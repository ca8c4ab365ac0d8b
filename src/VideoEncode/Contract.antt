-- ===== src/VideoEncode/Contract.antt =====
-- The contract of `encodeData`: what a server hears of the units that x264 makes of one frame.
use android_study_rtmp_avcod.Common.{
  ℕ, ◌^◌, ◌≤◌, ◌<◌, ◌≢◌, Bool, true, Option, none, some, List, [], ◌∷◌, ◌++◌, length, ◌==◌, map,
}
use android_study_rtmp_avcod.Flv.{Message, avc_unit, avc_config}
use android_study_rtmp_avcod.Rtmp.{Packet}
use android_study_rtmp_avcod.Delivery.{message}
use android_study_rtmp_avcod.VideoEncode.Queueing.{Nal}
use android_study_rtmp_avcod.VideoEncode.Units.{start_code_of}

-- A sequence parameter set, by its first byte, profile, compatibility, level and the rest.
pub record Sps : Type 0 where
  pub first : ℕ
  pub profile : ℕ
  pub compatibility : ℕ
  pub level : ℕ
  pub rest : List ℕ

abbrev pub bytes_of : Sps → List ℕ
bytes_of q = q.first ∷ q.profile ∷ q.compatibility ∷ q.level ∷ q.rest

-- Parameter sets, and any other unit: whether its start code has four bytes, its type, its first byte
-- and the rest.
pub data Encoded : Type 0 where
  sps : Sps → Encoded
  pps : List ℕ → Encoded
  slice : Bool → ℕ → ℕ → List ℕ → Encoded

abbrev pub nal_of : Encoded → Nal
nal_of (sps q) = record { kind = 7; payload = start_code_of true ++ bytes_of q }
nal_of (pps bs) = record { kind = 8; payload = start_code_of true ++ bs }
nal_of (slice long kind t nal) = record { kind = kind; payload = start_code_of long ++ (t ∷ nal) }

abbrev pub nals_of : List Encoded → List Nal
nals_of [] = []
nals_of (u ∷ us) = nal_of u ∷ nals_of us

-- Parameter sets go into arrays of 100 bytes; any other unit has another type.
abbrev pub Fits : Encoded → Type 0
Fits (sps q) = length (bytes_of q) ≤ 100
Fits (pps bs) = length bs ≤ 100
Fits (slice long kind t nal) = (kind ≢ 7) × (kind ≢ 8) × (length nal < 2 ^ 30)

abbrev pub AllFit : List Encoded → Type 0
AllFit [] = Unit {0}
AllFit (u ∷ us) = Fits u × AllFit us

abbrev pub prepend : Message → Option (List Message) → Option (List Message)
prepend m none = none
prepend m (some ms) = some (m ∷ ms)

-- Each pair of parameter sets and each other unit is heard, in order. A picture parameter set with
-- no sequence parameter set before it is refused.
unfoldable pub heard_of : Option Sps → List Encoded → Option (List Message)
heard_of q [] = some []
heard_of q (sps q' ∷ us) = heard_of (some q') us
heard_of none (pps bs ∷ us) = none
heard_of (some q) (pps bs ∷ us) =
    prepend (avc_config q.profile q.compatibility q.level (bytes_of q) bs) (heard_of (some q) us)
heard_of q (slice long kind t nal ∷ us) = prepend (avc_unit (t == 0x65) (t ∷ nal)) (heard_of q us)

-- What is heard of a packet: its channel, its stream and its message.
abbrev pub Heard : Type 0
Heard = ℕ × ℕ × Option Message

abbrev pub hear : Packet → Heard
hear p = (p.channel, p.info_field2, message p)

abbrev pub hear_all : List Packet → List Heard
hear_all = map hear

abbrev pub video : ℕ → List Message → List Heard
video stream = map (λ m. (10, stream, some m))
