-- ===== src/Muxer.antt =====
-- The contract of the hardware-encoded stream: what a server receives for each unit that Java hands
-- over. It says nothing of bytes, buffers or packets.
use android_study_rtmp_avcod.Common.{
  ℕ, ◌%◌, ◌^◌, true, false, Option, none, some, List, [], ◌∷◌, ◌++◌, ◌==◌, if◌then◌else◌,
}
use android_study_rtmp_avcod.Flv.{Message, avc_config, avc_unit, aac_config, aac_frame}
use android_study_rtmp_avcod.Delivery.{Delivery}

-- The two parameter sets of a stream, behind their first bytes 0x67 and 0x68.
pub record Sets : Type 0 where
  pub profile : ℕ
  pub compatibility : ℕ
  pub level : ℕ
  pub sps_rest : List ℕ
  pub pps_rest : List ℕ

abbrev pub sps_of : Sets → List ℕ
sps_of q = 0x67 ∷ q.profile ∷ q.compatibility ∷ q.level ∷ q.sps_rest

abbrev pub pps_of : Sets → List ℕ
pps_of q = 0x68 ∷ q.pps_rest

-- Parameter sets, a unit by its first byte and the rest, and the two kinds of audio data.
pub data Input : Type 0 where
  sets : Sets → Input
  unit : ℕ → List ℕ → Input
  header frame : List ℕ → Input

module _ (stream time : ℕ) where
  abbrev video : ℕ → Message → Delivery
  video t m = record { channel = 4; time = t; stream = stream; message = some m }

  abbrev audio : Message → Delivery
  audio m = record { channel = 5; time = time % 2 ^ 32; stream = stream; message = some m }

  abbrev config : Sets → Delivery
  config q = video 0 (avc_config q.profile q.compatibility q.level (sps_of q) (pps_of q))

  -- The first parameter sets are kept; a key frame goes behind them, and before them it is refused.
  unfoldable pub next : Option Sets → Input → Option (Option Sets × List Delivery)
  next none (sets q) = some (some q, [])
  next (some q) (sets r) = some (some q, [])
  next m (header bs) = some (m, audio (aac_config bs) ∷ [])
  next m (frame bs) = some (m, audio (aac_frame bs) ∷ [])
  next none (unit t nal) =
      if t == 0x65 then none else some (none, video (time % 2 ^ 32) (avc_unit false (t ∷ nal)) ∷ [])
  next (some q) (unit t nal) =
      if t == 0x65
      then some (some q, config q ∷ video (time % 2 ^ 32) (avc_unit true (t ∷ nal)) ∷ [])
      else some (some q, video (time % 2 ^ 32) (avc_unit false (t ∷ nal)) ∷ [])

abbrev pub prepend :
    List Delivery → Option (Option Sets × List Delivery) → Option (Option Sets × List Delivery)
prepend out none = none
prepend out (some (m, more)) = some (m, out ++ more)

-- A whole stream: each input with its time.
unfoldable pub stream_of : ℕ → Option Sets → List (ℕ × Input) → Option (Option Sets × List Delivery)
stream_of stream m [] = some (m, [])
stream_of stream m ((time, i) ∷ is) = elim (next stream time m i) [
  | none ↦ none
  | some (m', out) ↦ prepend out (stream_of stream m' is)
]
