-- ===== src/Flv.antt =====
-- The reader's side of the packets: the body of an FLV video or audio message, as a server reads
-- it. It follows the FLV and AVC file formats and nothing of the code; the packets that the code
-- builds are checked against it.
use android_study_rtmp_avcod.Common.{
  ℕ, ◌+◌, ◌*◌, ◌/◌, ◌%◌, Bool, Option, some, none, List, [], ◌∷◌, length, take, drop, ◌==◌,
  if◌then◌else◌, ◌&&◌, ltb,
}

-- The decoder's configuration: profile, compatibility and level, and the parameter sets. A unit,
-- with the mark of a key frame. The configuration of AAC, and a frame of it.
pub data Message : Type 0 where
  avc_config : ℕ → ℕ → ℕ → List ℕ → List ℕ → Message
  avc_unit : Bool → List ℕ → Message
  aac_config : List ℕ → Message
  aac_frame : List ℕ → Message

-- A block of `n` bytes, and what follows.
unfoldable pub block : ℕ → List ℕ → Option (List ℕ × List ℕ)
block n xs = if ltb (length xs) n then none else some (take n xs, drop n xs)

abbrev read_pps : ℕ → ℕ → ℕ → List ℕ → Option (List ℕ × List ℕ) → Option Message
read_pps p c l sps (some (pps, [])) = some (avc_config p c l sps pps)
read_pps p c l sps _ = none

abbrev read_sps : ℕ → ℕ → ℕ → Option (List ℕ × List ℕ) → Option Message
read_sps p c l (some (sps, count ∷ hi ∷ lo ∷ rest)) =
    if count == 1 then read_pps p c l sps (block (hi * 256 + lo) rest) else none
read_sps p c l _ = none

-- AVCDecoderConfigurationRecord: version 1, lengths of four bytes, one parameter set of each kind.
unfoldable pub read_config : List ℕ → Option Message
read_config (version ∷ p ∷ c ∷ l ∷ sizes ∷ count ∷ hi ∷ lo ∷ rest) =
    if version == 1 && (sizes % 4 == 3 && count % 32 == 1)
    then read_sps p c l (block (hi * 256 + lo) rest)
    else none
read_config _ = none

-- Units behind lengths of four bytes: here exactly one.
unfoldable pub read_unit : Bool → List ℕ → Option Message
read_unit key (a ∷ b ∷ c ∷ d ∷ rest) =
    if a * 16777216 + b * 65536 + c * 256 + d == length rest then some (avc_unit key rest) else none
read_unit key _ = none

-- The first byte holds the kind of frame and the codec, 7 for AVC; the second says which of the
-- two follows; three bytes of composition time, here 0.
unfoldable pub read_video : List ℕ → Option Message
unfolding read_config read_unit
read_video (head ∷ kind ∷ x ∷ y ∷ z ∷ rest) =
    if head % 16 == 7 && (x == 0 && (y == 0 && z == 0))
    then (if kind == 0
        then read_config rest
        else if kind == 1
        then read_unit (head / 16 == 1) rest
        else none)
    else none
read_video _ = none

unfoldable pub read_audio : List ℕ → Option Message
read_audio (head ∷ kind ∷ rest) =
    if head / 16 == 10
    then (if kind == 0
        then some (aac_config rest)
        else if kind == 1
        then some (aac_frame rest)
        else none)
    else none
read_audio _ = none
