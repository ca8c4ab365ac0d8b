-- ===== src/Packing/Whole.antt =====
-- The bodies of whole units: built without a fault, of the announced size, and read back.
use android_study_rtmp_avcod.Common.{
  ℕ, suc, ◌+◌, ◌%◌, ◌^◌, ◌<◌, ◌≡◌, refl, some, List, [], ◌∷◌, ◌++◌, arith, length, take-length,
  take-append, append-nil, length-append, Run, done, ◌==◌, lt→ltb, ◌∙◌, ap, store, copy-take,
  put-over,
}
use android_study_rtmp_avcod.Rtmp.{PacketAlloc, Allocates}
use android_study_rtmp_avcod.Flv.{read_video, avc_unit, avc_config}
use android_study_rtmp_avcod.Packing.{byte_at, frame_body, config_body, audio_body}
use android_study_rtmp_avcod.Packing.Frame.{frame_bytes, frame_body_eq}
use android_study_rtmp_avcod.Packing.Config.{config_bytes, config_body_eq}
use android_study_rtmp_avcod.Packing.Read.{read_video-frame_bytes, read_video-config_bytes}

same_size : {m n : ℕ} (b : List ℕ) → m ≡ n → ◌≡◌ {A = Run (ℕ × List ℕ)} (done (m, b)) (done (n, b))
same_size b e = ap (λ k. done (k, b)) e

pub frame_body_whole :
    (alloc : PacketAlloc) (t : ℕ) (nal : List ℕ)
    → length nal + 10 < 2 ^ 31
    → Allocates alloc (suc (length nal) + 9)
    → (body : List ℕ) × (frame_body alloc (t ∷ nal) (suc (length nal)) ≡ done (length body, body))
      × (read_video body ≡ some (avc_unit (t == 0x65) (t ∷ nal)))
frame_body_whole alloc t nal small (b, e, n) = (
  frame_bytes t (suc (length nal)) (t ∷ nal),
  rw
      (
        frame_body_eq alloc b t nal (suc (length nal)) (omega arith) (omega arith) e n,
        take-length nal,
      )
      (same_size _ (omega arith)),
  read_video-frame_bytes t (suc (length nal)) (t ∷ nal) (omega arith) (omega arith)
      ∙ ap (λ l. some (avc_unit (t == 0x65) (t ∷ l))) (take-length nal),
)

-- The buffers may go on behind the parameter sets.
pub config_body_whole :
    (alloc : PacketAlloc) (t p c l : ℕ) (sps pps junk junk' : List ℕ)
    → 4 + length sps < 2 ^ 16
    → length pps < 2 ^ 16
    → Allocates alloc (length (t ∷ p ∷ c ∷ l ∷ sps) + length pps + 16)
    → (body : List ℕ) × (config_body alloc
          (t ∷ p ∷ c ∷ l ∷ (sps ++ junk))
          (pps ++ junk')
          (length (t ∷ p ∷ c ∷ l ∷ sps))
          (length pps)
        ≡ done (length body, body))
      × (read_video body ≡ some (avc_config p c l (t ∷ p ∷ c ∷ l ∷ sps) pps))
config_body_whole alloc t p c l sps pps junk junk' hs hp (b, e, n) = (
  config_bytes p c l (t ∷ p ∷ c ∷ l ∷ sps) pps (length (t ∷ p ∷ c ∷ l ∷ sps)) (length pps),
  rw
      (
        config_body_eq alloc b t p c l (sps ++ junk) (pps ++ junk') (length (t ∷ p ∷ c ∷ l ∷ sps))
            (length pps) (omega (arith, length-append sps junk))
            (omega (arith, length-append pps junk')) (omega arith) e n,
        take-append sps junk,
        take-append pps junk',
      )
      (same_size _
        (omega (arith, length-append sps (1 ∷ byte_at (length pps) 8 ∷ (length pps % 256) ∷ pps)))),
  read_video-config_bytes p c l (t ∷ p ∷ c ∷ l ∷ sps) pps (omega arith) hp,
)

-- Whatever `mark` does, it stores `kind` behind the first byte. The buffer may go on behind the data.
pub audio_body_part :
    (alloc : PacketAlloc) (mark : List ℕ → Run (List ℕ)) (kind : ℕ) (input junk : List ℕ)
    → ((b : List ℕ) → mark b ≡ store b 1 kind)
    → length input + 2 < 2 ^ 31
    → Allocates alloc (length input + 2)
    → (audio_body alloc mark (input ++ junk) (length input)
        ≡ done (length input + 2, 0xaf ∷ kind ∷ input))
unfolding audio_body store
audio_body_part alloc mark kind input junk h small (x ∷ y ∷ rest, e, n) =
    rw (lt→ltb (length input + 2) (2 ^ 31) small, e, h (0xaf ∷ y ∷ rest))
      (rw (
        copy-take (0xaf ∷ kind ∷ rest) 2 (input ++ junk) (length input)
            (omega (arith, length-append input junk)),
        take-append input junk,
        put-over (0xaf ∷ kind ∷ []) rest input 2 refl (omega arith),
      ))
audio_body_part alloc mark kind input junk h small (_, e, n) = absurd (omega arith)

pub audio_body_whole :
    (alloc : PacketAlloc) (mark : List ℕ → Run (List ℕ)) (kind : ℕ) (input : List ℕ)
    → ((b : List ℕ) → mark b ≡ store b 1 kind)
    → length input + 2 < 2 ^ 31
    → Allocates alloc (length input + 2)
    → (audio_body alloc mark input (length input) ≡ done (length input + 2, 0xaf ∷ kind ∷ input))
audio_body_whole alloc mark kind input h small ok =
    rw (append-nil input) at (audio_body_part alloc mark kind input [] h small ok)

-- The same, where the buffers end with the parameter sets.
pub config_body_exact :
    (alloc : PacketAlloc) (t p c l : ℕ) (sps pps : List ℕ)
    → 4 + length sps < 2 ^ 16
    → length pps < 2 ^ 16
    → Allocates alloc (length (t ∷ p ∷ c ∷ l ∷ sps) + length pps + 16)
    → (body : List ℕ) × (config_body alloc
          (t ∷ p ∷ c ∷ l ∷ sps)
          pps
          (length (t ∷ p ∷ c ∷ l ∷ sps))
          (length pps)
        ≡ done (length body, body))
      × (read_video body ≡ some (avc_config p c l (t ∷ p ∷ c ∷ l ∷ sps) pps))
config_body_exact alloc t p c l sps pps hs hp ok =
    rw (append-nil sps, append-nil pps) at (config_body_whole alloc t p c l sps pps [] [] hs hp ok)
