-- ===== src/Packing/Packed.antt =====
-- Whatever the functions of Packing.antt are given: a body that they build is a buffer of bytes of the
-- announced size.
use android_study_rtmp_avcod.Common.{
  ℕ, ◌%◌, ◌^◌, ◌<◌, Option, none, some, List, [], ◌∷◌, arith, Run, ◌==◌, assigned, Ensures, returns,
  faults, Ensures-bind, Ensures-if, AreBytes, byte_below, IsBuffer, load-Ensures, store-Ensures,
  put-Ensures, copy-Ensures, add_int-Ensures,
}
use android_study_rtmp_avcod.Rtmp.{PacketAlloc}
use android_study_rtmp_avcod.Packing.{byte_at, frame_body, config_body, audio_body}

-- What `RTMPPacket_Alloc` gives for `n` bytes, if anything: a buffer of `n` bytes.
abbrev pub BufferOf : ℕ → Option (List ℕ) → Type 0
BufferOf n none = Unit {0}
BufferOf n (some b) = IsBuffer n b

-- A size that fits an `int`, and a buffer of this size.
abbrev pub IsPacked : ℕ × List ℕ → Type 0
IsPacked r = (r.0 < 2 ^ 31) × IsBuffer r.0 r.1

assigned-IsBuffer : (n : ℕ) (o : Option (List ℕ)) → BufferOf n o → Ensures (IsBuffer n) (assigned o)
assigned-IsBuffer n none h = faults
assigned-IsBuffer n (some b) h = returns h

module _ (alloc : PacketAlloc) (memory : (n : ℕ) → BufferOf n (alloc n)) where
  pub frame_body-IsPacked :
      (nal : List ℕ) (len : ℕ) → AreBytes nal → Ensures IsPacked (frame_body alloc nal len)
  unfolding frame_body
  frame_body-IsPacked nal len bytes = Ensures-bind (add_int-Ensures len 9) λ size fits.
      Ensures-bind (assigned-IsBuffer size (alloc size) (memory size)) λ b h.
        Ensures-bind (store-Ensures b 0 0x27 h (omega arith)) λ b h.
          Ensures-bind (load-Ensures nal 0 bytes) λ t small.
            Ensures-bind
              (Ensures-if (t == 0x65) (store-Ensures b 0 0x17 h (omega arith)) (returns h))
              λ b h. Ensures-bind (store-Ensures b 1 0x01 h (omega arith)) λ b h.
                Ensures-bind (store-Ensures b 2 0x00 h (omega arith)) λ b h.
                  Ensures-bind (store-Ensures b 3 0x00 h (omega arith)) λ b h.
                    Ensures-bind (store-Ensures b 4 0x00 h (omega arith)) λ b h.
                      Ensures-bind (store-Ensures b 5 (byte_at len 24) h (byte_below _)) λ b h.
                        Ensures-bind (store-Ensures b 6 (byte_at len 16) h (byte_below _)) λ b h.
                          Ensures-bind (store-Ensures b 7 (byte_at len 8) h (byte_below _)) λ b h.
                            Ensures-bind (store-Ensures b 8 (len % 256) h (byte_below _)) λ b h.
                              Ensures-bind (copy-Ensures b 9 nal len h bytes)
                                λ r h. returns (fits, h)

  pub config_body-IsPacked :
      (sps pps : List ℕ) (m n : ℕ)
      → AreBytes sps
      → AreBytes pps
      → Ensures IsPacked (config_body alloc sps pps m n)
  unfolding config_body
  config_body-IsPacked sps pps m n bytes more = Ensures-bind (add_int-Ensures m n) λ both _.
      Ensures-bind (add_int-Ensures both 16) λ size fits.
        Ensures-bind (assigned-IsBuffer size (alloc size) (memory size)) λ b h.
          Ensures-bind
            (put-Ensures b 0 (0x17 ∷ 0x00 ∷ 0x00 ∷ 0x00 ∷ 0x00 ∷ 0x01 ∷ []) h (
              omega arith,
              (omega arith, (omega arith, (omega arith, (omega arith, (omega arith, tt))))),
            ))
            λ r h. Ensures-bind (load-Ensures sps 1 bytes) λ profile p.
              Ensures-bind (load-Ensures sps 2 bytes) λ compatibility c.
                Ensures-bind (load-Ensures sps 3 bytes) λ level l.
                  Ensures-bind
                    (put-Ensures r.0 r.1 (profile ∷ compatibility ∷ level ∷ []) h (p, (c, (l, tt))))
                    λ r h.
                      Ensures-bind
                        (put-Ensures r.0 r.1 (0xff ∷ 0xe1 ∷ byte_at m 8 ∷ (m % 256) ∷ []) h
                          (omega arith, (omega arith, (byte_below _, (byte_below _, tt)))))
                        λ r h. Ensures-bind (copy-Ensures r.0 r.1 sps m h bytes) λ r h.
                          Ensures-bind
                            (put-Ensures r.0 r.1 (0x01 ∷ byte_at n 8 ∷ (n % 256) ∷ []) h
                              (omega arith, (byte_below _, (byte_below _, tt))))
                            λ r h.
                              Ensures-bind (copy-Ensures r.0 r.1 pps n h more)
                                λ r h. returns (fits, h)

  -- The second byte is marked by a store.
  pub audio_body-IsPacked :
      (mark : List ℕ → Run (List ℕ)) (input : List ℕ) (len : ℕ)
      → ((n : ℕ) (b : List ℕ) → IsBuffer n b → Ensures (IsBuffer n) (mark b))
      → AreBytes input
      → Ensures IsPacked (audio_body alloc mark input len)
  unfolding audio_body
  audio_body-IsPacked mark input len marks bytes = Ensures-bind (add_int-Ensures len 2) λ size fits.
      Ensures-bind (assigned-IsBuffer size (alloc size) (memory size)) λ b h.
        Ensures-bind (store-Ensures b 0 0xaf h (omega arith)) λ b h.
          Ensures-bind (marks size b h)
            λ b h. Ensures-bind (copy-Ensures b 2 input len h bytes) λ r h. returns (fits, h)
