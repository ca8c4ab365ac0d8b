-- ===== src/Live/Packed.antt =====
-- Whatever Java asks of cpp/rtmp/RtmpLive.cpp, in whatever order: the fields of every packet that is
-- sent fit.
use android_study_rtmp_avcod.Common.{
  ℕ, ◌+◌, ◌%◌, ◌^◌, inl, inr, refl, not, ◌||◌, Option, none, some, List, [], ◌∷◌, zero, suc, arith,
  ◌==◌, ltb, load, sub_length, to_int16, Ensures, returns, faults, Ensures-bind, if_both,
  Ensures-if, Ensures-any, AreBytes, IsBuffer, store-Ensures, load_all-Ensures, advance-Ensures,
}
use android_study_rtmp_avcod.Rtmp.{
  Packet, Answers, Call, allocates, inits, enables_write, connects, connects_stream, sets_timeout,
  sets_url, sends, frees_packet, PacketAlloc,
}
use android_study_rtmp_avcod.Packing.Packed.{
  BufferOf, frame_body-IsPacked, config_body-IsPacked, audio_body-IsPacked,
}
use android_study_rtmp_avcod.Packing.Typed.{
  IsPacket, packet_of-IsPacket, SendsPackets, SendsPackets-append,
}
use android_study_rtmp_avcod.Live.{
  Live, State, attempt, finish, connect, send_packet, mark_kind, send_audio, stands_at, split_sets,
  save_loop, save_sps_pps, create_sps_pps_packet, create_frame_packet, keep_sets, send_video,
  send_data, non_null, is_null,
}

abbrev pub SetFits : Option (List ℕ) → Type 0
SetFits none = Unit {0}
SetFits (some bs) = AreBytes bs

-- The parameter sets that are kept are bytes.
abbrev pub SetsFit : Live → Type 0
SetsFit live = SetFits live.sps × SetFits live.pps

abbrev pub LiveFits : Option Live → Type 0
LiveFits none = Unit {0}
LiveFits (some live) = SetsFit live

abbrev pub StateFits : State → Type 0
StateFits s = LiveFits s.live × SendsPackets s.calls

non_null-SetFits : (o : Option (List ℕ)) → SetFits o → Ensures AreBytes (non_null o)
non_null-SetFits none h = faults
non_null-SetFits (some bs) h = returns h

non_null-LiveFits : (o : Option Live) → LiveFits o → Ensures SetsFit (non_null o)
non_null-LiveFits none h = faults
non_null-LiveFits (some live) h = returns h

send_packet-StateFits :
    (p : Packet) (s : State) → IsPacket p → StateFits s → StateFits (send_packet p s)
unfolding send_packet
send_packet-StateFits p s h (live, sent) =
    (live, SendsPackets-append s.calls (sends p ∷ frees_packet ∷ []) sent (h, (tt, tt)))

attempt-SendsPackets :
    (a : Answers) (url : List ℕ) (calls : List Call)
    → SendsPackets calls
    → SendsPackets (attempt a url calls).1
unfolding attempt
attempt-SendsPackets a url calls h =
    let set = SendsPackets-append calls (sets_timeout 10 ∷ sets_url url ∷ []) h (tt, (tt, tt)) in
    let tried = SendsPackets-append _ (enables_write ∷ connects ∷ []) set (tt, (tt, tt)) in
    let streaming = SendsPackets-append _ (connects_stream ∷ []) tried (tt, tt) in
    if_both Fits (not a.url_accepted) set (if_both Fits (not a.connected) tried streaming)
  where
    Fits : Option ℕ × List Call → Type 0
    Fits r = SendsPackets r.1

finish-StateFits : (r : Option ℕ × List Call) → SendsPackets r.1 → StateFits (finish r).1
finish-StateFits (none, calls) h = (tt, h)
finish-StateFits (some id, calls) h = ((tt, tt), h)

pub connect-StateFits :
    (a : Answers) (url : List ℕ) (s : State)
    → StateFits s
    → Ensures (λ r. StateFits r.1) (connect a url s)
unfolding connect
connect-StateFits a url s (live, sent) =
    let set = SendsPackets-append s.calls (allocates ∷ inits ∷ []) sent (tt, (tt, tt)) in
    Ensures-if a.allocated (returns (finish-StateFits _ (attempt-SendsPackets a url _ set))) faults

split_sets-SetsFit :
    (p : List ℕ) (len i : ℕ) (live : Live) → AreBytes p → Ensures SetsFit (split_sets p len i live)
unfolding split_sets
split_sets-SetsFit p len i live bytes = Ensures-bind (Ensures-any (sub_length i 4)) λ before _.
    Ensures-bind (Ensures-any (to_int16 before)) λ m _.
      Ensures-bind (Ensures-any (sub_length len 8)) λ behind _.
        Ensures-bind (Ensures-any (sub_length behind m)) λ behind' _.
          Ensures-bind (Ensures-any (to_int16 behind')) λ n _.
            Ensures-bind (advance-Ensures p 4 bytes) λ from_sps h.
              Ensures-bind (load_all-Ensures from_sps m h) λ sps k.
                Ensures-bind (advance-Ensures p (m + 8) bytes) λ from_pps h'.
                  Ensures-bind (load_all-Ensures from_pps n h') λ pps k'. returns (k, k')

save_loop-SetsFit :
    (p : List ℕ) (len : ℕ) (live : Live) (n i : ℕ)
    → AreBytes p
    → SetsFit live
    → Ensures SetsFit (save_loop p len live n i)
unfolding save_loop
save_loop-SetsFit p len live zero i bytes h = returns h
save_loop-SetsFit p len live (suc n) i bytes h =
    let rest = save_loop-SetsFit p len live n (i + 1) bytes h in
    Ensures-if (ltb (i + 4) len)
      (Ensures-bind (Ensures-any (stands_at p i (0x00 ∷ 0x00 ∷ 0x00 ∷ 0x01 ∷ 0x68 ∷ [])))
        λ found _. Ensures-if found (split_sets-SetsFit p len i live bytes) rest)
      rest

keep_sets-StateFits :
    (p : List ℕ) (len : ℕ) (o : Option Live) (s : State)
    → AreBytes p
    → LiveFits o
    → StateFits s
    → Ensures StateFits (keep_sets p len o s)
unfolding keep_sets save_sps_pps
keep_sets-StateFits p len none s bytes live h = returns h
keep_sets-StateFits p len (some l) s bytes live h =
    Ensures-if (is_null l.sps || is_null l.pps)
      (Ensures-bind (save_loop-SetsFit p len l len 0 bytes live) λ saved k. returns (k, h.1))
      (returns h)

module _ (alloc : PacketAlloc) (memory : (n : ℕ) → BufferOf n (alloc n)) where
  create_sps_pps_packet-IsPacket :
      (live : Live) → SetsFit live → Ensures IsPacket (create_sps_pps_packet alloc live)
  unfolding create_sps_pps_packet
  create_sps_pps_packet-IsPacket live (sps_fits, pps_fits) =
      Ensures-bind (non_null-SetFits live.sps sps_fits) λ sps h.
        Ensures-bind (non_null-SetFits live.pps pps_fits) λ pps k.
          Ensures-bind
            (config_body-IsPacked alloc memory sps pps live.sps_length live.pps_length h k)
            λ r packed. returns (
              packet_of-IsPacket 0 9 4 0 live.rtmp.stream_id r (omega arith) (inr refl)
                (omega arith, omega arith) (omega arith) packed)

  create_frame_packet-IsPacket :
      (live : Live) (p : List ℕ) (len time : ℕ)
      → AreBytes p
      → Ensures IsPacket (create_frame_packet alloc live p len time)
  unfolding create_frame_packet
  create_frame_packet-IsPacket live p len time bytes =
      Ensures-bind (advance-Ensures p 4 bytes) λ nal h.
        Ensures-bind (Ensures-any (sub_length len 4)) λ n _.
          Ensures-bind (frame_body-IsPacked alloc memory nal n h) λ r packed. returns (
            packet_of-IsPacket 0 9 4 (time % 2 ^ 32) live.rtmp.stream_id r (omega arith) (inr refl)
              (omega arith, omega arith) (omega arith) packed)

  marks-IsBuffer :
      (kind n : ℕ) (b : List ℕ) → IsBuffer n b → Ensures (IsBuffer n) (mark_kind kind b)
  marks-IsBuffer kind n b h =
      Ensures-if (kind == 1) (store-Ensures b 1 0x00 h (omega arith))
        (Ensures-if (kind == 2) (store-Ensures b 1 0x01 h (omega arith)) (returns h))

  send_audio-StateFits :
      (input : List ℕ) (len time kind : ℕ) (s : State)
      → AreBytes input
      → StateFits s
      → Ensures StateFits (send_audio alloc input len time kind s)
  unfolding send_audio
  send_audio-StateFits input len time kind s bytes h =
      Ensures-bind (Ensures-any (non_null s.live)) λ live _.
        Ensures-bind
          (audio_body-IsPacked alloc memory (mark_kind kind) input len (marks-IsBuffer kind) bytes)
          λ r packed. returns (
            send_packet-StateFits _ s
              (packet_of-IsPacket 0 8 5 (time % 2 ^ 32) live.rtmp.stream_id r (omega arith)
                (inl refl) (omega arith, omega arith) (omega arith) packed)
              h)

  send_video-StateFits :
      (p : List ℕ) (len time : ℕ) (s : State)
      → AreBytes p
      → StateFits s
      → Ensures StateFits (send_video alloc p len time s)
  unfolding send_video
  send_video-StateFits p len time s bytes h = Ensures-bind (Ensures-any (load p 4)) λ t _.
      Ensures-if (t == 0x67) (keep_sets-StateFits p len s.live s bytes h.0 h) (
        Ensures-bind
          (Ensures-if (t == 0x65)
            (Ensures-bind (non_null-LiveFits s.live h.0) λ live fits.
              Ensures-bind (create_sps_pps_packet-IsPacket live fits)
                λ packet k. returns (send_packet-StateFits packet s k h))
            (returns h))
          λ s' h'. Ensures-bind (Ensures-any (non_null s'.live)) λ live _.
            Ensures-bind (create_frame_packet-IsPacket live p len time bytes)
              λ packet k. returns (send_packet-StateFits packet s' k h'))

  pub send_data-StateFits :
      (p : List ℕ) (len time kind : ℕ) (s : State)
      → AreBytes p
      → StateFits s
      → Ensures StateFits (send_data alloc p len time kind s)
  unfolding send_data
  send_data-StateFits p len time kind s bytes h =
      Ensures-if (kind == 0) (send_video-StateFits p len time s bytes h) (
        Ensures-if (kind == 1 || kind == 2) (send_audio-StateFits p len time kind s bytes h)
          (returns h))
