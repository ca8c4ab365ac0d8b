-- ===== src/Delivery.antt =====
-- What a server sees of the calls: the packets that are sent, each read as an FLV message.
use android_study_rtmp_avcod.Common.{
  some, refl, eq→==, ℕ, ◌≡◌, ap, Option, none, List, [], ◌∷◌, ◌++◌, length, ◌==◌, if◌then◌else◌,
}
use android_study_rtmp_avcod.Rtmp.{
  Packet, Call, allocates, sends, packet_type_video, packet_type_audio,
}
use android_study_rtmp_avcod.Flv.{Message, read_video, read_audio}

pub record Delivery : Type 0 where
  pub channel : ℕ
  pub time : ℕ
  pub stream : ℕ
  pub message : Option Message

-- The server takes as many bytes as the header announces, and reads them by the packet's type.
unfoldable pub message : Packet → Option Message
message p =
    if p.body_size == length p.body
    then (if p.packet_type == packet_type_video
        then read_video p.body
        else if p.packet_type == packet_type_audio
        then read_audio p.body
        else none)
    else none

-- A video packet whose header announces its body is read by its body.
pub message-video :
    (p : Packet) {m : Message}
    → p.packet_type ≡ 9
    → p.body_size ≡ length p.body
    → read_video p.body ≡ some m
    → message p ≡ some m
unfolding message
message-video p t e r = rw (e, eq→== (length p.body) (length p.body) refl, t) r

pub message-audio :
    (p : Packet) {m : Message}
    → p.packet_type ≡ 8
    → p.body_size ≡ length p.body
    → read_audio p.body ≡ some m
    → message p ≡ some m
unfolding message
message-audio p t e r = rw (e, eq→== (length p.body) (length p.body) refl, t) r

abbrev pub deliver : Packet → Delivery
deliver p = record {
  channel = p.channel;
  time = p.time_stamp;
  stream = p.info_field2;
  message = message p;
}

unfoldable pub deliveries : List Call → List Delivery
deliveries [] = []
deliveries (sends p ∷ cs) = deliver p ∷ deliveries cs
deliveries (_ ∷ cs) = deliveries cs

pub deliveries-append : (cs ds : List Call) → deliveries (cs ++ ds) ≡ deliveries cs ++ deliveries ds
unfolding deliveries
deliveries-append [] ds = refl
deliveries-append (sends p ∷ cs) ds = ap (λ l. deliver p ∷ l) (deliveries-append cs ds)
deliveries-append (allocates ∷ cs) ds = deliveries-append cs ds
deliveries-append (_ ∷ cs) ds = deliveries-append cs ds
