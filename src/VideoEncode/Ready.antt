-- ===== src/VideoEncode/Ready.antt =====
-- What `x264initAndOpen` of cpp/x264/X264VideoEncode.cpp answers, and what frames do afterwards.

use android_study_rtmp_avcod.Common.{
  ℕ, ◌+◌, ◌*◌, ◌/◌, ◌^◌, ◌<◌, ◌≡◌, ◌≢◌, ◌⊎◌, refl, sym, ap, ◌∙◌, true, false, Bool, Bool_cases, inl,
  inr, Option, none, some, List, [], ◌∷◌, ◌++◌, append_assoc, arith, length, length-append, done,
  fault, null_pointer, lt→ltb, load_all-append, advance, advance-append, if◌then◌else◌,
}
use android_study_rtmp_avcod.Rtmp.{PacketAlloc}
use android_study_rtmp_avcod.Session.{Shared, Clock}
use android_study_rtmp_avcod.VideoEncode.{
  VideoEncode, Planes, Opening, open_and_ready, not_open, no_picture, answer, outcome,
  init_and_open, params, Params, EncoderCall, closes, opens, news_picture, allocs_picture, csp_i420,
  rc_abr, planes_of,
}
use android_study_rtmp_avcod.VideoEncode.Queueing.{Nal, Locals, begin_frame, encode_data}
use android_study_rtmp_avcod.VideoEncode.Encode.{IsOpen, begin_frame_copies}

no_planes_crashes :
    (alloc : PacketAlloc) (clock : Clock) (compress : Planes → List Nal) (b : Locals)
    (frame : List ℕ) (e : VideoEncode) (s : Shared)
    → e.input ≡ none
    → encode_data alloc clock compress b frame (e, s) ≡ fault null_pointer
unfolding encode_data begin_frame
no_planes_crashes alloc clock compress b frame e s h = simp h

no_encoder_crashes :
    (alloc : PacketAlloc) (clock : Clock) (compress : Planes → List Nal) (b : Locals)
    (y u v behind : List ℕ) (size uv : ℕ) (e : VideoEncode) (s : Shared) (p : Planes)
    → length y ≡ size
    → length u ≡ uv
    → length v ≡ uv
    → e.input ≡ some p
    → e.y_size ≡ some size
    → e.uv_size ≡ some uv
    → e.encoder ≡ false
    → encode_data alloc clock compress b (y ++ (u ++ (v ++ behind))) (e, s) ≡ fault null_pointer
unfolding encode_data begin_frame
no_encoder_crashes alloc clock compress b y u v behind size uv e s p ly lu lv has_planes has_size
      has_uv closed =
    simp (has_planes, has_size, has_uv, closed)
      (rw (
        load_all-append y (u ++ (v ++ behind)) size (sym ly),
        advance-append y (u ++ (v ++ behind)) size (sym ly),
        load_all-append u (v ++ behind) uv (sym lu),
        to_v,
        load_all-append v behind uv (sym lv),
      ))
  where
    to_v : advance (y ++ (u ++ (v ++ behind))) (size + uv) ≡ done (v ++ behind)
    to_v =
        rw (← append_assoc y u (v ++ behind))
          (advance-append (y ++ u) (v ++ behind) (size + uv) (omega (arith, length-append y u)))

outcome_cases :
    (o : Opening)
    → ((p : Planes) × (o.planes ≡ some p) × (o.opened ≡ true) × (outcome o ≡ open_and_ready))
      ⊎ (((p : Planes) × (o.planes ≡ some p) × (o.opened ≡ false) × (outcome o ≡ not_open))
          ⊎ ((o.planes ≡ none) × (outcome o ≡ no_picture)))
outcome_cases o = by_planes o.planes refl (Bool_cases o.opened)
  where
    by_planes :
        (ps : Option Planes)
        → o.planes ≡ ps
        → (o.opened ≡ true) ⊎ (o.opened ≡ false)
        → ((p : Planes) × (o.planes ≡ some p) × (o.opened ≡ true) × (outcome o ≡ open_and_ready))
          ⊎ (((p : Planes) × (o.planes ≡ some p) × (o.opened ≡ false) × (outcome o ≡ not_open))
              ⊎ ((o.planes ≡ none) × (outcome o ≡ no_picture)))
    by_planes none h b = inr (inr (h, ap (λ x. answer x o.opened) h))
    by_planes (some p) h (inl yes_open) =
        inl (p, h, yes_open, ap (λ x. answer x o.opened) h ∙ ap (answer (some p)) yes_open)
    by_planes (some p) h (inr closed) =
        inr (inl (p, h, closed, ap (λ x. answer x o.opened) h ∙ ap (answer (some p)) closed))

abbrev opened_encoder : Opening → ℕ → ℕ → ℕ → ℕ → VideoEncode → VideoEncode
opened_encoder o w h fps bit_rate e = record e {
  encoder = o.opened;
  input = o.planes;
  width = some w;
  height = some h;
  fps = some fps;
  bit_rate = some bit_rate;
  y_size = some (w * h);
  uv_size = some (w * h / 4);
  calls =
      (if e.encoder then e.calls ++ (closes ∷ []) else e.calls)
      ++ (opens (params w h fps bit_rate) ∷ news_picture ∷ allocs_picture csp_i420 w h ∷ []);
}

init_and_open_returns :
    (o : Opening) (w h fps bit_rate : ℕ) (e : VideoEncode)
    → w * h < 2 ^ 31
    → fps * 2 < 2 ^ 31
    → init_and_open o w h fps bit_rate e ≡ done (outcome o, opened_encoder o w h fps bit_rate e)
unfolding init_and_open
init_and_open_returns o w h fps bit_rate e small often =
    rw (lt→ltb (w * h) (2 ^ 31) small, lt→ltb (fps * 2) (2 ^ 31) often)

-- If x264 opens and the size and the interval of key frames do not overflow, the encoder is open.
pub init_and_open-IsOpen :
    (o : Opening) (w h fps bit_rate : ℕ) (e : VideoEncode)
    → w * h < 2 ^ 31
    → fps * 2 < 2 ^ 31
    → outcome o ≡ open_and_ready
    → (e' : VideoEncode) × (init_and_open o w h fps bit_rate e ≡ done (outcome o, e'))
      × IsOpen (w * h) (w * h / 4) e'
init_and_open-IsOpen o w h fps bit_rate e small often answers = (
  opened_encoder o w h fps bit_rate e,
  init_and_open_returns o w h fps bit_rate e small often,
  elim (outcome_cases o) [
    | inl (p, has_planes, has_encoder, ready) ↦ record {
      planes = p;
      has_planes = has_planes;
      has_size = refl;
      has_uv = refl;
      has_encoder = has_encoder;
    }
    | inr (inl (p, has_planes, closed, answer)) ↦ cc (answers, answer)
    | inr (inr (no_planes, answer)) ↦ cc (answers, answer)
  ],
)

-- What x264 is asked for: an encoder of frames of `w` by `h` in planes, `fps` of them in a second, with
-- the average rate `bit_rate` / 1024, with a key frame every two seconds, parameter sets before each of
-- them, no frame that refers to a later one, level 3.2, and one thread; times are not read.
pub record Configures (w h fps bit_rate : ℕ) (p : Params) : Type 0 where
  pub width : p.i_width ≡ w
  pub height : p.i_height ≡ h
  pub format : p.i_csp ≡ csp_i420
  pub frames : (p.i_fps_num ≡ fps) × (p.i_fps_den ≡ 1)
  pub rate : (p.i_rc_method ≡ rc_abr) × (p.i_bitrate ≡ bit_rate / 1024)
  pub interval : p.i_keyint_max ≡ fps * 2
  pub repeats : p.b_repeat_headers ≡ 1
  pub in_order : p.i_bframe ≡ 0
  pub level : p.i_level_idc ≡ 32
  pub time_base : (p.i_timebase_num ≡ fps) × (p.i_timebase_den ≡ 1) × (p.b_vfr_input ≡ 0)
  pub threads : p.i_threads ≡ 1

-- The calls of x264 by which it is opened: an encoder that is open is closed first.
abbrev pub opening_calls : Bool → ℕ → ℕ → Params → List EncoderCall
opening_calls was_open w h p =
    (if was_open then closes ∷ [] else [])
    ++ (opens p ∷ news_picture ∷ allocs_picture csp_i420 w h ∷ [])

closes_first :
    (was_open : Bool) (before more : List EncoderCall)
    → (if was_open then before ++ (closes ∷ []) else before) ++ more
      ≡ before ++ ((if was_open then closes ∷ [] else []) ++ more)
closes_first true before more = append_assoc before (closes ∷ []) more
closes_first false before more = refl

-- A frame whose planes have the sizes of an open encoder is given to x264.
opened_copies :
    (compress : Planes → List Nal) (y u v behind : List ℕ) (size uv : ℕ) (e : VideoEncode)
    → length y ≡ size
    → length u ≡ uv
    → length v ≡ uv
    → IsOpen size uv e
    → begin_frame compress (y ++ (u ++ (v ++ behind))) e
      ≡ done (compress (planes_of y u v), record e { input = some (planes_of y u v) })
opened_copies compress y u v behind size uv e ly lu lv o =
    begin_frame_copies compress y u v behind e
      (record {
        planes = o.planes;
        has_planes = o.has_planes;
        has_size = o.has_size ∙ ap some (sym ly);
        has_uv = o.has_uv ∙ ap some (sym lu);
        has_encoder = o.has_encoder;
      })
      (lv ∙ sym lu)

-- If the size and the interval of key frames do not overflow, `x264initAndOpen` returns. It closes an
-- encoder that was open, asks x264 for an encoder with this size, rate and interval, and then for a
-- picture of this size. Either its value is 1, and x264 is given the three planes of a frame of this
-- size; or its value is not 1, and such a frame crashes the encoder.
pub init_and_open_answers :
    (o : Opening) (w h fps bit_rate : ℕ) (e : VideoEncode) (alloc : PacketAlloc) (clock : Clock)
    (compress : Planes → List Nal) (b : Locals) (y u v behind : List ℕ) (s : Shared)
    → w * h < 2 ^ 31
    → fps * 2 < 2 ^ 31
    → length y ≡ w * h
    → length u ≡ w * h / 4
    → length v ≡ w * h / 4
    → (e' : VideoEncode) × (p : Params) × (init_and_open o w h fps bit_rate e
        ≡ done (outcome o, e'))
      × Configures w h fps bit_rate p
      × (e'.calls ≡ e.calls ++ opening_calls e.encoder w h p)
      × (((outcome o ≡ open_and_ready)
            × (begin_frame compress (y ++ (u ++ (v ++ behind))) e'
                ≡ done (compress (planes_of y u v), record e' { input = some (planes_of y u v) })))
          ⊎ ((outcome o ≢ open_and_ready)
              × (encode_data alloc clock compress b (y ++ (u ++ (v ++ behind))) (e', s)
                  ≡ fault null_pointer)))
init_and_open_answers o w h fps bit_rate e alloc clock compress b y u v behind s small often ly lu
      lv =
    (
      e',
      params w h fps bit_rate,
      init_and_open_returns o w h fps bit_rate e small often,
      record {
        width = refl;
        height = refl;
        format = refl;
        frames = (refl, refl);
        rate = (refl, refl);
        interval = refl;
        repeats = refl;
        in_order = refl;
        level = refl;
        time_base = (refl, refl, refl);
        threads = refl;
      },
      closes_first e.encoder e.calls _,
      by_outcome (outcome_cases o),
    )
  where
    e' : VideoEncode
    e' = opened_encoder o w h fps bit_rate e

    by_outcome :
        ((p : Planes) × (o.planes ≡ some p) × (o.opened ≡ true) × (outcome o ≡ open_and_ready))
          ⊎ (((p : Planes) × (o.planes ≡ some p) × (o.opened ≡ false) × (outcome o ≡ not_open))
              ⊎ ((o.planes ≡ none) × (outcome o ≡ no_picture)))
        → ((outcome o ≡ open_and_ready)
            × (begin_frame compress (y ++ (u ++ (v ++ behind))) e'
                ≡ done (compress (planes_of y u v), record e' { input = some (planes_of y u v) })))
          ⊎ ((outcome o ≢ open_and_ready)
              × (encode_data alloc clock compress b (y ++ (u ++ (v ++ behind))) (e', s)
                  ≡ fault null_pointer))
    by_outcome (inl (p, has_planes, has_encoder, ready)) = inl (
      ready,
      opened_copies compress y u v behind (w * h) (w * h / 4) e' ly lu lv (record {
        planes = p;
        has_planes = has_planes;
        has_size = refl;
        has_uv = refl;
        has_encoder = has_encoder;
      }),
    )
    by_outcome (inr (inl (p, has_planes, closed, answer))) = inr (
      λ ready. cc (ready, answer),
      no_encoder_crashes alloc clock compress b y u v behind (w * h) (w * h / 4) e' s p ly lu lv
          has_planes refl refl closed,
    )
    by_outcome (inr (inr (no_planes, answer))) = inr (
      λ ready. cc (ready, answer),
      no_planes_crashes alloc clock compress b (y ++ (u ++ (v ++ behind))) e' s no_planes,
    )
