-- ===== src/Live/Connect.antt =====
-- `connect` of cpp/rtmp/RtmpLive.cpp, and a stream behind it.
use mathlib.Core.Path.{subst}
use android_study_rtmp_avcod.Common.{
  ℕ, suc, ◌-◌, ◌⊎◌, ◌≡◌, refl, sym, ap, append-nil, ◌∙◌, Bool, true, false, inl, inr, Option, none,
  some, List, [], ◌∷◌, ◌++◌, Run, done, if◌then◌else◌,
}
use android_study_rtmp_avcod.Rtmp.{
  Call, allocates, frees, inits, sets_timeout, sets_url, enables_write, connects, connects_stream,
  Answers, PacketAlloc, Allocates,
}
use android_study_rtmp_avcod.Muxer.{Input, stream_of}
use android_study_rtmp_avcod.Delivery.{deliveries, deliveries-append}
use android_study_rtmp_avcod.Live.{Live, State, attempt, connect}
use android_study_rtmp_avcod.Live.Contract.{connected, Agrees}
use android_study_rtmp_avcod.Live.Stream.{send_all, AllFit, send_all-Agrees}

-- The stream's id, unless one of the calls on the handle fails.
unfoldable pub reached : Answers → Option ℕ
reached a = if a.url_accepted then if a.connected then a.stream else none else none

-- How many handles are in use behind the calls, if `n` were before.
unfoldable pub in_use : ℕ → List Call → ℕ
in_use n [] = n
in_use n (allocates ∷ cs) = in_use (suc n) cs
in_use n (frees ∷ cs) = in_use (n - 1) cs
in_use n (_ ∷ cs) = in_use n cs

in_use-append : (cs ds : List Call) (n : ℕ) → in_use n (cs ++ ds) ≡ in_use (in_use n cs) ds
unfolding in_use
in_use-append [] ds n = refl
in_use-append (allocates ∷ cs) ds n = in_use-append cs ds (suc n)
in_use-append (frees ∷ cs) ds n = in_use-append cs ds (n - 1)
in_use-append (_ ∷ cs) ds n = in_use-append cs ds n

-- One more handle is in use behind the calls `after`, and no packet was sent.
abbrev pub OpensOne : List Call → List Call → Type 0
OpensOne before after =
    (in_use 0 after ≡ suc (in_use 0 before)) × (deliveries after ≡ deliveries before)

-- The state behind a connection: no parameter sets are kept.
abbrev pub fresh : ℕ → Live
fresh id = record {
  rtmp = record { stream_id = id };
  sps_length = 0;
  sps = none;
  pps_length = 0;
  pps = none;
}

abbrev pub Connects : Answers → List Call → Run (Bool × State) → Type 0
Connects a before run =
    (calls : List Call) × OpensOne before calls
    × (((id : ℕ) × (reached a ≡ some id) × (run ≡ done (true, connected (fresh id) calls)))
        ⊎ ((reached a ≡ none) × (run ≡ done (false, record { live = none; calls = calls }))))

-- Calls that leave the handles and send nothing.
opens_on :
    (before after cs : List Call)
    → OpensOne before after
    → ((n : ℕ) → in_use n cs ≡ n)
    → deliveries cs ≡ []
    → OpensOne before (after ++ cs)
opens_on before after cs (more, same) kept silent = (
  in_use-append after cs 0 ∙ kept (in_use 0 after) ∙ more,
  deliveries-append after cs
      ∙ ap (λ l. deliveries after ++ l) silent
      ∙ append-nil (deliveries after)
      ∙ same,
)

-- The calls up to the url, and up to the connection.
abbrev named : List ℕ → List Call → List Call
named url before = (before ++ (allocates ∷ inits ∷ [])) ++ (sets_timeout 10 ∷ sets_url url ∷ [])

abbrev tried : List ℕ → List Call → List Call
tried url before = named url before ++ (enables_write ∷ connects ∷ [])

alloc_opens : (before : List Call) → OpensOne before (before ++ (allocates ∷ inits ∷ []))
unfolding in_use deliveries
alloc_opens before = (
  in_use-append before (allocates ∷ inits ∷ []) 0,
  deliveries-append before (allocates ∷ inits ∷ []) ∙ append-nil (deliveries before),
)

named_opens : (url : List ℕ) (before : List Call) → OpensOne before (named url before)
unfolding in_use deliveries
named_opens url before =
    opens_on before (before ++ (allocates ∷ inits ∷ [])) (sets_timeout 10 ∷ sets_url url ∷ [])
      (alloc_opens before) (λ n. refl) refl

tried_opens : (url : List ℕ) (before : List Call) → OpensOne before (tried url before)
unfolding in_use deliveries
tried_opens url before =
    opens_on before (named url before) (enables_write ∷ connects ∷ []) (named_opens url before)
      (λ n. refl) refl

Connects-by :
    (accepted met : Bool) (stream : Option ℕ) (url : List ℕ) (s : State)
    → let a : Answers = record {
      allocated = true;
      url_accepted = accepted;
      connected = met;
      stream = stream;
    } in
      Connects a s.calls (connect a url s)
unfolding connect attempt reached in_use deliveries
Connects-by false met stream url s = (named url s.calls, named_opens url s.calls, inr (refl, refl))
Connects-by true false stream url s = (tried url s.calls, tried_opens url s.calls, inr (refl, refl))
Connects-by true true none url s = (
  tried url s.calls ++ (connects_stream ∷ []),
  opens_on s.calls (tried url s.calls) (connects_stream ∷ []) (tried_opens url s.calls) (λ n. refl)
      refl,
  inr (refl, refl),
)
Connects-by true true (some id) url s = (
  tried url s.calls ++ (connects_stream ∷ []),
  opens_on s.calls (tried url s.calls) (connects_stream ∷ []) (tried_opens url s.calls) (λ n. refl)
      refl,
  inl (id, refl, refl),
)

-- Where `RTMP_Alloc` finds memory: `connect` says whether the connection was made, and on every branch
-- one more handle is in use and nothing is sent. Where it fails, nothing points to that handle.
pub connect-Connects :
    (a : Answers) (url : List ℕ) (s : State)
    → a.allocated ≡ true
    → Connects a s.calls (connect a url s)
connect-Connects a url s found =
    subst (λ k. Connects k s.calls (connect k url s)) whole
      (Connects-by a.url_accepted a.connected a.stream url s)
  where
    whole : record a { allocated = true } ≡ a
    whole = λ i. record a { allocated = sym found i }

-- A connection that succeeds, and then a stream of inputs that fit, if memory is found: the server
-- receives exactly what the contract says, in order, with no parameter sets before the first, and the
-- run ends in a fault exactly where the contract refuses a key frame.
pub connect_streams :
    (alloc : PacketAlloc) (memory : (n : ℕ) → Allocates alloc n) (a : Answers) (url : List ℕ)
    (id : ℕ) (s : State) (is : List (ℕ × Input))
    → a.allocated ≡ true
    → reached a ≡ some id
    → AllFit is
    → (s' : State) × (connect a url s ≡ done (true, s'))
      × Agrees id (deliveries s.calls) (stream_of id none is) (send_all alloc is s')
connect_streams alloc memory a url id s is found success fit =
    by_branch (connect-Connects a url s found)
  where
    by_branch :
        Connects a s.calls (connect a url s)
        → (s' : State) × (connect a url s ≡ done (true, s'))
          × Agrees id (deliveries s.calls) (stream_of id none is) (send_all alloc is s')
    by_branch (calls, opens, inr (failed, _)) = absurd (cc (failed, success))
    by_branch (calls, opens, inl (id', here, runs)) =
        let same : id' ≡ id = cc in
        (
          connected (fresh id) calls,
          runs ∙ ap (λ k. done (true, connected (fresh k) calls)) same,
          subst
              (λ l.
                Agrees id l (stream_of id none is) (send_all alloc is (connected (fresh id) calls)))
              opens.1 (send_all-Agrees alloc memory is (fresh id) calls none (refl, refl) fit),
        )
