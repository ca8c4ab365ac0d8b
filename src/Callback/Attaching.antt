-- ===== src/Callback/Attaching.antt =====
-- How `x264EncodeDataCallback` of cpp/x264/CallbackFromJniUtil.cpp uses a thread of the virtual machine.
use android_study_rtmp_avcod.Common.{ℕ, Bool, true, false, Option, none, some, List, [], ◌∷◌}
use android_study_rtmp_avcod.Callback.{
  EnvAnswer, ok, detached, no_version, JniCall, new_global_ref, gets_env, attaches, detaches,
  calls_method, Callback,
}

-- Whether the thread is attached behind the calls, if `on` says it before, and `attachable` whether it
-- can be attached; `none` where a call is not allowed: Java's objects and methods want an attached
-- thread, attaching a thread that is not, and detaching one that is.
unfoldable pub attached_behind : Bool → Bool → List JniCall → Option Bool
attached_behind attachable on [] = some on
attached_behind attachable on (gets_env ∷ cs) = attached_behind attachable on cs
attached_behind attachable false (attaches ∷ cs) = attached_behind attachable attachable cs
attached_behind attachable true (detaches ∷ cs) = attached_behind attachable false cs
attached_behind attachable true (new_global_ref ∷ cs) = attached_behind attachable true cs
attached_behind attachable true (calls_method name sig bytes ∷ cs) =
    attached_behind attachable true cs
attached_behind attachable on (c ∷ cs) = none

-- The bytes that Java's methods were given.
unfoldable pub given : List JniCall → List (List ℕ)
given [] = []
given (calls_method name sig bytes ∷ cs) = bytes ∷ given cs
given (_ ∷ cs) = given cs

-- Whether `GetEnv` says that the thread is attached.
abbrev pub is_attached : EnvAnswer → Bool
is_attached ok = true
is_attached _ = false

-- Whether the method can be called: the thread is attached, or can be.
abbrev pub is_usable : EnvAnswer → Bool → Bool
is_usable ok attachable = true
is_usable detached attachable = attachable
is_usable no_version attachable = false
