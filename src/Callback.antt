-- ===== src/Callback.antt =====
-- cpp/x264/CallbackFromJniUtil.cpp: a call of a Java method from any thread. What the virtual machine
-- answers is a parameter. The encoder holds the object, but the call of it is commented out.
pub mod Attaching
use android_study_rtmp_avcod.Common.{
  ℕ, Bool, true, false, List, [], ◌∷◌, ◌++◌, Run, done, fault, unset, if◌then◌else◌,
}

-- The answers of `GetEnv`: attached already, detached, or no such version.
pub data EnvAnswer : Type 0 where
  ok detached no_version : EnvAnswer

-- The calls of JNI.
pub data JniCall : Type 0 where
  new_global_ref gets_env attaches detaches : JniCall
  calls_method : List ℕ → List ℕ → List ℕ → JniCall

-- `CallbackFromJniUtil`: of its members only `clazz` changes.
pub record Callback : Type 0 where
  pub has_class : Bool
  pub calls : List JniCall

-- `CallbackFromJniUtil(javaVm, jniEnv)`
abbrev pub new_callback : Callback
new_callback = record { has_class = false; calls = [] }

-- `setClazz`
unfoldable pub set_class : Callback → Callback
set_class k = record k { has_class = true; calls = k.calls ++ (new_global_ref ∷ []) }

-- `x264EncodeDataCallback`; `attached` is whether `AttachCurrentThread` succeeds. The object is read
-- behind these calls, and without `setClazz` it has no value.
unfoldable pub call_back : EnvAnswer → Bool → List ℕ → List ℕ → List ℕ → Callback → Run Callback
call_back ok attached name sig bytes k =
    if k.has_class
    then done (record k { calls = k.calls ++ (gets_env ∷ calls_method name sig bytes ∷ []) })
    else fault unset
call_back detached attached name sig bytes k =
    if attached
    then (if k.has_class
        then done (record k {
          calls = k.calls ++ (gets_env ∷ attaches ∷ calls_method name sig bytes ∷ detaches ∷ []);
        })
        else fault unset)
    else done (record k { calls = k.calls ++ (gets_env ∷ attaches ∷ []) })
call_back no_version attached name sig bytes k =
    done (record k { calls = k.calls ++ (gets_env ∷ []) })
