-- ===== src/Common/Memory.antt =====
-- C memory as the native code uses it. A byte is its bit pattern, a number below 256; a buffer is
-- the list of its bytes. What C leaves undefined is a fault, which ends the run.
use Prim.Native.Nat.{ℕ, zero, suc, ◌+◌, ◌*◌, ◌-◌, ◌%◌, ◌^◌, ◌<◌}
use mathlib.Core.Path.{◌≡◌, ap}
use mathlib.Core.Bool.{Bool, true, false}
use mathlib.Core.Option.{Option, none, some}
use mathlib.Core.List.{List, [], ◌∷◌}
use native.Mathlib.Omega.{arith}
use android_study_rtmp_avcod.Common.Tests.{ltb, if◌then◌else◌}

-- A null dereference, a use of an unset variable, an access outside a buffer (a negative length
-- among them, which becomes a huge `size_t`), and a signed overflow.
pub data Fault : Type 0 where
  null_pointer unset out_of_bounds overflow : Fault

pub data Run {ℓ} (A : Type ℓ) : Type ℓ where
  done : A → Run A
  fault : Fault → Run A

infixl 5 ◌>>=◌
abbrev pub ◌>>=◌ {ℓ κ} : {A : Type ℓ} {B : Type κ} → Run A → (A → Run B) → Run B
done a >>= f = f a
fault e >>= f = fault e

pub done-injective {ℓ} : {A : Type ℓ} {a b : A} → done a ≡ done b → a ≡ b
done-injective {a} e = ap (elim [ done x ↦ x | fault _ ↦ a ]) e

-- A pointer that the code may test: never set, null, or to a live object.
pub data Pointer {ℓ} (A : Type ℓ) : Type ℓ where
  wild null : Pointer A
  to : A → Pointer A

-- `if (p)`: reading an unset pointer is undefined.
abbrev pub is_set {ℓ} : {A : Type ℓ} → Pointer A → Run Bool
is_set wild = fault unset
is_set null = done false
is_set (to a) = done true

-- `*p`
abbrev pub deref {ℓ} : {A : Type ℓ} → Pointer A → Run A
deref wild = fault unset
deref null = fault null_pointer
deref (to a) = done a

-- A variable that may not have been assigned.
abbrev pub assigned {ℓ} : {A : Type ℓ} → Option A → Run A
assigned none = fault unset
assigned (some a) = done a

-- Signed 32-bit addition, multiplication and subtraction of lengths; a negative length ends in a fault at the
-- `memcpy` that takes it, so it is a fault at once.
abbrev pub add_int : ℕ → ℕ → Run ℕ
add_int a b = if ltb (a + b) (2 ^ 31) then done (a + b) else fault overflow

abbrev pub mul_int : ℕ → ℕ → Run ℕ
mul_int a b = if ltb (a * b) (2 ^ 31) then done (a * b) else fault overflow

unfoldable pub sub_length : ℕ → ℕ → Run ℕ
sub_length a b = if ltb a b then fault out_of_bounds else done (a - b)

-- Conversion of a length to `int16_t`: the low 16 bits, and a fault where they stand for a negative
-- number.
unfoldable pub to_int16 : ℕ → Run ℕ
to_int16 n = if ltb (n % 2 ^ 16) (2 ^ 15) then done (n % 2 ^ 16) else fault out_of_bounds

pub sub_length_eq : (a b c : ℕ) → a ≡ b + c → sub_length a b ≡ done c
unfolding sub_length
sub_length_eq a b c e = ground arith

pub sub_length-under : (a b : ℕ) → a < b → sub_length a b ≡ fault out_of_bounds
unfolding sub_length
sub_length-under a b h = ground arith

pub to_int16-eq : {n : ℕ} → n < 2 ^ 15 → to_int16 n ≡ done n
unfolding to_int16
to_int16-eq h = ground arith

-- `a - b` on `uint32_t`.
abbrev pub sub32 : ℕ → ℕ → ℕ
sub32 a b = (a + 2 ^ 32 - b) % 2 ^ 32

-- `p[i]`
unfoldable pub load : List ℕ → ℕ → Run ℕ
load [] i = fault out_of_bounds
load (x ∷ xs) zero = done x
load (x ∷ xs) (suc i) = load xs i

-- `p[i] = v`
unfoldable pub store : List ℕ → ℕ → ℕ → Run (List ℕ)
store [] i v = fault out_of_bounds
store (x ∷ xs) zero v = done (v ∷ xs)
store (x ∷ xs) (suc i) v = do ys ← store xs i v; done (x ∷ ys)

-- The first `n` bytes of a source, which `memcpy` reads.
unfoldable pub load_all : List ℕ → ℕ → Run (List ℕ)
load_all xs zero = done []
load_all [] (suc n) = fault out_of_bounds
load_all (x ∷ xs) (suc n) = do ys ← load_all xs n; done (x ∷ ys)

-- Pointer arithmetic `p + k`, which may go one past the end and no further.
unfoldable pub advance : List ℕ → ℕ → Run (List ℕ)
advance xs zero = done xs
advance [] (suc k) = fault out_of_bounds
advance (x ∷ xs) (suc k) = advance xs k
