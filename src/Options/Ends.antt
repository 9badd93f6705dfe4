-- ===== src/Options/Ends.antt =====
-- What holds of a result if the program has not ended.
use darkhttpd.Common.{ℕ, Bool, true, false, Bytes, if◌then◌else◌, ◌≡◌, refl}
use darkhttpd.Options.{Result, ok, exited, ◌>>=◌, ◌>>◌, require}

pub data Ends {A : Type 0} (P : A → Type 0) : Result A → Type 0 where
  goes_on : {a : A} → P a → Ends P (ok a)
  leaves : {status : ℕ} {message : Bytes} → Ends P (exited status message)

module _ {A : Type 0} {P : A → Type 0} where
  pub Ends-if : (b : Bool) {x y : Result A} → Ends P x → Ends P y → Ends P (if b then x else y)
  Ends-if true h k = h
  Ends-if false h k = k

  pub Ends-if_of :
      (b : Bool) {x y : Result A}
      → (b ≡ true → Ends P x)
      → (b ≡ false → Ends P y)
      → Ends P (if b then x else y)
  Ends-if_of true h k = h refl
  Ends-if_of false h k = k refl

  -- Whatever the first step gives.
  pub Ends-bind :
      {B : Type 0} (m : Result B) {f : B → Result A} → ((b : B) → Ends P (f b)) → Ends P (m >>= f)
  Ends-bind (ok b) h = h b
  Ends-bind (exited status message) h = leaves

  -- What holds behind the first step is known in the second.
  pub Ends-bind_of :
      {B : Type 0} {Q : B → Type 0} {m : Result B} {f : B → Result A}
      → Ends Q m
      → ((b : B) → Q b → Ends P (f b))
      → Ends P (m >>= f)
  Ends-bind_of (goes_on {a = b} q) h = h b q
  Ends-bind_of leaves h = leaves

  pub Ends-require :
      (b : Bool) (message : Bytes) {f : Result A}
      → (b ≡ true → Ends P f)
      → Ends P (require b message >> f)
  Ends-require true message h = h refl
  Ends-require false message h = leaves

-- The predicate on a result, where the result computes.
abbrev pub Holds : {A : Type 0} → (A → Type 0) → Result A → Type 0
Holds P (ok a) = P a
Holds P (exited status message) = Unit

pub Ends-Holds : {A : Type 0} {P : A → Type 0} {r : Result A} → Ends P r → Holds P r
Ends-Holds (goes_on p) = p
Ends-Holds leaves = tt
