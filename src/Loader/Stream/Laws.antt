-- ===== src/Loader/Stream/Laws.antt =====
-- What holds of the values that readers answer.
use platform_packages_module.Prelude.{◌≡◌, refl, subst, ap, Bool, true, false, if◌then◌else◌}
use platform_packages_module.Loader.Stream.{
  Stream, Reader, Answer, value, code, outside, ◌>>=◌, and_then, tried, try, answer_of,
}

-- A value that was read has a property.
abbrev pub Holds : {A : Type 0} → (A → Type 0) → Stream × Answer A → Type 0
Holds P (s, value a) = P a
Holds P (s, code c) = Unit
Holds P (s, outside) = Unit

-- Every value that a reader answers has a property.
abbrev pub Ensures : {A : Type 0} → (A → Type 0) → Reader A → Type 0
Ensures P m = (s : Stream) → Holds P (m s)

Holds-and_then :
    {A B : Type 0} (Q : A → Type 0) (P : B → Type 0) (r : Stream × Answer A) (f : A → Reader B)
    → Holds Q r
    → ((a : A) → Q a → Ensures P (f a))
    → Holds P (and_then r f)
Holds-and_then Q P (s, value a) f q h = h a q s
Holds-and_then Q P (s, code c) f q h = tt
Holds-and_then Q P (s, outside) f q h = tt

-- A value of two readers in turn has a property if that of the first has one that makes it so.
pub Ensures-bind :
    {A B : Type 0} (Q : A → Type 0) (P : B → Type 0) (m : Reader A) (f : A → Reader B)
    → Ensures Q m
    → ((a : A) → Q a → Ensures P (f a))
    → Ensures P (m >>= f)
Ensures-bind Q P m f q h s = Holds-and_then Q P (m s) f (q s) h

Holds-any : {A : Type 0} (r : Stream × Answer A) → Holds (λ a. Unit) r
Holds-any (s, value a) = tt
Holds-any (s, code c) = tt
Holds-any (s, outside) = tt

-- The same where nothing is known of the first value.
pub Ensures-then :
    {A B : Type 0} (P : B → Type 0) (m : Reader A) (f : A → Reader B)
    → ((a : A) → Ensures P (f a))
    → Ensures P (m >>= f)
Ensures-then P m f h s = Holds-and_then (λ a. Unit) P (m s) f (Holds-any (m s)) (λ a u. h a)

pub Ensures-if :
    {A : Type 0} (P : A → Type 0) (b : Bool) (m n : Reader A)
    → (b ≡ true → Ensures P m)
    → (b ≡ false → Ensures P n)
    → Ensures P (if b then m else n)
Ensures-if P true m n h k = h refl
Ensures-if P false m n h k = k refl

-- An answer that is kept as a value.
abbrev pub Tried : {A : Type 0} → (A → Type 0) → Answer A → Type 0
Tried P (value a) = P a
Tried P (code c) = Unit
Tried P outside = Unit

Holds-tried :
    {A : Type 0} (P : A → Type 0) (r : Stream × Answer A) → Holds P r → Holds (Tried P) (tried r)
Holds-tried P (s, value a) h = h
Holds-tried P (s, code c) h = tt
Holds-tried P (s, outside) h = tt

pub Ensures-try :
    {A : Type 0} (P : A → Type 0) (m : Reader A) → Ensures P m → Ensures (Tried P) (try m)
Ensures-try P m h s = Holds-tried P (m s) (h s)

-- The value that is answered.
pub Holds→value :
    {A : Type 0} (P : A → Type 0) (r : Stream × Answer A) {a : A}
    → Holds P r
    → answer_of r ≡ value a
    → P a
Holds→value P (s, value b) h e =
    subst P (ap (λ x. elim x [ value y ↦ y | code c ↦ b | outside ↦ b ]) e) h
Holds→value P (s, code c) h e = cc e
Holds→value P (s, outside) h e = cc e
