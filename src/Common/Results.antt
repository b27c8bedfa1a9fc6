-- ===== src/Common/Results.antt =====
-- Rust's `Result`, with its chain of `?`.
use mathlib.Core.Path.{◌≡◌, refl}
use mathlib.Core.Logic.{◌⊎◌, inl, inr}
use mathlib.Core.Bool.{Bool, true, false}
use mathlib.Core.Option.{Option, none, some}
use native.Mathlib.Omega.{arith}
use signal_fish_client_rust.Common.Tests.{if◌then◌else◌}

pub data Result {ℓ κ} (A : Type ℓ) (E : Type κ) : Type (ℓ ⊔ κ) where
  ok : A → Result A E
  err : E → Result A E

abbrev pub is_err {ℓ κ} : {A : Type ℓ} {E : Type κ} → Result A E → Bool
is_err (ok a) = false
is_err (err e) = true

infixl 5 ◌>>=◌ ◌>>◌
abbrev pub ◌>>=◌ {ℓ κ μ} :
    {E : Type μ} {A : Type ℓ} {B : Type κ}
    → (checked : Result A E) (next : A → Result B E) → Result B E
err why >>= next = err why
ok value >>= next = next value

-- A check, and what follows where it passes.
abbrev pub ◌>>◌ {ℓ μ} :
    {E : Type μ} {B : Type ℓ} → (check : Result (Unit {0}) E) (next : Result B E) → Result B E
check >> next = check >>= λ passed. next

pub Result-cases {ℓ κ} :
    {A : Type ℓ} {E : Type κ} (r : Result A E) → ((a : A) × (r ≡ ok a)) ⊎ ((e : E) × (r ≡ err e))
Result-cases (ok a) = inl (a, refl)
Result-cases (err e) = inr (e, refl)

-- `if bad { return Err(e) }`.
abbrev pub reject_if {μ} : {E : Type μ} → Bool → E → Result (Unit {0}) E
reject_if true e = err e
reject_if false e = ok tt

-- `Option::ok_or_else`.
abbrev pub ok_or {ℓ μ} : {A : Type ℓ} {E : Type μ} → Option A → E → Result A E
ok_or none e = err e
ok_or (some a) e = ok a

-- `self.method()?` followed by the rest of the body: the state stands also where
-- the method failed.
abbrev pub and_then {ℓ κ μ ν} :
    {S : Type ℓ} {E : Type κ} {A : Type μ} {B : Type ν}
    → Result A E × S
    → (A → S → Result B E × S)
    → Result B E × S
and_then (ok a, s) f = f a s
and_then (err e, s) f = (err e, s)

-- Checks that only read the state, then the part that writes it.
abbrev pub when_ok {ℓ κ μ ν} :
    {S : Type ℓ} {E : Type κ} {A : Type μ} {B : Type ν}
    → Result A E
    → S
    → (A → Result B E × S)
    → Result B E × S
when_ok (ok a) s f = f a
when_ok (err e) s f = (err e, s)

-- A successful chain had a successful first step.
pub >>=-eq-ok {ℓ κ μ} :
    {E : Type μ} {A : Type ℓ} {B : Type κ} (checked : Result A E) (next : A → Result B E)
    {result : B}
    → (checked >>= next) ≡ ok result
    → (value : A) × (checked ≡ ok value) × (next value ≡ ok result)
>>=-eq-ok (err why) next whole = cc
>>=-eq-ok (ok value) next whole = (value, refl, whole)

module _ {ℓ κ μ ν λ'} {S : Type ℓ} {E : Type κ} {A : Type μ} {B : Type ν} (P : S → Type λ') where
  -- What the checks leave alone and the writes keep holds afterwards.
  pub when_ok_cases :
      (r : Result A E) (s : S) (f : A → Result B E × S)
      → P s
      → ((a : A) → r ≡ ok a → P (f a).1)
      → P (when_ok r s f).1
  when_ok_cases (ok a) s f h k = k a refl
  when_ok_cases (err e) s f h k = h

  pub and_then_cases :
      (m : Result A E × S) (f : A → S → Result B E × S)
      → P m.1
      → ((a : A) → m.0 ≡ ok a → P (f a m.1).1)
      → P (and_then m f).1
  and_then_cases (ok a, s) f h k = k a refl
  and_then_cases (err e, s) f h k = h

module _ {ℓ κ μ λ'} {S : Type ℓ} {E : Type κ} {A : Type μ} (P : S → Type λ') where
  pub branch_cases :
      (b : Bool) (x y : Result A E × S)
      → (b ≡ true → P x.1)
      → (b ≡ false → P y.1)
      → P (if b then x else y).1
  branch_cases true x y h k = h refl
  branch_cases false x y h k = k refl

pub and_then-eq_of_ok {ℓ κ μ ν} :
    {S : Type ℓ} {E : Type κ} {A : Type μ} {B : Type ν} (m : Result A E × S)
    (f : A → S → Result B E × S) (a : A)
    → m.0 ≡ ok a
    → and_then m f ≡ f a m.1
and_then-eq_of_ok (ok b, s) f a h = ground arith
and_then-eq_of_ok (err e, s) f a h = cc

-- A postcondition of the calls that succeed.
abbrev pub OnOk {ℓ κ μ ν} :
    {S : Type ℓ} {E : Type κ} {A : Type μ} → (A → S → Type ν) → Result A E × S → Type (κ ⊔ μ ⊔ ν)
OnOk {A} Q r = (a : A) → r.0 ≡ ok a → Q a r.1

module _ {ℓ κ μ ν λ'} {S : Type ℓ} {E : Type κ} {A : Type μ} {B : Type ν}
    (Q : B → S → Type λ') where
  pub and_then-OnOk :
      (m : Result A E × S) (f : A → S → Result B E × S)
      → ((a : A) → m.0 ≡ ok a → OnOk Q (f a m.1))
      → OnOk Q (and_then m f)
  and_then-OnOk (ok a, s) f h = h a refl
  and_then-OnOk (err e, s) f h = λ b p. cc

  pub when_ok-OnOk :
      (r : Result A E) (s : S) (f : A → Result B E × S)
      → ((a : A) → r ≡ ok a → OnOk Q (f a))
      → OnOk Q (when_ok r s f)
  when_ok-OnOk (ok a) s f h = h a refl
  when_ok-OnOk (err e) s f h = λ b p. cc

module _ {ℓ κ ν λ'} {S : Type ℓ} {E : Type κ} {B : Type ν} (Q : B → S → Type λ') where
  pub branch-OnOk :
      (b : Bool) (x y : Result B E × S)
      → (b ≡ true → OnOk Q x)
      → (b ≡ false → OnOk Q y)
      → OnOk Q (if b then x else y)
  branch-OnOk true x y h k = h refl
  branch-OnOk false x y h k = k refl

-- A postcondition of the calls that fail.
abbrev pub OnErr {ℓ κ μ ν} :
    {S : Type ℓ} {E : Type κ} {A : Type μ} → (S → Type ν) → Result A E × S → Type (κ ⊔ μ ⊔ ν)
OnErr {E} P r = (e : E) → r.0 ≡ err e → P r.1

module _ {ℓ κ μ ν λ'} {S : Type ℓ} {E : Type κ} {A : Type μ} {B : Type ν} (P : S → Type λ') where
  pub and_then-OnErr :
      (m : Result A E × S) (f : A → S → Result B E × S)
      → OnErr P m
      → ((a : A) → m.0 ≡ ok a → OnErr P (f a m.1))
      → OnErr P (and_then m f)
  and_then-OnErr (ok a, s) f h k = k a refl
  and_then-OnErr (err e, s) f h k = λ v p. h e refl

  pub when_ok-OnErr :
      (r : Result A E) (s : S) (f : A → Result B E × S)
      → P s
      → ((a : A) → r ≡ ok a → OnErr P (f a))
      → OnErr P (when_ok r s f)
  when_ok-OnErr (ok a) s f h k = k a refl
  when_ok-OnErr (err e) s f h k = λ v p. h

module _ {ℓ κ μ λ'} {S : Type ℓ} {E : Type κ} {A : Type μ} (P : S → Type λ') where
  pub branch-OnErr :
      (b : Bool) (x y : Result A E × S)
      → (b ≡ true → OnErr P x)
      → (b ≡ false → OnErr P y)
      → OnErr P (if b then x else y)
  branch-OnErr true x y h k = h refl
  branch-OnErr false x y h k = k refl

pub not_both {ℓ κ} :
    {A : Type ℓ} {E : Type κ} {r : Result A E} (a : A) (e : E) → r ≡ ok a → r ≡ err e → ⊥
not_both a e h k = cc

-- A chain of methods that succeeds had a first method that did.
pub and_then-first {ℓ κ μ} :
    {S : Type ℓ} {E : Type κ} {B : Type μ} (m : Result (Unit {0}) E × S)
    (f : Unit {0} → S → Result B E × S) (b : B)
    → (and_then m f).0 ≡ ok b
    → m.0 ≡ ok tt
and_then-first (ok a, s) f b h = refl
and_then-first (err e, s) f b h = cc

pub if_cases {ℓ κ} :
    {A : Type ℓ} (P : A → Type κ) (b : Bool) (x y : A)
    → (b ≡ true → P x)
    → (b ≡ false → P y)
    → P (if b then x else y)
if_cases P true x y h k = h refl
if_cases P false x y h k = k refl
