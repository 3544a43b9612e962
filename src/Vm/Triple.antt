-- ===== src/Vm/Triple.antt =====
-- What runs of the machine keep: a rule for each way to build one.
use insomniac.Base.{Bool, true, false, Option, none, some, if◌then◌else◌}
use insomniac.Vm.State.{Ptr, Vm}
use insomniac.Vm.Run.{
  Outcome, done, aborted, undefined, diverged, M, pure, fault, abort, gets, need, modify, continue,
  ◌>>=◌,
}

-- The run ends: in a value that satisfies `Q`, by `assert(0)`, or in behaviour that C leaves open.
abbrev pub Holds : {A : Type 0} → (A → Vm → Type 0) → Outcome A → Type 0
Holds Q (done a vm) = Q a vm
Holds Q (aborted e vm) = Unit
Holds Q undefined = Unit
Holds Q diverged = ⊥

-- The run returns, with a value and a machine that satisfy `Q`.
abbrev pub Returns : {A : Type 0} → (A → Vm → Type 0) → Outcome A → Type 0
Returns Q (done a vm) = Q a vm
Returns Q (aborted e vm) = ⊥
Returns Q undefined = ⊥
Returns Q diverged = ⊥

pub record Triple {A : Type 0} (P : Vm → Type 0) (m : M A) (Q : A → Vm → Type 0) : Type 0 where
  pub at : (vm : Vm) → P vm → Holds Q (m vm)

abbrev pub Keeps : {A : Type 0} → (Vm → Type 0) → M A → Type 0
Keeps P m = Triple P m (λ _. P)

module _ {A B : Type 0} {R : A → Vm → Type 0} {Q : B → Vm → Type 0} where
  Holds-continue :
      (r : Outcome A) (f : A → M B)
      → Holds R r
      → ((a : A) → Triple (R a) (f a) Q)
      → Holds Q (continue r f)
  unfolding continue
  Holds-continue (done a vm) f h next = (next a).at vm h
  Holds-continue (aborted e vm) f h next = tt
  Holds-continue undefined f h next = tt
  Holds-continue diverged f h next = h

  pub Triple-bind :
      {P : Vm → Type 0} (m : M A) (f : A → M B)
      → Triple P m R
      → ((a : A) → Triple (R a) (f a) Q)
      → Triple P (m >>= f) Q
  unfolding ◌>>=◌
  Triple-bind m f first next = record { at = λ vm h. Holds-continue (m vm) f (first.at vm h) next }

-- the run ends by `assert(0)`
abbrev pub Aborts : {A : Type 0} → Outcome A → Type 0
Aborts (done a vm) = ⊥
Aborts (aborted e vm) = Unit
Aborts undefined = ⊥
Aborts diverged = ⊥

module _ {A B : Type 0} (R : A → Vm → Type 0) (T : Outcome B → Type 0) where
  Returns-continue :
      (r : Outcome A) (f : A → M B)
      → Returns R r
      → ((a : A) (vm : Vm) → R a vm → T (f a vm))
      → T (continue r f)
  unfolding continue
  Returns-continue (done a vm) f h next = next a vm h
  Returns-continue (aborted e vm) f h next = absurd h
  Returns-continue undefined f h next = absurd h
  Returns-continue diverged f h next = absurd h

  -- what holds of the rest of a run holds of the run
  pub Returns-then :
      (m : M A) (f : A → M B) (vm : Vm)
      → Returns R (m vm)
      → ((a : A) (vm' : Vm) → R a vm' → T (f a vm'))
      → T ((m >>= f) vm)
  unfolding ◌>>=◌
  Returns-then m f vm = Returns-continue (m vm) f

module _ {A B : Type 0} (R : A → Vm → Type 0) (Q : B → Vm → Type 0) where
  pub Returns-bind :
      (m : M A) (f : A → M B) (vm : Vm)
      → Returns R (m vm)
      → ((a : A) (vm' : Vm) → R a vm' → Returns Q (f a vm'))
      → Returns Q ((m >>= f) vm)
  Returns-bind = Returns-then R (Returns Q)

module _ {A : Type 0} (Q : A → Vm → Type 0) where
  pub Returns-gets : (f : Vm → A) (vm : Vm) → Q (f vm) vm → Returns Q (gets f vm)
  unfolding gets
  Returns-gets f vm h = h

  pub Returns-pure : (a : A) (vm : Vm) → Q a vm → Returns Q (pure a vm)
  unfolding pure
  Returns-pure a vm h = h

module _ {A : Type 0} (Q R : A → Vm → Type 0) where
  pub Returns-mono :
      (r : Outcome A) → Returns R r → ((a : A) (vm : Vm) → R a vm → Q a vm) → Returns Q r
  Returns-mono (done a vm) h weaken = weaken a vm h
  Returns-mono (aborted e vm) h weaken = h
  Returns-mono undefined h weaken = h
  Returns-mono diverged h weaken = h

module _ {A : Type 0} {Q R : A → Vm → Type 0} where
  Holds-mono : (r : Outcome A) → Holds R r → ((a : A) (vm : Vm) → R a vm → Q a vm) → Holds Q r
  Holds-mono (done a vm) h weaken = weaken a vm h
  Holds-mono (aborted e vm) h weaken = tt
  Holds-mono undefined h weaken = tt
  Holds-mono diverged h weaken = h

  pub Triple-mono :
      {P : Vm → Type 0} {m : M A}
      → Triple P m R
      → ((a : A) (vm : Vm) → R a vm → Q a vm)
      → Triple P m Q
  Triple-mono {m} t weaken = record { at = λ vm h. Holds-mono (m vm) (t.at vm h) weaken }

module _ {A : Type 0} {P R : Vm → Type 0} {Q : A → Vm → Type 0} {m : M A} where
  pub Triple-pre : Triple P m Q → ((vm : Vm) → R vm → P vm) → Triple R m Q
  Triple-pre t strengthen = record { at = λ vm h. t.at vm (strengthen vm h) }

module _ {A : Type 0} {P : Vm → Type 0} where
  pub Keeps-pure : (a : A) → Keeps P (pure a)
  unfolding pure
  Keeps-pure a = record { at = λ vm h. h }

  pub Keeps-fault : Keeps P (fault {A = A})
  unfolding fault
  Keeps-fault = record { at = λ vm h. tt }

  pub Triple-abort : {Q : A → Vm → Type 0} (e : Ptr) → Triple P (abort {A = A} e) Q
  unfolding abort
  Triple-abort e = record { at = λ vm h. tt }

  pub Keeps-abort : (e : Ptr) → Keeps P (abort {A = A} e)
  Keeps-abort e = Triple-abort e

  pub Keeps-gets : (f : Vm → A) → Keeps P (gets f)
  unfolding gets
  Keeps-gets f = record { at = λ vm h. h }

  pub Keeps-need : (o : Option A) → Keeps P (need o)
  unfolding need pure fault
  Keeps-need none = record { at = λ vm h. tt }
  Keeps-need (some a) = record { at = λ vm h. h }

  pub Keeps-if : (b : Bool) (m n : M A) → Keeps P m → Keeps P n → Keeps P (if b then m else n)
  Keeps-if true m n km kn = km
  Keeps-if false m n km kn = kn

module _ {P : Vm → Type 0} where
  pub Keeps-modify : (f : Vm → Vm) → ((vm : Vm) → P vm → P (f vm)) → Keeps P (modify f)
  unfolding modify
  Keeps-modify f keep = record { at = keep }

module _ {A B : Type 0} {P : Vm → Type 0} where
  pub Keeps-bind :
      (m : M A) (f : A → M B) → Keeps P m → ((a : A) → Keeps P (f a)) → Keeps P (m >>= f)
  Keeps-bind m f km kf = Triple-bind m f km kf

pub ruleset keeps_rules =
    (Keeps-pure, Keeps-fault, Keeps-abort, Keeps-gets, Keeps-need, Keeps-if, Keeps-bind)
