-- ===== src/Validation/Accept.antt =====
-- When a reader of `Check` takes its field without an issue, for validation.ts.
use rebalance_webull.Prelude.{◌≡◌, refl, Bool, true, false, none, some, List, [], ◌∷◌, arith}
use rebalance_webull.Validation.Check.{
  Message, IssuePath, Issue, Checked, pure, after, ◌>>=◌, ◌>>◌, add, add_if,
}

-- The reader returns `a` and pushes no issue.
abbrev pub Accepts : {N A : Type 0} → Checked N A → A → Type 0
Accepts m a = m ≡ some (a, [])

after-Accepts :
    {N B : Type 0} (issues : List (Issue N)) (m : Checked N B) {b : B}
    → Accepts (after issues m) b
    → (issues ≡ []) × Accepts m b
after-Accepts issues none h = cc
after-Accepts [] (some (c, more)) h = (refl, h)
after-Accepts (i ∷ issues) (some (c, more)) h = ground arith

-- A chain accepts just when its two parts do.
pub >>=-Accepts :
    {N A B : Type 0} (m : Checked N A) (f : A → Checked N B) {b : B}
    → Accepts (m >>= f) b
    → (a : A) × Accepts m a × Accepts (f a) b
>>=-Accepts none f h = cc
>>=-Accepts (some (a, issues)) f h = let (e, k) = after-Accepts issues (f a) h in (a, rw e, k)

after_nil : {N B : Type 0} (m : Checked N B) → after [] m ≡ m
after_nil none = refl
after_nil (some (b, more)) = refl

pub >>=_of_Accepts :
    {N A B : Type 0} {m : Checked N A} (f : A → Checked N B) {a : A} → Accepts m a → (m >>= f) ≡ f a
>>=_of_Accepts f {a} h = rw h (after_nil (f a))

pub add_if-Accepts :
    {N B : Type 0} (test : Bool) (path : IssuePath) (message : Message N) (k : Checked N B) {b : B}
    → Accepts (add_if test path message >> k) b
    → (test ≡ false) × Accepts k b
add_if-Accepts true path message k h = absurd (cons_ne_nil (after-Accepts (_ ∷ []) k h).0)
  where
    cons_ne_nil : {A : Type 0} {x : A} {xs : List A} → x ∷ xs ≡ [] → ⊥
    cons_ne_nil e = cc
add_if-Accepts false path message k h = (refl, (after-Accepts [] k h).1)

pub pure-Accepts : {N A : Type 0} {a b : A} → Accepts {N = N} (pure a) b → b ≡ a
pure-Accepts h = cc

-- A reader that pushes an issue does not accept.
pub add-Accepts :
    {N B : Type 0} (path : IssuePath) (message : Message N) (k : Checked N B) {b : B}
    → Accepts (add path message >> k) b
    → ⊥
add-Accepts path message k h = cc (add_if-Accepts true path message k h).0

-- A reader whose value is not used accepts with what follows it.
pub ignored-Accepts :
    {N A B : Type 0} (m : Checked N A) (k : Checked N B) {b : B}
    → Accepts (m >>= λ ignored. k) b
    → Accepts k b
ignored-Accepts m k h = (>>=-Accepts m (λ ignored. k) h).2
