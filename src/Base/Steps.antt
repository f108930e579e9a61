-- ===== src/Base/Steps.antt =====
-- Steps that change a state and may fail, and loops that end at the first failure.
use mathlib.Core.Path.{◌≡◌, refl, sym, ap, ◌∙◌, subst, fun_ext}
use mathlib.Core.Option.{Option, none, some}
use mathlib.Core.List.{List, [], ◌∷◌, ◌++◌, map, append-nil, append_assoc}
use native.Mathlib.Omega.{arith}
use clickhouse_backup.Base.Texts.{Text, codes}
use clickhouse_backup.Base.Results.{Error, error_text, errorf}

-- `if err != nil { return err }`
infixl 5 ◌then_do◌
abbrev pub ◌then_do◌ : {S : Type 0} → S × Option Error → (S → S × Option Error) → S × Option Error
(s, some e) then_do k = (s, some e)
(s, none) then_do k = k s

-- `fmt.Errorf(context + ": %v", err)`, where there is an error.
abbrev pub explain : {S : Type 0} → Text → S × Option Error → S × Option Error
explain context (s, none) = (s, none)
explain context (s, some e) = (s, some (errorf (context ++ codes ": " ++ error_text e)))

-- `os.MkdirAll(path)` and the like, where the error is dropped.
abbrev pub ignoring : {S : Type 0} → S × Option Error → S × Option Error
ignoring (s, _) = (s, none)

-- `for _, x := range xs { if err := body(x); err != nil { return err } }`
unfoldable pub for_each {ℓ} :
    {A : Type ℓ} {S : Type 0} → (A → S → S × Option Error) → List A → S → S × Option Error
for_each body [] s = (s, none)
for_each body (x ∷ xs) s = body x s then_do for_each body xs

-- The same loop where nothing fails.
abbrev pub fold_over {ℓ} : {A : Type ℓ} {S : Type 0} → (A → S → S) → List A → S → S
fold_over change [] s = s
fold_over change (x ∷ xs) s = fold_over change xs (change x s)

pub then_do_assoc :
    {S : Type 0} (r : S × Option Error) (f g : S → S × Option Error)
    → ((r then_do f) then_do g) ≡ (r then_do (λ s. f s then_do g))
then_do_assoc (s, none) f g = refl
then_do_assoc (s, some e) f g = refl

-- What ends well has had no error before.
pub then_do-none :
    {S : Type 0} (r : S × Option Error) (f : S → S × Option Error) (s : S)
    → (r then_do f) ≡ (s, none)
    → (r.1 ≡ none) × (f r.0 ≡ (s, none))
then_do-none (s', none) f s h = (refl, h)
then_do-none (s', some e) f s h = absurd (ground (arith, h))

-- A loop whose rounds do not fail is a fold.
pub for_each-fold {ℓ} :
    {A : Type ℓ} {S : Type 0} (body : A → S → S × Option Error) (change : A → S → S)
    → ((x : A) (s : S) → body x s ≡ (change x s, none))
    → (xs : List A) (s : S) → for_each body xs s ≡ (fold_over change xs s, none)
unfolding for_each
for_each-fold body change h [] s = refl
for_each-fold body change h (x ∷ xs) s =
    ap (λ r. r then_do for_each body xs) (h x s) ∙ for_each-fold body change h xs (change x s)

-- A loop whose rounds each add one text to a log.
pub for_each-log {ℓ} :
    {A : Type ℓ} (body : A → List Text → List Text × Option Error) (text : A → Text)
    → ((x : A) (s : List Text) → body x s ≡ (s ++ (text x ∷ []), none))
    → (xs : List A) (s : List Text) → for_each body xs s ≡ (s ++ map text xs, none)
unfolding for_each
for_each-log body text h [] s = ap (λ l. (l, none)) (sym (append-nil s))
for_each-log body text h (x ∷ xs) s =
    ap (λ r. r then_do for_each body xs) (h x s)
    ∙ for_each-log body text h xs (s ++ (text x ∷ []))
    ∙ ap (λ l. (l, none)) (append_assoc s (text x ∷ []) (map text xs))

-- The turns of a loop that ends at the first failure, one by one, and how it ends.
pub data Turns {ℓ} {A : Type ℓ} {S : Type 0} (body : A → S → S × Option Error)
    : List A → S → S × Option Error → Type ℓ where
  all_done : {s : S} → Turns body [] s (s, none)
  goes_on :
      {x : A} {xs : List A} {s s' : S} {end : S × Option Error}
      → body x s ≡ (s', none)
      → Turns body xs s' end
      → Turns body (x ∷ xs) s end
  stops :
      {x : A} {xs : List A} {s s' : S} {e : Error}
      → body x s ≡ (s', some e)
      → Turns body (x ∷ xs) s (s', some e)

-- Whatever the turns behind the first, the loop goes on with them or stops.
Turns-then_do {ℓ} :
    {A : Type ℓ} {S : Type 0} (body : A → S → S × Option Error) (x : A) (xs : List A) (s : S)
    (rest : S → S × Option Error) (r : S × Option Error)
    → body x s ≡ r
    → ((s' : S) → Turns body xs s' (rest s'))
    → Turns body (x ∷ xs) s (r then_do rest)
Turns-then_do body x xs s rest (s', none) h more = goes_on h (more s')
Turns-then_do body x xs s rest (s', some e) h more = stops h

pub for_each-Turns {ℓ} :
    {A : Type ℓ} {S : Type 0} (body : A → S → S × Option Error) (xs : List A) (s : S)
    → Turns body xs s (for_each body xs s)
unfolding for_each
for_each-Turns body [] s = all_done
for_each-Turns body (x ∷ xs) s =
    Turns-then_do body x xs s (for_each body xs) (body x s) refl (for_each-Turns body xs)

abbrev pub then_all :
    {S : Type 0} → S × Option Error → List (S → S × Option Error) → S × Option Error
then_all r [] = r
then_all r (f ∷ fs) = then_all (r then_do f) fs

then_do-return : {S : Type 0} (r : S × Option Error) → (r then_do (λ s. (s, none))) ≡ r
then_do-return (s, none) = refl
then_do-return (s, some e) = refl

then_all-for_each :
    {S : Type 0} (r : S × Option Error) (fs : List (S → S × Option Error))
    → (r then_do for_each (λ f. f) fs) ≡ then_all r fs
unfolding for_each
then_all-for_each r [] = then_do-return r
then_all-for_each r (f ∷ fs) =
    sym (then_do_assoc r f (for_each (λ g. g) fs)) ∙ then_all-for_each (r then_do f) fs

for_each-map_append {ℓ} :
    {A : Type ℓ} {S : Type 0} (body : A → S → S × Option Error) (xs : List A)
    (fs : List (S → S × Option Error)) (s : S)
    → for_each (λ f. f) (map body xs ++ fs) s ≡ (for_each body xs s then_do for_each (λ f. f) fs)
unfolding for_each
for_each-map_append body [] fs s = refl
for_each-map_append body (x ∷ xs) fs s =
    ap (λ k. body x s then_do k) (fun_ext (for_each-map_append body xs fs))
    ∙ sym (then_do_assoc (body x s) (for_each body xs) (for_each (λ f. f) fs))

-- A loop, and steps after it, as the turns of one list of steps.
pub then_all-Turns {ℓ} :
    {A : Type ℓ} {S : Type 0} (body : A → S → S × Option Error) (xs : List A)
    (fs : List (S → S × Option Error)) (s : S)
    → Turns (λ f. f) (map body xs ++ fs) s (then_all (for_each body xs s) fs)
then_all-Turns body xs fs s =
    subst (Turns (λ f. f) (map body xs ++ fs) s)
      (for_each-map_append body xs fs s ∙ then_all-for_each (for_each body xs s) fs)
      (for_each-Turns (λ f. f) (map body xs ++ fs) s)
