-- ===== src/Prelude/Lists.antt =====
-- Lists measured and indexed by native numbers, under the library's names.
use Prim.Native.Nat.{ℕ, zero, suc, ◌+◌, ◌-◌, ◌≤◌, ◌<◌, min}
use mathlib.Core.Path.{◌≡◌, refl, ap, ◌∙◌}
use mathlib.Core.Logic.{◌≢◌}
use mathlib.Core.List.{List, [], ◌∷◌, ◌++◌}
use mathlib.Core.Option.{Option, none, some}
use mathlib.Core.Bool.{true, false}
use mathlib.Core.Logic.{inl, inr}
use tinyllama_c.Prelude.Tests.{◌==◌, ltb, if◌then◌else◌, Bool-cases}
use native.Mathlib.Omega.{arith}

module _ {ℓ} {A : Type ℓ} where
  abbrev pub length : List A → ℕ
  length [] = 0
  length (x ∷ xs) = suc (length xs)

  abbrev pub get_elem? : List A → ℕ → Option A
  get_elem? [] i = none
  get_elem? (x ∷ xs) zero = some x
  get_elem? (x ∷ xs) (suc i) = get_elem? xs i

  -- Out of range the default stands for what the code does not read.
  abbrev pub get_or : List A → ℕ → A → A
  get_or [] i d = d
  get_or (x ∷ xs) zero d = x
  get_or (x ∷ xs) (suc i) d = get_or xs i d

  -- A write out of bounds changes nothing.
  abbrev pub set : List A → ℕ → A → List A
  set [] i v = []
  set (x ∷ xs) zero v = v ∷ xs
  set (x ∷ xs) (suc i) v = x ∷ set xs i v

  abbrev pub take : ℕ → List A → List A
  take zero xs = []
  take (suc n) [] = []
  take (suc n) (x ∷ xs) = x ∷ take n xs

  abbrev pub drop : ℕ → List A → List A
  drop zero xs = xs
  drop (suc n) [] = []
  drop (suc n) (x ∷ xs) = drop n xs

  abbrev pub replicate : ℕ → A → List A
  replicate zero a = []
  replicate (suc n) a = a ∷ replicate n a

module _ {ℓ} {A : Type ℓ} where
  pub length-append : (xs ys : List A) → length (xs ++ ys) ≡ length xs + length ys
  length-append [] ys = omega arith
  length-append (x ∷ xs) ys = omega (arith, length-append xs ys)

  pub length-set : (xs : List A) (i : ℕ) (v : A) → length (set xs i v) ≡ length xs
  length-set [] i v = refl
  length-set (x ∷ xs) zero v = refl
  length-set (x ∷ xs) (suc i) v = ap suc (length-set xs i v)

  pub get_or-set_self :
      (xs : List A) (i : ℕ) (v d : A) → i < length xs → get_or (set xs i v) i d ≡ v
  get_or-set_self [] i v d h = absurd (omega arith)
  get_or-set_self (x ∷ xs) zero v d h = refl
  get_or-set_self (x ∷ xs) (suc i) v d h = get_or-set_self xs i v d (omega arith)

  pub get_or-set_ne :
      (xs : List A) (i j : ℕ) (v d : A) → i ≢ j → get_or (set xs i v) j d ≡ get_or xs j d
  get_or-set_ne [] i j v d h = refl
  get_or-set_ne (x ∷ xs) zero zero v d h = absurd (h refl)
  get_or-set_ne (x ∷ xs) zero (suc j) v d h = refl
  get_or-set_ne (x ∷ xs) (suc i) zero v d h = refl
  get_or-set_ne (x ∷ xs) (suc i) (suc j) v d h = get_or-set_ne xs i j v d (λ e. h (ap suc e))

  pub take-append-drop : (n : ℕ) (xs : List A) → take n xs ++ drop n xs ≡ xs
  take-append-drop zero xs = refl
  take-append-drop (suc n) [] = refl
  take-append-drop (suc n) (x ∷ xs) = ap (λ t. x ∷ t) (take-append-drop n xs)

  pub length-take : (n : ℕ) (xs : List A) → length (take n xs) ≡ min n (length xs)
  length-take zero xs = omega arith
  length-take (suc n) [] = omega arith
  length-take (suc n) (x ∷ xs) = omega (arith, length-take n xs)

  pub length-drop : (n : ℕ) (xs : List A) → length (drop n xs) ≡ length xs - n
  length-drop zero xs = omega arith
  length-drop (suc n) [] = omega arith
  length-drop (suc n) (x ∷ xs) = omega (arith, length-drop n xs)

  pub take-all : (n : ℕ) (xs : List A) → length xs ≤ n → take n xs ≡ xs
  take-all zero [] h = refl
  take-all zero (x ∷ xs) h = absurd (omega arith)
  take-all (suc n) [] h = refl
  take-all (suc n) (x ∷ xs) h = ap (λ t. x ∷ t) (take-all n xs (omega arith))

  pub take-append : (xs ys : List A) → take (length xs) (xs ++ ys) ≡ xs
  take-append [] ys = refl
  take-append (x ∷ xs) ys = ap (λ t. x ∷ t) (take-append xs ys)

  pub drop-append : (xs ys : List A) → drop (length xs) (xs ++ ys) ≡ ys
  drop-append [] ys = refl
  drop-append (x ∷ xs) ys = drop-append xs ys

  pub length-replicate : (n : ℕ) (a : A) → length (replicate n a) ≡ n
  length-replicate zero a = refl
  length-replicate (suc n) a = ap suc (length-replicate n a)

  pub get_or-replicate : (n i : ℕ) (a : A) → get_or (replicate n a) i a ≡ a
  get_or-replicate zero i a = refl
  get_or-replicate (suc n) zero a = refl
  get_or-replicate (suc n) (suc i) a = get_or-replicate n i a

  pub get_or-set :
      (xs : List A) (i j : ℕ) (v d : A)
      → i < length xs
      → get_or (set xs i v) j d ≡ (if i == j then v else get_or xs j d)
  get_or-set [] i j v d h = absurd (omega arith)
  get_or-set (x ∷ xs) zero zero v d h = refl
  get_or-set (x ∷ xs) zero (suc j) v d h = ground arith
  get_or-set (x ∷ xs) (suc i) zero v d h = ground arith
  get_or-set (x ∷ xs) (suc i) (suc j) v d h = get_or-set xs i j v d (omega arith) ∙ ground arith

-- A list cut at `m`, written on as far as `m` allows.
module _ {ℓ} {A : Type ℓ} where
  pub take-nil : (m : ℕ) → take {A = A} m [] ≡ []
  take-nil zero = refl
  take-nil (suc m) = refl

  pub write-append :
      (m : ℕ) (a b : List A)
      → (if ltb (length (take m a)) m then take m a ++ take (m - length (take m a)) b else take m a)
        ≡ take m (a ++ b)
  write-append zero a b = ground arith
  write-append (suc m) [] b = ground arith
  write-append (suc m) (x ∷ a) b = elim (Bool-cases (ltb (length (take m a)) m)) [
    | inl e ↦
        let same : suc m - suc (length (take m a)) ≡ m - length (take m a) = omega arith in
        let e' : ltb (suc (length (take m a))) (suc m) ≡ true = ground arith in
        rw (e', same) (ap (λ t. x ∷ t) (rw e at (write-append m a b)))
    | inr e ↦
        let e' : ltb (suc (length (take m a))) (suc m) ≡ false = ground arith in
        rw e' (ap (λ t. x ∷ t) (rw e at (write-append m a b)))
  ]

  pub write-snoc :
      (m : ℕ) (a : List A) (x : A)
      → (if ltb (length (take m a)) m then take m a ++ x ∷ [] else take m a) ≡ take m (a ++ x ∷ [])
  write-snoc zero a x = ground arith
  write-snoc (suc m) [] x = ground (arith, take-nil m)
  write-snoc (suc m) (y ∷ a) x = elim (Bool-cases (ltb (length (take m a)) m)) [
    | inl e ↦
        let e' : ltb (suc (length (take m a))) (suc m) ≡ true = ground arith in
        rw e' (ap (λ t. y ∷ t) (rw e at (write-snoc m a x)))
    | inr e ↦
        let e' : ltb (suc (length (take m a))) (suc m) ≡ false = ground arith in
        rw e' (ap (λ t. y ∷ t) (rw e at (write-snoc m a x)))
  ]

-- Of every element.
abbrev pub Every : (ℕ → Type 0) → List ℕ → Type 0
Every P [] = Unit {0}
Every P (x ∷ xs) = P x × Every P xs

module _ (P : ℕ → Type 0) where
  pub take-Every : (n : ℕ) (xs : List ℕ) → Every P xs → Every P (take n xs)
  take-Every zero xs h = tt
  take-Every (suc n) [] h = tt
  take-Every (suc n) (x ∷ xs) (p, h) = (p, take-Every n xs h)

  pub drop-Every : (n : ℕ) (xs : List ℕ) → Every P xs → Every P (drop n xs)
  drop-Every zero xs h = h
  drop-Every (suc n) [] h = tt
  drop-Every (suc n) (x ∷ xs) (p, h) = drop-Every n xs h

  pub append-Every : (xs ys : List ℕ) → Every P (xs ++ ys) → Every P xs × Every P ys
  append-Every [] ys h = (tt, h)
  append-Every (x ∷ xs) ys (p, h) = let (a, b) = append-Every xs ys h in ((p, a), b)
