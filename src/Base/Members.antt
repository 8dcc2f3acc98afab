-- ===== src/Base/Members.antt =====
-- Membership in a list, and the lists that a test picks out. No code of its own.
use mathlib.Core.Path.{◌≡◌, refl, sym, ap, ◌∙◌}
use mathlib.Core.Logic.{◌↔◌, inl, inr}
use mathlib.Core.Bool.{Bool, true, false}
use mathlib.Core.Option.{Option, none, some}
use mathlib.Core.List.{List, [], ◌∷◌, map}
use native.Mathlib.Omega.{arith}
use path_external_auth_serve.Base.Tests.{if◌then◌else◌, Bool-cases, ◌==◌}
use path_external_auth_serve.Base.Lists.{All}
use path_external_auth_serve.Base.Text.{GoString, string_Eq, string_eq_iff}

module _ {ℓ} {A : Type ℓ} where
  -- Where the value stands is kept, unlike in the library's `Mem`.
  pub data Member (x : A) : List A → Type ℓ where
    here : {y : A} {ys : List A} → x ≡ y → Member x (y ∷ ys)
    there : {y : A} {ys : List A} → Member x ys → Member x (y ∷ ys)

  -- Two lists of the same values, in any order.
  abbrev pub HaveSameMembers : List A → List A → Type ℓ
  HaveSameMembers xs ys = (x : A) → Member x xs ↔ Member x ys

  unfoldable pub matching : (A → Bool) → List A → List A
  matching p [] = []
  matching p (x ∷ xs) = if p x then x ∷ matching p xs else matching p xs

  unfoldable pub find : (A → Bool) → List A → Option A
  find p [] = none
  find p (x ∷ xs) = if p x then some x else find p xs

  -- No two of the values have the same key.
  abbrev pub HaveDistinct : (A → GoString) → List A → Type ℓ
  HaveDistinct key [] = Unit
  HaveDistinct key (x ∷ xs) = (find (λ y. key y == key x) xs ≡ none) × HaveDistinct key xs

  pub Member-matching :
      (p : A → Bool) (x : A) (xs : List A) → Member x (matching p xs) ↔ ((p x ≡ true) × Member x xs)
  unfolding matching
  Member-matching p x [] = (λ m. elim m [ ], λ m. elim m.1 [ ])
  Member-matching p x (y ∷ ys) = elim (Bool-cases (p y)) [
    | inl kept ↦ rw kept (
      λ m. elim m [
        | here e ↦ (ap p e ∙ kept, here e)
        | there m ↦ let (q, n) = (Member-matching p x ys).0 m in (q, there n)
      ],
      λ (q, m). elim m [ here e ↦ here e | there n ↦ there ((Member-matching p x ys).1 (q, n)) ],
    )
    | inr dropped ↦ rw dropped (
      λ m. let (q, n) = (Member-matching p x ys).0 m in (q, there n),
      λ (q, m). elim m [
        | here e ↦ cc (ap p e, dropped, q)
        | there n ↦ (Member-matching p x ys).1 (q, n)
      ],
    )
  ]

  pub find-none :
      (p : A → Bool) (xs : List A) → find p xs ≡ none → (x : A) → Member x xs → p x ≡ false
  unfolding find
  find-none p [] h x m = elim m [ ]
  find-none p (y ∷ ys) h x (here e) = ground (arith, ap p e)
  find-none p (y ∷ ys) h x (there m) = ground (arith, find-none p ys (ground arith) x m)

  pub matching-none : (p : A → Bool) (xs : List A) → find p xs ≡ none → matching p xs ≡ []
  unfolding matching find
  matching-none p [] h = refl
  matching-none p (x ∷ xs) h = ground (arith, matching-none p xs)

  pub find_sound :
      (p : A → Bool) (xs : List A) {x : A} → find p xs ≡ some x → (p x ≡ true) × Member x xs
  unfolding find
  find_sound p [] h = cc h
  find_sound p (y ∷ ys) {x} h = elim (Bool-cases (p y)) [
    | inl found ↦
        let same : y ≡ x = cc (rw found at h) in (ap p (sym same) ∙ found, here (sym same))
    | inr other ↦ let (q, m) = find_sound p ys (rw other at h) in (q, there m)
  ]

  -- Where the keys are distinct the value under a key is the only one.
  pub find_unique :
      (key : A → GoString) (xs : List A) {x : A}
      → HaveDistinct key xs
      → Member x xs
      → find (λ y. key y == key x) xs ≡ some x
  unfolding find
  find_unique key [] d m = elim m [ ]
  find_unique key (y ∷ ys) {x} (fresh, d) (here e) =
      rw ((string_eq_iff (key y) (key x)).1 (ap key (sym e))) (ap some (sym e))
  find_unique key (y ∷ ys) {x} (fresh, d) (there m) = elim (Bool-cases (key y == key x)) [
    | inl same ↦
        let differs = find-none (λ z. key z == key y) ys fresh x m in
        cc (
          differs,
          (string_eq_iff (key x) (key y)).1 (sym ((string_eq_iff (key y) (key x)).0 same)),
        )
    | inr other ↦ rw other (find_unique key ys d m)
  ]

module _ {ℓ κ} {A : Type ℓ} (P : A → Type κ) where
  pub All-of_members : (xs : List A) → ((x : A) → Member x xs → P x) → All P xs
  All-of_members [] h = tt
  All-of_members (x ∷ xs) h = (h x (here refl), All-of_members xs (λ y m. h y (there m)))

module _ {ℓ κ} {A : Type ℓ} {B : Type κ} where
  pub Member-map :
      (f : A → B) (y : B) (xs : List A) → Member y (map f xs) ↔ ((x : A) × Member x xs × (y ≡ f x))
  Member-map f y [] = (λ m. elim m [ ], λ (x, m, e). elim m [ ])
  Member-map f y (x ∷ xs) = (
    λ m. elim m [
      | here e ↦ (x, here refl, e)
      | there n ↦ let (z, k, e) = (Member-map f y xs).0 n in (z, there k, e)
    ],
    λ (z, m, e). elim m [
      | here same ↦ here (e ∙ ap f same)
      | there k ↦ there ((Member-map f y xs).1 (z, k, e))
    ],
  )
