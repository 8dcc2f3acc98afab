-- ===== src/Sql/Laws.antt =====
-- Joins and groups where keys are distinct.
use path_external_auth_serve.Base.{
  GoString, Bool, true, false, not, Option, none, some, List, [], ◌∷◌, map, Member, here, there,
  Member-matching, matching, find, matching-none, HaveDistinct, ◌≡◌, refl, sym, ap, ◌∙◌, subst,
  arith, ◌==◌, string_Eq, string_eq_iff, ◌↔◌, Bool-cases, inl, inr,
}
use path_external_auth_serve.Sql.{beside, left_join, group_by, is_column, is_same_text}

abbrev pub of_option : {A : Type 0} → Option A → List A
of_option none = []
of_option (some x) = x ∷ []

pub matching-of_option :
    {A : Type 0} (key : A → GoString) (k : GoString) (xs : List A)
    → HaveDistinct key xs
    → matching (λ x. key x == k) xs ≡ of_option (find (λ x. key x == k) xs)
unfolding matching find
matching-of_option key k [] d = refl
matching-of_option key k (x ∷ xs) (fresh, d) = elim (Bool-cases (key x == k)) [
  | inl same ↦
      let is_k = (string_eq_iff (key x) k).0 same in
      let alone =
        subst (λ j. matching (λ y. key y == j) xs ≡ []) is_k
          (matching-none (λ y. key y == key x) xs fresh) in
      rw same (ap (◌∷◌ x) alone)
  | inr other ↦ rw other (matching-of_option key k xs d)
]

pub matching_never : {A : Type 0} (xs : List A) → matching (λ x. false) xs ≡ []
unfolding matching
matching_never [] = refl
matching_never (x ∷ xs) = matching_never xs

pub find_never : {A : Type 0} (xs : List A) → find (λ x. false) xs ≡ none
unfolding find
find_never [] = refl
find_never (x ∷ xs) = find_never xs

module _ {A B : Type 0} where
  beside-of_option : (x : A) (y : Option B) → beside x (of_option y) ≡ (x, y) ∷ []
  beside-of_option x none = refl
  beside-of_option x (some y) = refl

  -- Where every row has one partner at most, the join keeps the rows one by one.
  pub left_join-find :
      (on : A → B → Bool) (xs : List A) (ys : List B)
      → ((x : A) → matching (on x) ys ≡ of_option (find (on x) ys))
      → left_join on xs ys ≡ map (λ x. (x, find (on x) ys)) xs
  unfolding left_join
  left_join-find on [] ys unique = refl
  left_join-find on (x ∷ xs) ys unique =
      rw (unique x, beside-of_option x (find (on x) ys), left_join-find on xs ys unique) refl

  pub matching-map :
      (p : B → Bool) (f : A → B) (xs : List A)
      → matching p (map f xs) ≡ map f (matching (λ x. p (f x)) xs)
  unfolding matching
  matching-map p f [] = refl
  matching-map p f (x ∷ xs) = elim (Bool-cases (p (f x))) [
    | inl kept ↦ rw (kept, matching-map p f xs) refl
    | inr dropped ↦ rw (dropped, matching-map p f xs) refl
  ]

  find-map :
      (p : B → Bool) (f : A → B) (xs : List A)
      → find (λ x. p (f x)) xs ≡ none
      → find p (map f xs) ≡ none
  unfolding find
  find-map p f [] h = refl
  find-map p f (x ∷ xs) h = ground (arith, find-map p f xs)

  pub HaveDistinct-map :
      (key : B → GoString) (f : A → B) (xs : List A)
      → HaveDistinct (λ x. key (f x)) xs
      → HaveDistinct key (map f xs)
  HaveDistinct-map key f [] d = tt
  HaveDistinct-map key f (x ∷ xs) (fresh, d) =
      (find-map (λ y. key y == key (f x)) f xs fresh, HaveDistinct-map key f xs d)

pub map-compose :
    {A B C : Type 0} (f : B → C) (g : A → B) (xs : List A)
    → map f (map g xs) ≡ map (λ x. f (g x)) xs
map-compose f g [] = refl
map-compose f g (x ∷ xs) = rw (map-compose f g xs) refl

module _ {A : Type 0} where
  find-matching : (p q : A → Bool) (xs : List A) → find q xs ≡ none → find q (matching p xs) ≡ none
  unfolding find matching
  find-matching p q [] h = refl
  find-matching p q (x ∷ xs) h = ground (arith, find-matching p q xs)

  pub HaveDistinct-matching :
      (key : A → GoString) (p : A → Bool) (xs : List A)
      → HaveDistinct key xs
      → HaveDistinct key (matching p xs)
  unfolding matching
  HaveDistinct-matching key p [] d = tt
  HaveDistinct-matching key p (x ∷ xs) (fresh, d) = elim (Bool-cases (p x)) [
    | inl kept ↦
        rw kept (find-matching p (λ y. key y == key x) xs fresh, HaveDistinct-matching key p xs d)
    | inr dropped ↦ rw dropped (HaveDistinct-matching key p xs d)
  ]

  pub matching_all :
      (p : A → Bool) (xs : List A) → ((x : A) → Member x xs → p x ≡ true) → matching p xs ≡ xs
  unfolding matching
  matching_all p [] h = refl
  matching_all p (x ∷ xs) h = rw (h x (here refl), matching_all p xs (λ y m. h y (there m))) refl

module _ {A K : Type 0} (key : A → K) (same : A → A → Bool) where
  -- Each row has one of its group among the groups.
  pub group_by_complete :
      ((x y : A) → same x y ≡ true → key x ≡ key y)
      → (x : A) (xs : List A) → Member x xs
      → (y : A) × Member y (group_by same xs) × (key y ≡ key x)
  unfolding group_by
  group_by_complete sound x [] m = elim m [ ]
  group_by_complete sound x (y ∷ ys) (here e) = (y, here refl, ap key (sym e))
  group_by_complete sound x (y ∷ ys) (there m) =
      let (z, in_groups, k) = group_by_complete sound x ys m in
      elim (Bool-cases (same y z)) [
        | inl grouped ↦ (y, here refl, sound y z grouped ∙ k)
        | inr apart ↦ (
          z,
          there (
              (Member-matching (λ w. not (same y w)) z (group_by same ys)).1
                (ap not apart, in_groups)),
          k,
        )
      ]

pub is_column_iff :
    (column : Option GoString) (value : GoString)
    → (is_column column value ≡ true) ↔ (column ≡ some value)
is_column_iff none value = (λ h. cc h, λ h. cc h)
is_column_iff (some text) value =
    (λ h. ap some (sym ((string_eq_iff value text).0 h)), λ h. (string_eq_iff value text).1 (cc h))

pub is_same_text_sound : (a b : Option GoString) → is_same_text a b ≡ true → a ≡ b
is_same_text_sound none none h = refl
is_same_text_sound none (some b) h = cc h
is_same_text_sound (some a) none h = cc h
is_same_text_sound (some a) (some b) h = ap some ((string_eq_iff a b).0 h)
