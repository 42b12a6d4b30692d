-- ===== src/Postgres/Tables/Keys.antt =====
-- Rows with distinct keys: an update that keeps the keys, and the row that a key names.
use solitaire_matchmaking.Base.{
  ◌≡◌, inl, inr, refl, sym, ap, ◌∙◌, Bool, true, false, ◌||◌, List, [], ◌∷◌, ◌++◌, String, str_eq,
  contains, if◌then◌else◌, arith, Bool-cases, In, All, str_eq_refl, eq_iff, map,
}
use solitaire_matchmaking.Postgres.Tables.{update, exists}

module _ {A : Type 0} (key : A → String) where
  -- A primary key.
  abbrev pub AreKeyed : List A → Type 0
  AreKeyed [] = Unit {0}
  AreKeyed (r ∷ rs) = (exists (λ q. str_eq (key q) (key r)) rs ≡ false) × AreKeyed rs

  pub exists-In :
      (id : String) (rs : List A) (r : A)
      → In r rs
      → key r ≡ id
      → exists (λ q. str_eq (key q) id) rs ≡ true
  unfolding exists
  exists-In id [] r i e = absurd i
  exists-In id (x ∷ rs) r (inl same) e =
      let here : str_eq (key x) id ≡ true = rw (← same) (rw e (str_eq_refl id)) in rw here refl
  exists-In id (x ∷ rs) r (inr i) e = ground (arith, exists-In id rs r i)

  pub same_row : (rs : List A) (a b : A) → AreKeyed rs → In a rs → In b rs → key a ≡ key b → a ≡ b
  same_row [] a b u i j e = absurd i
  same_row (x ∷ rs) a b (fresh, u) (inl h) (inl k) e = h ∙ sym k
  same_row (x ∷ rs) a b (fresh, u) (inl h) (inr j) e =
      let other = exists-In (key x) rs b j (sym e ∙ ap key h) in cc
  same_row (x ∷ rs) a b (fresh, u) (inr i) (inl k) e =
      let other = exists-In (key x) rs a i (e ∙ ap key k) in cc
  same_row (x ∷ rs) a b (fresh, u) (inr i) (inr j) e = same_row rs a b u i j e

  kept_key :
      (q : A → Bool) (f : A → A) (x : A)
      → (q x ≡ true → key (f x) ≡ key x)
      → key (if q x then f x else x) ≡ key x
  kept_key q f x same = elim (Bool-cases (q x)) [
    | inl y ↦ ap (λ b. key (if b then f x else x)) y ∙ same y
    | inr n ↦ ap (λ b. key (if b then f x else x)) n
  ]

  pub exists-update :
      (k : String) (q : A → Bool) (f : A → A) (rs : List A)
      → ((x : A) → q x ≡ true → key (f x) ≡ key x)
      → exists (λ r. str_eq (key r) k) (update q f rs) ≡ exists (λ r. str_eq (key r) k) rs
  unfolding exists update
  exists-update k q f [] same = refl
  exists-update k q f (x ∷ rs) same =
      ap (λ i. str_eq i k || exists (λ r. str_eq (key r) k) (update q f rs))
        (kept_key q f x (same x))
      ∙ ap (λ b. str_eq (key x) k || b) (exists-update k q f rs same)

  pub AreKeyed-update :
      (q : A → Bool) (f : A → A) (rs : List A)
      → ((x : A) → q x ≡ true → key (f x) ≡ key x)
      → AreKeyed rs
      → AreKeyed (update q f rs)
  unfolding update
  AreKeyed-update q f [] same h = tt
  AreKeyed-update q f (x ∷ rs) same (fresh, h) = (
    ap (λ i. exists (λ r. str_eq (key r) i) (update q f rs)) (kept_key q f x (same x))
        ∙ exists-update (key x) q f rs same
        ∙ fresh,
    AreKeyed-update q f rs same h,
  )

  pub exists-append :
      (k : String) (rs : List A) (a : A)
      → exists (λ q. str_eq (key q) k) rs ≡ false
      → str_eq (key a) k ≡ false
      → exists (λ q. str_eq (key q) k) (rs ++ a ∷ []) ≡ false
  unfolding exists
  exists-append k [] a h e = ground (arith, e)
  exists-append k (x ∷ rs) a h e = ground (arith, exists-append k rs a, e)

  other_key :
      (x : A) (rs : List A) (a : A)
      → exists (λ q. str_eq (key q) (key a)) (x ∷ rs) ≡ false
      → str_eq (key a) (key x) ≡ false
  unfolding exists
  other_key x rs a h = elim (Bool-cases (str_eq (key a) (key x))) [
    | inr n ↦ n
    | inl y ↦
        let same : key a ≡ key x = (eq_iff _ _).0 y in
        let here : str_eq (key x) (key a) ≡ true = (eq_iff _ _).1 (sym same) in
        absurd (ground (arith, here, h))
  ]

  pub AreKeyed-append :
      (rs : List A) (a : A)
      → AreKeyed rs
      → exists (λ q. str_eq (key q) (key a)) rs ≡ false
      → AreKeyed (rs ++ a ∷ [])
  unfolding exists
  AreKeyed-append [] a u h = (refl, tt)
  AreKeyed-append (x ∷ rs) a (fresh, u) h = (
    exists-append (key x) rs a fresh (other_key x rs a h),
    AreKeyed-append rs a u (ground (arith, h)),
  )

module _ {A : Type 0} where
  pub contains-key :
      (key : A → String) (id : String) (xs : List A)
      → contains id (map key xs) ≡ true
      → (r : A) × In r xs × (key r ≡ id)
  contains-key key id [] c = cc
  contains-key key id (x ∷ xs) c = elim (Bool-cases (str_eq id (key x))) [
    | inl y ↦ (x, inl refl, sym ((eq_iff id (key x)).0 y))
    | inr n ↦ let (r, i, e) = contains-key key id xs (ground (arith, n)) in (r, inr i, e)
  ]

  pub In-update :
      (q : A → Bool) (f : A → A) (xs : List A) (y : A)
      → In y (update q f xs)
      → (x : A) × In x xs × (y ≡ (if q x then f x else x))
  unfolding update
  In-update q f [] y i = absurd i
  In-update q f (x ∷ xs) y (inl e) = (x, inl refl, e)
  In-update q f (x ∷ xs) y (inr i) = let (z, j, e) = In-update q f xs y i in (z, inr j, e)

  pub exists_row :
      (p : A → Bool) (xs : List A) → exists p xs ≡ true → (x : A) × In x xs × (p x ≡ true)
  unfolding exists
  exists_row p [] h = cc
  exists_row p (x ∷ xs) h = elim (Bool-cases (p x)) [
    | inl y ↦ (x, inl refl, y)
    | inr n ↦ let (z, i, e) = exists_row p xs (ground (arith, n)) in (z, inr i, e)
  ]

  pub none_exists : (p : A → Bool) (xs : List A) → All (λ x. p x ≡ false) xs → exists p xs ≡ false
  unfolding exists
  none_exists p [] h = refl
  none_exists p (x ∷ xs) (e, h) = ground (arith, e, none_exists p xs h)
