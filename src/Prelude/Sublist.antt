-- ===== src/Prelude/Sublist.antt =====
-- Lists that leave out some of the elements of another, and keep the order of the rest.
use mathlib.Core.List.{List, [], ◌∷◌, ◌++◌}

pub data Sublist {ℓ} {A : Type ℓ} : List A → List A → Type ℓ where
  nil : Sublist [] []
  leave : {xs ys : List A} (y : A) → Sublist xs ys → Sublist xs (y ∷ ys)
  keep : {xs ys : List A} (y : A) → Sublist xs ys → Sublist (y ∷ xs) (y ∷ ys)

module _ {ℓ} {A : Type ℓ} where
  pub Sublist-nil : (ys : List A) → Sublist [] ys
  Sublist-nil [] = Sublist.nil
  Sublist-nil (y ∷ ys) = Sublist.leave y (Sublist-nil ys)

  pub Sublist-refl : (ys : List A) → Sublist ys ys
  Sublist-refl [] = Sublist.nil
  Sublist-refl (y ∷ ys) = Sublist.keep y (Sublist-refl ys)

  pub Sublist-trans :
      {ys zs : List A} → Sublist ys zs → {xs : List A} → Sublist xs ys → Sublist xs zs
  Sublist-trans Sublist.nil p = p
  Sublist-trans (Sublist.leave z q) p = Sublist.leave z (Sublist-trans q p)
  Sublist-trans (Sublist.keep z q) (Sublist.leave _ p) = Sublist.leave z (Sublist-trans q p)
  Sublist-trans (Sublist.keep z q) (Sublist.keep _ p) = Sublist.keep z (Sublist-trans q p)

  pub Sublist-append :
      {xs ys us vs : List A} → Sublist xs ys → Sublist us vs → Sublist (xs ++ us) (ys ++ vs)
  Sublist-append Sublist.nil q = q
  Sublist-append (Sublist.leave y p) q = Sublist.leave y (Sublist-append p q)
  Sublist-append (Sublist.keep y p) q = Sublist.keep y (Sublist-append p q)

  pub Sublist-drop_left : (xs : List A) {us vs : List A} → Sublist us vs → Sublist us (xs ++ vs)
  Sublist-drop_left [] q = q
  Sublist-drop_left (x ∷ xs) q = Sublist.leave x (Sublist-drop_left xs q)
