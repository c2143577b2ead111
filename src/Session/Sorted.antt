-- ===== src/Session/Sorted.antt =====
-- The sorted list of names in get_fallback_session_name of daemon/gdm-session.c.
use gdm.Base.{
  ◌≡◌, ◌⊎◌, inl, inr, refl, sym, subst, Option, none, some, Bool, true, false, List, [], ◌∷◌, arith,
  if◌then◌else◌, Bytes,
}
use gdm.Session.Types.{is_at_most, insert_sorted, first_of}

-- The first name is at most each other.
abbrev pub IsLeast : Bytes → List Bytes → Type 0
IsLeast m [] = Unit {0}
IsLeast m (x ∷ xs) = (is_at_most m x ≡ true) × IsLeast m xs

abbrev pub IsSorted : List Bytes → Type 0
IsSorted [] = Unit {0}
IsSorted (x ∷ xs) = IsLeast x xs × IsSorted xs

at_most_total : (a b : Bytes) → is_at_most a b ≡ false → is_at_most b a ≡ true
at_most_total [] b h = cc
at_most_total (x ∷ xs) [] h = refl
at_most_total (x ∷ xs) (y ∷ ys) h = ground (arith, at_most_total xs ys)

at_most_trans :
    (a b c : Bytes) → is_at_most a b ≡ true → is_at_most b c ≡ true → is_at_most a c ≡ true
at_most_trans [] b c h g = refl
at_most_trans (x ∷ xs) [] c h g = cc
at_most_trans (x ∷ xs) (y ∷ ys) [] h g = cc
at_most_trans (x ∷ xs) (y ∷ ys) (z ∷ zs) h g = ground (arith, at_most_trans xs ys zs)

-- What holds of both lists that an insertion may come to holds of the insertion.
pub insert_sorted-cases :
    (P : List Bytes → Type 0) (n x : Bytes) (xs : List Bytes)
    → (is_at_most x n ≡ true → P (x ∷ insert_sorted n xs))
    → (is_at_most x n ≡ false → P (n ∷ x ∷ xs))
    → P (insert_sorted n (x ∷ xs))
unfolding insert_sorted
insert_sorted-cases P n x xs f g = go (is_at_most x n) f g
  where
    go :
        (b : Bool)
        → (b ≡ true → P (x ∷ insert_sorted n xs))
        → (b ≡ false → P (n ∷ x ∷ xs))
        → P (if b then x ∷ insert_sorted n xs else n ∷ x ∷ xs)
    go true f g = f refl
    go false f g = g refl

pub IsLeast-insert_sorted :
    (m n : Bytes) (xs : List Bytes)
    → IsLeast m xs
    → is_at_most m n ≡ true
    → IsLeast m (insert_sorted n xs)
unfolding insert_sorted
IsLeast-insert_sorted m n [] h e = (e, tt)
IsLeast-insert_sorted m n (x ∷ xs) (l, h) e =
    insert_sorted-cases (IsLeast m) n x xs (λ _. (l, IsLeast-insert_sorted m n xs h e))
      (λ _. (e, (l, h)))

IsLeast-trans :
    (m n : Bytes) (xs : List Bytes) → is_at_most m n ≡ true → IsLeast n xs → IsLeast m xs
IsLeast-trans m n [] e h = tt
IsLeast-trans m n (x ∷ xs) e (l, h) = (at_most_trans m n x e l, IsLeast-trans m n xs e h)

pub IsSorted-insert_sorted :
    (n : Bytes) (xs : List Bytes) → IsSorted xs → IsSorted (insert_sorted n xs)
unfolding insert_sorted
IsSorted-insert_sorted n [] h = (tt, tt)
IsSorted-insert_sorted n (x ∷ xs) (l, h) =
    insert_sorted-cases IsSorted n x xs
      (λ e. (IsLeast-insert_sorted x n xs l e, IsSorted-insert_sorted n xs h))
      (λ e. (let a = at_most_total x n e in ((a, IsLeast-trans n x xs a l), (l, h))))

-- What holds of every name of a list.
abbrev pub AllOf : (Bytes → Type 0) → List Bytes → Type 0
AllOf P [] = Unit {0}
AllOf P (x ∷ xs) = P x × AllOf P xs

pub AllOf-insert_sorted :
    (P : Bytes → Type 0) (n : Bytes) (xs : List Bytes)
    → P n
    → AllOf P xs
    → AllOf P (insert_sorted n xs)
unfolding insert_sorted
AllOf-insert_sorted P n [] e h = (e, tt)
AllOf-insert_sorted P n (x ∷ xs) e (r, h) =
    insert_sorted-cases (AllOf P) n x xs (λ _. (r, AllOf-insert_sorted P n xs e h))
      (λ _. (e, (r, h)))

-- The names of a list.
abbrev pub IsIn : Bytes → List Bytes → Type 0
IsIn n [] = ⊥
IsIn n (x ∷ xs) = (n ≡ x) ⊎ IsIn n xs

pub IsIn-insert_sorted_old :
    (n m : Bytes) (xs : List Bytes) → IsIn m xs → IsIn m (insert_sorted n xs)
unfolding insert_sorted
IsIn-insert_sorted_old n m [] h = absurd h
IsIn-insert_sorted_old n m (x ∷ xs) (inl e) =
    insert_sorted-cases (IsIn m) n x xs (λ _. inl e) (λ _. inr (inl e))
IsIn-insert_sorted_old n m (x ∷ xs) (inr i) =
    insert_sorted-cases (IsIn m) n x xs (λ _. inr (IsIn-insert_sorted_old n m xs i))
      (λ _. inr (inr i))

pub IsIn-insert_sorted_new : (n : Bytes) (xs : List Bytes) → IsIn n (insert_sorted n xs)
unfolding insert_sorted
IsIn-insert_sorted_new n [] = inl refl
IsIn-insert_sorted_new n (x ∷ xs) =
    insert_sorted-cases (IsIn n) n x xs (λ _. inr (IsIn-insert_sorted_new n xs)) (λ _. inl refl)

pub least-IsIn :
    (n : Bytes) (x : Bytes) (xs : List Bytes) → IsLeast x xs → IsIn n xs → is_at_most x n ≡ true
least-IsIn n x [] l i = absurd i
least-IsIn n x (y ∷ xs) (e, l) (inl p) = subst (λ (m : Bytes). is_at_most x m ≡ true) (sym p) e
least-IsIn n x (y ∷ xs) (e, l) (inr i) = least-IsIn n x xs l i

pub at_most_refl : (a : Bytes) → is_at_most a a ≡ true
at_most_refl [] = refl
at_most_refl (x ∷ xs) = ground (arith, at_most_refl xs)

-- What is chosen from a sorted list is at most each of its names.
abbrev pub IsFirst : Bytes → Option Bytes → Type 0
IsFirst n none = ⊥
IsFirst n (some m) = is_at_most m n ≡ true

pub first_of-IsFirst :
    (n : Bytes) (xs : List Bytes) → IsSorted xs → IsIn n xs → IsFirst n (first_of xs)
first_of-IsFirst n [] s i = absurd i
first_of-IsFirst n (x ∷ xs) (l, s) (inl e) =
    subst (λ (m : Bytes). is_at_most x m ≡ true) (sym e) (at_most_refl x)
first_of-IsFirst n (x ∷ xs) (l, s) (inr i) = least-IsIn n x xs l i

-- The first name of a sorted list: it is one of the list, and at most each.
pub first_of-IsLeast :
    (P : Bytes → Type 0) (n : Bytes) (xs : List Bytes)
    → IsSorted xs
    → AllOf P xs
    → IsIn n xs
    → (m : Bytes) × ((first_of xs ≡ some m) × ((is_at_most m n ≡ true) × P m))
first_of-IsLeast P n [] s a i = absurd i
first_of-IsLeast P n (x ∷ xs) s a i = (x, (refl, (first_of-IsFirst n (x ∷ xs) s i, a.0)))
