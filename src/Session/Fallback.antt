-- ===== src/Session/Fallback.antt =====
-- The session that daemon/gdm-session.c starts for want of another: it has a command, and among the
-- installed ones it is the first by name.
use gdm.Base.{
  ℕ, zero, suc, ◌-◌, ◌≡◌, ◌⊎◌, inl, inr, refl, ap, ◌∙◌, sym, subst, Option, none, some, Bool, true,
  false, ◌&&◌, List, [], ◌∷◌, ◌++◌, arith, if◌then◌else◌, Bytes, codes, same_bytes_iff, length,
  take, drop, is_some,
}
use mathlib.Core.Option.{some-injective}
use gdm.Session.Types.{
  is_at_most, System, Choice, get_session_command_for_file, get_session_command_for_name,
  has_command, is_desktop_name, session_name_of, insert_sorted, or_choose, first_of, add_names,
  add_dir, add_dirs, installed_sessions, configured_name, if_command, get_fallback_session_name,
  get_system_session_dirs,
}
use gdm.Session.Sorted.{
  IsSorted, IsIn, AllOf, AllOf-insert_sorted, first_of-IsLeast, insert_sorted-cases,
  IsSorted-insert_sorted, IsIn-insert_sorted_old, IsIn-insert_sorted_new,
}

take-append-drop : (n : ℕ) (xs : Bytes) → take n xs ++ drop n xs ≡ xs
take-append-drop zero xs = refl
take-append-drop (suc n) [] = refl
take-append-drop (suc n) (x ∷ xs) = ap (λ (ys : Bytes). x ∷ ys) (take-append-drop n xs)

-- The suffix that is cut off a name is put back.
session_name_of-append :
    (base : Bytes) → is_desktop_name base ≡ true → session_name_of base ++ codes ".desktop" ≡ base
session_name_of-append base h =
    ap (λ (s : Bytes). session_name_of base ++ s) (sym suffix)
    ∙ take-append-drop (length base - 8) base
  where
    suffix : drop (length base - 8) base ≡ codes ".desktop"
    suffix = (same_bytes_iff _ _).0 (ground arith)

-- Every name of the list has a command.
abbrev pub AllRunnable : System → Choice → List Bytes → Type 0
AllRunnable sys self [] = Unit {0}
AllRunnable sys self (x ∷ xs) = (has_command sys self x ≡ true) × AllRunnable sys self xs

module _ (sys : System) (self : Choice) where
  -- A name in a directory that stands for a session with a command.
  abbrev pub is_candidate : Bytes → Bool
  is_candidate base =
      is_desktop_name base && is_some (get_session_command_for_file sys self base none)

  AllRunnable-insert_sorted :
      (n : Bytes) (xs : List Bytes)
      → has_command sys self n ≡ true
      → AllRunnable sys self xs
      → AllRunnable sys self (insert_sorted n xs)
  unfolding insert_sorted
  AllRunnable-insert_sorted n [] e h = (e, tt)
  AllRunnable-insert_sorted n (x ∷ xs) e (r, h) =
      insert_sorted-cases (AllRunnable sys self) n x xs
        (λ _. (r, AllRunnable-insert_sorted n xs e h)) (λ _. (e, (r, h)))

  has_command-candidate :
      (base : Bytes) → is_candidate base ≡ true → has_command sys self (session_name_of base) ≡ true
  unfolding get_session_command_for_name
  has_command-candidate base h =
      ap (λ (b : Bytes). is_some (get_session_command_for_file sys self b none))
        (session_name_of-append base (ground arith))
      ∙ ground arith

  -- What the loops keep of the list.
  record IsInstalled (sessions : List Bytes) : Type 0 where
    sorted : IsSorted sessions
    runnable : AllRunnable sys self sessions

  add_name-IsInstalled :
      (base : Bytes) (xs : List Bytes) (b : Bool)
      → is_candidate base ≡ b
      → IsInstalled xs
      → IsInstalled (if b then insert_sorted (session_name_of base) xs else xs)
  add_name-IsInstalled base xs true e h = record {
    sorted = IsSorted-insert_sorted (session_name_of base) xs h.sorted;
    runnable =
        AllRunnable-insert_sorted (session_name_of base) xs (has_command-candidate base e)
          h.runnable;
  }
  add_name-IsInstalled base xs false e h = h

  add_names-IsInstalled :
      (bases xs : List Bytes) → IsInstalled xs → IsInstalled (add_names sys self bases xs)
  unfolding add_names
  add_names-IsInstalled [] xs h = h
  add_names-IsInstalled (base ∷ bases) xs h =
      add_names-IsInstalled bases _ (add_name-IsInstalled base xs (is_candidate base) refl h)

  add_dirs-IsInstalled :
      (ds xs : List Bytes) → IsInstalled xs → IsInstalled (add_dirs sys self ds xs)
  unfolding add_dirs
  add_dirs-IsInstalled [] xs h = h
  add_dirs-IsInstalled (d ∷ ds) xs h = add_dirs-IsInstalled ds _ (go (sys.read_dir d))
    where
      go : (o : Option (List Bytes)) → IsInstalled (add_dir sys self o xs)
      go none = h
      go (some bases) = add_names-IsInstalled bases xs h

  installed_sessions-IsInstalled : IsInstalled (installed_sessions sys self)
  unfolding installed_sessions
  installed_sessions-IsInstalled =
      add_dirs-IsInstalled (get_system_session_dirs sys self none) []
        (record { sorted = tt; runnable = tt })

  if_command-runs :
      (o : Option Bytes) (n : Bytes)
      → if_command sys self o ≡ some n
      → has_command sys self n ≡ true
  if_command-runs none n e = cc
  if_command-runs (some m) n e = go (has_command sys self m) refl e
    where
      go :
          (b : Bool)
          → has_command sys self m ≡ b
          → (if b then some m else none) ≡ some n
          → has_command sys self n ≡ true
      go true h e = subst (λ (x : Bytes). has_command sys self x ≡ true) (some-injective m n e) h
      go false h e = cc

  first-runs :
      (xs : List Bytes) (n : Bytes)
      → AllRunnable sys self xs
      → first_of xs ≡ some n
      → has_command sys self n ≡ true
  first-runs [] n h e = cc
  first-runs (x ∷ xs) n (r, h) e =
      subst (λ (y : Bytes). has_command sys self y ≡ true) (some-injective x n e) r

  or_choose-runs :
      (o p : Option Bytes) (n : Bytes)
      → ((m : Bytes) → o ≡ some m → has_command sys self m ≡ true)
      → ((m : Bytes) → p ≡ some m → has_command sys self m ≡ true)
      → or_choose o p ≡ some n
      → has_command sys self n ≡ true
  or_choose-runs none p n h g e = g n e
  or_choose-runs (some m) p n h g e = h n e

  -- The fallback session has a command, whether it was cached, is configured, or was found among the
  -- installed ones.
  pub get_fallback_session_name-runs :
      (n : Bytes) → get_fallback_session_name sys self ≡ some n → has_command sys self n ≡ true
  unfolding get_fallback_session_name
  get_fallback_session_name-runs n e =
      or_choose-runs (if_command sys self self.fallback_session_name)
        (or_choose (if_command sys self configured) (first_of (installed_sessions sys self))) n
        (if_command-runs self.fallback_session_name)
        (λ m.
          or_choose-runs (if_command sys self configured) (first_of (installed_sessions sys self)) m
            (if_command-runs configured)
            (λ k.
              first-runs (installed_sessions sys self) k installed_sessions-IsInstalled.runnable))
        e
    where
      configured : Option Bytes
      configured = some (configured_name sys.configured_fallback)

  add_names-IsIn_old :
      (n : Bytes) (bases xs : List Bytes) → IsIn n xs → IsIn n (add_names sys self bases xs)
  unfolding add_names
  add_names-IsIn_old n [] xs i = i
  add_names-IsIn_old n (base ∷ bases) xs i = add_names-IsIn_old n bases _ (go (is_candidate base))
    where
      go : (b : Bool) → IsIn n (if b then insert_sorted (session_name_of base) xs else xs)
      go true = IsIn-insert_sorted_old (session_name_of base) n xs i
      go false = i

  add_names-IsIn_new :
      (base : Bytes) (bases xs : List Bytes)
      → IsIn base bases
      → is_candidate base ≡ true
      → IsIn (session_name_of base) (add_names sys self bases xs)
  unfolding add_names
  add_names-IsIn_new base [] xs i c = absurd i
  add_names-IsIn_new base (b ∷ bases) xs (inl e) c =
      add_names-IsIn_old (session_name_of base) bases _ (
        subst
          (λ (t : Bool).
            IsIn (session_name_of base) (if t then insert_sorted (session_name_of b) xs else xs))
          (sym c ∙ ap is_candidate e)
          (subst (λ (x : Bytes). IsIn (session_name_of base) (insert_sorted (session_name_of x) xs))
            e (IsIn-insert_sorted_new (session_name_of base) xs)))
  add_names-IsIn_new base (b ∷ bases) xs (inr i) c = add_names-IsIn_new base bases _ i c

  -- A name that stands in a directory that can be read.
  abbrev pub StandsIn : Bytes → Option (List Bytes) → Type 0
  StandsIn base none = ⊥
  StandsIn base (some bases) = IsIn base bases

  abbrev pub StandsInOne : Bytes → List Bytes → Type 0
  StandsInOne base [] = ⊥
  StandsInOne base (d ∷ ds) = StandsIn base (sys.read_dir d) ⊎ StandsInOne base ds

  add_dir-IsIn_old :
      (n : Bytes) (o : Option (List Bytes)) (xs : List Bytes)
      → IsIn n xs
      → IsIn n (add_dir sys self o xs)
  add_dir-IsIn_old n none xs i = i
  add_dir-IsIn_old n (some bases) xs i = add_names-IsIn_old n bases xs i

  add_dir-IsIn_new :
      (base : Bytes) (o : Option (List Bytes)) (xs : List Bytes)
      → StandsIn base o
      → is_candidate base ≡ true
      → IsIn (session_name_of base) (add_dir sys self o xs)
  add_dir-IsIn_new base none xs i c = absurd i
  add_dir-IsIn_new base (some bases) xs i c = add_names-IsIn_new base bases xs i c

  add_dirs-IsIn_old :
      (n : Bytes) (ds xs : List Bytes) → IsIn n xs → IsIn n (add_dirs sys self ds xs)
  unfolding add_dirs
  add_dirs-IsIn_old n [] xs i = i
  add_dirs-IsIn_old n (d ∷ ds) xs i =
      add_dirs-IsIn_old n ds _ (add_dir-IsIn_old n (sys.read_dir d) xs i)

  add_dirs-IsIn_new :
      (base : Bytes) (ds xs : List Bytes)
      → StandsInOne base ds
      → is_candidate base ≡ true
      → IsIn (session_name_of base) (add_dirs sys self ds xs)
  unfolding add_dirs
  add_dirs-IsIn_new base [] xs i c = absurd i
  add_dirs-IsIn_new base (d ∷ ds) xs (inl i) c =
      add_dirs-IsIn_old (session_name_of base) ds _ (add_dir-IsIn_new base (sys.read_dir d) xs i c)
  add_dirs-IsIn_new base (d ∷ ds) xs (inr i) c = add_dirs-IsIn_new base ds _ i c

  add_names-AllOf :
      (P : Bytes → Type 0) (bases xs : List Bytes)
      → ((b : Bytes) → IsIn b bases → is_candidate b ≡ true → P (session_name_of b))
      → AllOf P xs
      → AllOf P (add_names sys self bases xs)
  unfolding add_names
  add_names-AllOf P [] xs f h = h
  add_names-AllOf P (base ∷ bases) xs f h =
      add_names-AllOf P bases _ (λ b i c. f b (inr i) c) (go (is_candidate base) refl)
    where
      go :
          (t : Bool)
          → is_candidate base ≡ t
          → AllOf P (if t then insert_sorted (session_name_of base) xs else xs)
      go true c = AllOf-insert_sorted P (session_name_of base) xs (f base (inl refl) c) h
      go false c = h

  add_dirs-AllOf :
      (P : Bytes → Type 0) (ds xs : List Bytes)
      → ((b : Bytes) → StandsInOne b ds → is_candidate b ≡ true → P (session_name_of b))
      → AllOf P xs
      → AllOf P (add_dirs sys self ds xs)
  unfolding add_dirs
  add_dirs-AllOf P [] xs f h = h
  add_dirs-AllOf P (d ∷ ds) xs f h =
      add_dirs-AllOf P ds _ (λ b i c. f b (inr i) c) (go (sys.read_dir d) (λ b i c. f b (inl i) c))
    where
      go :
          (o : Option (List Bytes))
          → ((b : Bytes) → StandsIn b o → is_candidate b ≡ true → P (session_name_of b))
          → AllOf P (add_dir sys self o xs)
      go none g = h
      go (some bases) g = add_names-AllOf P bases xs g h

  -- The name is that of a file that stands for a session with a command, in a directory of the search.
  abbrev pub IsSession : Bytes → Type 0
  IsSession m =
      (b : Bytes) × (StandsInOne b (get_system_session_dirs sys self none)
        × ((is_candidate b ≡ true) × (m ≡ session_name_of b)))

  -- Where neither the cached nor the configured session has a command, and a directory of the search
  -- has a file that stands for a session with one, there is a fallback session, so that the program is
  -- not aborted. It is the name of such a file too, and by name at most the given one: it is the first
  -- of them all.
  pub get_fallback_session_name-IsFirst :
      (base : Bytes)
      → if_command sys self self.fallback_session_name ≡ none
      → if_command sys self (some (configured_name sys.configured_fallback)) ≡ none
      → StandsInOne base (get_system_session_dirs sys self none)
      → is_candidate base ≡ true
      → (m : Bytes) × ((get_fallback_session_name sys self ≡ some m)
          × ((is_at_most m (session_name_of base) ≡ true) × IsSession m))
  unfolding get_fallback_session_name installed_sessions
  get_fallback_session_name-IsFirst base cached configured stands c =
      let (m, (e, r)) =
        first_of-IsLeast IsSession (session_name_of base) (installed_sessions sys self)
          installed_sessions-IsInstalled.sorted
          (add_dirs-AllOf IsSession (get_system_session_dirs sys self none) []
            (λ b i k. (b, (i, (k, refl)))) tt)
          (add_dirs-IsIn_new base (get_system_session_dirs sys self none) [] stands c) in
      (m, (rw (cached, configured) e, r))
